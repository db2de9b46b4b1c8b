-- ===== src/CommandQueue/Collapse.antt =====
-- Collapsing keeps the last document of each target, and every other command, in their order.
use op_ca.Prelude.{
  ℕ, suc, ◌≤◌, ◌≡◌, refl, ◌∙◌, String, Bool, true, false, not, ◌&&◌, Option, none, some, [], ◌∷◌,
  any, filter, str_eq, eq_iff, eq_refl, if◌then◌else◌, arith, Bool-cases, inl, inr, ==_refl,
}
use op_ca.CommandQueue.{
  QueuedCommand, CommandQueue, Indices, is_document, index_of, is_index, last_store_doc, keep,
  collapse_queue,
}

abbrev pub is_document_of : String → QueuedCommand → Bool
is_document_of target c = is_document c && str_eq c.target_id target

-- A document goes if another of its target comes later.
unfoldable pub keep_last : CommandQueue → CommandQueue
keep_last [] = []
keep_last (c ∷ cs) =
    if is_document c && any (is_document_of c.target_id) cs then keep_last cs else c ∷ keep_last cs

none_later :
    (target : String) (i : ℕ) (cs : CommandQueue) (m : Indices)
    → any (is_document_of target) cs ≡ false
    → index_of target (last_store_doc i cs m) ≡ index_of target m
unfolding last_store_doc index_of
none_later target i [] m h = refl
none_later target i (c ∷ cs) m h = elim (Bool-cases (is_document c)) [
  | inl e ↦ rw e (none_later target (suc i) cs ((c.target_id, i) ∷ m) (ground arith) ∙ ground arith)
  | inr e ↦ rw e (none_later target (suc i) cs m (ground arith))
]

-- The index found is not before `i`.
abbrev Later : ℕ → Option ℕ → Type 0
Later i none = ⊥
Later i (some k) = i ≤ k

Later-mono : (i : ℕ) (o : Option ℕ) → Later (suc i) o → Later i o
Later-mono i none h = h
Later-mono i (some k) h = omega arith

here :
    (target : String) (i : ℕ) (c : QueuedCommand) (cs : CommandQueue) (m : Indices)
    → any (is_document_of target) (c ∷ cs) ≡ true
    → any (is_document_of target) cs ≡ false
    → Later i (index_of target (if is_document c then (c.target_id, i) ∷ m else m))
unfolding index_of
here target i c cs m h e =
    let d : is_document c ≡ true = ground arith in
    let t : str_eq c.target_id target ≡ true = ground arith in rw (d, t) (omega arith)

some_later :
    (target : String) (i : ℕ) (cs : CommandQueue) (m : Indices)
    → any (is_document_of target) cs ≡ true
    → Later i (index_of target (last_store_doc i cs m))
unfolding last_store_doc
some_later target i [] m h = absurd (cc h)
some_later target i (c ∷ cs) m h = elim (Bool-cases (any (is_document_of target) cs)) [
  | inl e ↦ Later-mono i _ (some_later target (suc i) cs _ e)
  | inr e ↦
      rw (none_later target (suc i) cs (if is_document c then (c.target_id, i) ∷ m else m) e)
        (here target i c cs m h e)
]

kept_at_head :
    (m : Indices) (i : ℕ) (c : QueuedCommand) (cs : CommandQueue)
    → is_document c ≡ true
    → is_index (index_of c.target_id (last_store_doc (suc i) cs ((c.target_id, i) ∷ m))) i
      ≡ not (any (is_document_of c.target_id) cs)
unfolding index_of
kept_at_head m i c cs d = elim (Bool-cases (any (is_document_of c.target_id) cs)) [
  | inl e ↦ rw e (later _ (some_later c.target_id (suc i) cs ((c.target_id, i) ∷ m) e))
  | inr e ↦
      rw
        (
          none_later c.target_id (suc i) cs ((c.target_id, i) ∷ m) e,
          e,
          eq_refl c.target_id,
          ==_refl i,
        )
        refl
]
  where
    later : (o : Option ℕ) → Later (suc i) o → is_index o i ≡ false
    later none h = absurd h
    later (some k) h = ground arith

keep-keep_last :
    (i : ℕ) (cs : CommandQueue) (m : Indices) → keep (last_store_doc i cs m) i cs ≡ keep_last cs
unfolding keep last_store_doc keep_last
keep-keep_last i [] m = refl
keep-keep_last i (c ∷ cs) m = elim (Bool-cases (is_document c)) [
  | inl d ↦
      let rest = keep-keep_last (suc i) cs ((c.target_id, i) ∷ m) in
      ground (arith, d, rest, kept_at_head m i c cs d)
  | inr d ↦ let rest = keep-keep_last (suc i) cs m in ground (arith, d, rest)
]

-- The queue is collapsed as if one read it from its end: a document goes if, and only if, another
-- document of its target comes later, and everything else stays, in its order.
pub collapse_queue-keep_last : (queue : CommandQueue) → collapse_queue queue ≡ keep_last queue
unfolding collapse_queue
collapse_queue-keep_last queue = keep-keep_last 0 queue []

-- The last of a list, alone.
abbrev pub last_only : CommandQueue → CommandQueue
last_only [] = []
last_only (c ∷ []) = c ∷ []
last_only (c ∷ d ∷ cs) = last_only (d ∷ cs)

filter_none : (p : QueuedCommand → Bool) (cs : CommandQueue) → any p cs ≡ false → filter p cs ≡ []
filter_none p [] h = refl
filter_none p (c ∷ cs) h = ground (arith, filter_none p cs)

last_only_cons :
    (p : QueuedCommand → Bool) (c : QueuedCommand) (cs : CommandQueue)
    → any p cs ≡ true
    → last_only (c ∷ filter p cs) ≡ last_only (filter p cs)
last_only_cons p c [] h = absurd (cc h)
last_only_cons p c (d ∷ cs) h = elim (Bool-cases (p d)) [
  | inl e ↦ rw e refl
  | inr e ↦ rw e (last_only_cons p c cs (ground arith))
]

keep_last-documents :
    (target : String) (queue : CommandQueue)
    → filter (is_document_of target) (keep_last queue)
      ≡ last_only (filter (is_document_of target) queue)
unfolding keep_last
keep_last-documents target [] = refl
keep_last-documents target (c ∷ cs) = elim (Bool-cases (is_document_of target c)) [
  | inl e ↦
      let same : c.target_id ≡ target = (eq_iff c.target_id target).0 (ground arith) in
      elim (Bool-cases (any (is_document_of target) cs)) [
        | inl later ↦ ground (
          arith,
          same,
          keep_last-documents target cs,
          last_only_cons (is_document_of target) c cs later,
        )
        | inr alone ↦ ground (
          arith,
          same,
          keep_last-documents target cs,
          filter_none (is_document_of target) cs alone,
        )
      ]
  | inr e ↦ ground (arith, keep_last-documents target cs)
]

keep_last-others :
    (queue : CommandQueue)
    → filter (λ c. not (is_document c)) (keep_last queue) ≡ filter (λ c. not (is_document c)) queue
unfolding keep_last
keep_last-others [] = refl
keep_last-others (c ∷ cs) = ground (arith, keep_last-others cs)

-- Of each target's documents a collapsed queue holds the last alone, and it holds every command that
-- is no document, in the order of the queue.
pub collapse_queue_lem :
    (target : String) (queue : CommandQueue)
    → (filter (is_document_of target) (collapse_queue queue)
        ≡ last_only (filter (is_document_of target) queue))
      × (filter (λ c. not (is_document c)) (collapse_queue queue)
          ≡ filter (λ c. not (is_document c)) queue)
collapse_queue_lem target queue =
    rw (collapse_queue-keep_last queue) (keep_last-documents target queue, keep_last-others queue)
