-- ===== src/Store/Placing.antt =====
-- What `create_order` answers with is the account's new order.
use op_ca.Prelude.{
  ℕ, suc, ◌≡◌, ◌≤◌, refl, sym, ap, ◌∙◌, Bool, false, Option, none, some, List, [], ◌∷◌, ◌++◌,
  Result, ok, err, All, arith, any, find, filter, map, text_eq, ◌==◌, Bool-cases, Option-cases, inl,
  inr, subst,
}
use op_ca.Base64url.{base64url}
use op_ca.Store.Tables.{
  ChallengeType, Token, OrderRow, Db, Error, panicked, random, found_or, continue, greatest,
  next_id,
}
use op_ca.Store.Lifecycle.{orders_table, row_of}
use op_ca.Store.Lifecycles.{le-greatest}
use op_ca.Store.Within.{Within, Within-bind, Within-found_or, Committed, IsOrder, within_rules}
use op_ca.Store.Orders.{
  Draws, NewAuthorisation, NewOrder, Order, insert_order, insert_authorisation, insert_challenge,
  insert_challenges, insert_authorisations, order, create_order,
}

-- The orders stay as they are.
abbrev SameOrders : Db → Db → Type 0
SameOrders d d' = d'.orders ≡ d.orders

same_orders : IsOrder SameOrders
same_orders = record { here = λ d. refl; chain = λ a b c p q. q ∙ p }

insert_challenge-SameOrders :
    (a : ℕ) (kind : ChallengeType) (token : Token)
    → Within SameOrders (insert_challenge a kind token)
unfolding insert_challenge
insert_challenge-SameOrders a kind token = record {
  at = λ d. elim (Bool-cases (any (λ c. text_eq c.token token) d.challenges)) [
    | inl e ↦ rw e tt
    | inr e ↦ rw e refl
  ];
}

insert_challenges-SameOrders :
    (draws : Draws) (n a : ℕ) (kinds : List ChallengeType)
    → Within SameOrders (insert_challenges draws n a kinds)
unfolding insert_challenges
insert_challenges-SameOrders draws n a [] = search (within_rules, same_orders)
insert_challenges-SameOrders draws n a (kind ∷ kinds) =
    Within-bind same_orders (found_or (draws n) random) _ (Within-found_or same_orders _ _) λ bytes.
      Within-bind same_orders _ _ (insert_challenge-SameOrders a kind (base64url bytes))
        (λ u. insert_challenges-SameOrders draws (suc n) a kinds)

insert_authorisation-SameOrders :
    (id : ℕ) (new : NewAuthorisation) → Within SameOrders (insert_authorisation id new)
unfolding insert_authorisation
insert_authorisation-SameOrders id new = record { at = λ d. refl }

insert_authorisations-SameOrders :
    (draws : Draws) (n id : ℕ) (news : List NewAuthorisation)
    → Within SameOrders (insert_authorisations draws n id news)
unfolding insert_authorisations
insert_authorisations-SameOrders draws n id [] = search (within_rules, same_orders)
insert_authorisations-SameOrders draws n id (new ∷ rest) =
    let more = λ (m : ℕ). insert_authorisations-SameOrders draws m id rest in
    search (
      within_rules, same_orders, insert_authorisation-SameOrders, insert_challenges-SameOrders,
      more,
    )

find-fresh {ℓ} :
    {A : Type ℓ} (p : A → Bool) (xs : List A) (y r : A)
    → All (λ x. p x ≡ false) xs
    → find p (xs ++ y ∷ []) ≡ some r
    → y ≡ r
find-fresh p [] y r h e = ground arith
find-fresh p (x ∷ xs) y r h e = find-fresh p xs y r h.1 (ground arith)

ids_below :
    (orders : List OrderRow) (k : ℕ)
    → All (λ n. n ≤ k) (map (λ (o : OrderRow). o.id) orders)
    → All (λ (o : OrderRow). (o.id == suc k) ≡ false) orders
ids_below [] k h = tt
ids_below (o ∷ orders) k h = (ground arith, ids_below orders k h.1)

-- The answer is the row of that number, with the numbers of its authorisations.
abbrev pub Read : ℕ → Order → Db → Type 0
Read id o d =
    (row_of orders_table id d ≡ some o.row)
    × (o.authorisations ≡ map (λ a. a.id) (filter (λ a. a.order == id) d.authorisations))

-- What was placed: the answer is read of the database, and the account's.
abbrev pub Placed : ℕ → Result Error (Order × Db) → Type 0
Placed account (ok (o, d)) = (o.row.account ≡ account) × (id : ℕ) × Read id o d
Placed account (err e) = Unit

-- What `order` read is what the tables hold.
pub order_row : (id : ℕ) (d : Db) (o : Order) → order id d ≡ some o → Read id o d
unfolding order
order_row id d o e = elim (Option-cases (row_of orders_table id d)) [
  | inl missing ↦ absurd (ground (arith, missing, e))
  | inr (row, there) ↦
      let same : record {
        row = row;
        authorisations = map (λ a. a.id) (filter (λ a. a.order == id) d.authorisations);
      }
          ≡ o =
        ground (arith, there, e) in
      (there ∙ ap some (ap (λ x. x.row) same), sym (ap (λ x. x.authorisations) same))
]

read_back :
    (account id : ℕ) (d : Db) (found : Option Order)
    → order id d ≡ found
    → ((o : Order) → row_of orders_table id d ≡ some o.row → o.row.account ≡ account)
    → Placed account (found_or found panicked d)
read_back account id d none e f = tt
read_back account id d (some o) e f = let row = order_row id d o e in (f o row.0, id, row)

filled :
    (account id : ℕ) (orders : List OrderRow) (r : Result Error (Unit {0} × Db))
    → Committed (λ d. d.orders ≡ orders) r
    → ((o : OrderRow) → find (λ x. x.id == id) orders ≡ some o → o.account ≡ account)
    → Placed account (continue r (λ u d. found_or (order id d) panicked d))
unfolding row_of
filled account id orders (err e) c f = tt
filled account id orders (ok (u, d)) c f =
    read_back account id d (order id d) refl
      λ o h. f o.row (subst (λ os. find (λ x. x.id == id) os ≡ some o.row) c (unfold row_of in h))

pub create_order-Placed :
    (draws : Draws) (now : ℕ) (new : NewOrder) (d : Db)
    → Placed new.account (create_order draws now new d)
unfolding create_order insert_order next_id
create_order-Placed draws now new d =
    elim (Bool-cases (any (λ a. a.id == new.account) d.accounts)) [
      | inr e ↦ rw e tt
      | inl e ↦ rw e (
          filled new.account (suc (greatest (map (λ o. o.id) d.orders))) _ _
            ((insert_authorisations-SameOrders draws 0 _ new.authorisations).at _)
            λ o h. sym (
              ap (λ r. r.account)
                (find-fresh _ d.orders _ o
                  (ids_below d.orders _ (le-greatest (map (λ o. o.id) d.orders))) h)))
    ]
