-- ===== src/Requests/Kids.antt =====
-- The `kid` of an account is its URL, and no other text.
use op_ca.Prelude.{
  ℕ, ◌^◌, ◌<◌, ◌≡◌, ◌≢◌, refl, sym, Option, none, some, List, [], ◌∷◌, ◌++◌, Result, ok, err, bind,
  ok_or, true, ◌↔◌, lt→ltb, text_eq_iff, arith, Option-cases, inl, inr,
}
use op_ca.Problem.{ProblemType}
use op_ca.Decimal.{print}
use op_ca.Decimal.RoundTrip.{parse-print}
use op_ca.Store.Status.{AccountStatus}
use op_ca.Store.Tables.{Account, Db}
use op_ca.Store.Accounts.{account}
use op_ca.Requests.{
  Jose, Signer, strip_prefix, parse_id, account_url, id_of_kid, account_as_signer, kid_signer,
  account_signer, is_valid_account,
}

strip_prefix-append : (cs text : List ℕ) → strip_prefix cs (cs ++ text) ≡ some text
unfolding strip_prefix
strip_prefix-append [] text = refl
strip_prefix-append (c ∷ cs) text = ground (arith, strip_prefix-append cs text)

parse_id-print : (id : ℕ) → id < 2 ^ 63 → parse_id (print id) ≡ some id
unfolding parse_id
parse_id-print id l =
    let e = parse-print id (omega arith) in ground (arith, e, lt→ltb id (2 ^ 63) l)

id_of_kid-account_url :
    (accounts_url : List ℕ) (id : ℕ)
    → id < 2 ^ 63
    → id_of_kid accounts_url (account_url accounts_url id) ≡ some id
unfolding id_of_kid account_url
id_of_kid-account_url accounts_url id l = ground (
  arith,
  strip_prefix-append accounts_url (print id),
  parse_id-print id l,
  text_eq_iff (accounts_url ++ print id) (accounts_url ++ print id),
)

pub id_of_kid-some :
    (accounts_url name : List ℕ) (id : ℕ)
    → id_of_kid accounts_url name ≡ some id
    → account_url accounts_url id ≡ name
unfolding id_of_kid
id_of_kid-some accounts_url name id h = elim (Option-cases (strip_prefix accounts_url name)) [
  | inl e ↦ absurd (ground arith)
  | inr (text, e) ↦ elim (Option-cases (parse_id text)) [
    | inl p ↦ absurd (ground arith)
    | inr (n, p) ↦ ground (arith, text_eq_iff (account_url accounts_url n) name)
  ]
]

-- What a `kid` that is an account's URL is to be answered, by the account there is: none, one that is
-- not valid, one whose key cannot be read, or that account with its key.
abbrev pub Answers : (j : Jose) → Option Account → Result ProblemType (Signer j.Jwk) → Type 0
Answers j none r = r ≡ err ProblemType.account_does_not_exist
Answers j (some a) r =
    (a.status ≢ AccountStatus.valid → r ≡ err ProblemType.unauthorized)
    × (a.status ≡ AccountStatus.valid
        → j.from_json a.jwk ≡ none
        → r ≡ err ProblemType.server_internal)
    × ((key : j.Jwk)
        → a.status ≡ AccountStatus.valid
        → j.from_json a.jwk ≡ some key
        → r ≡ ok (account_signer a key))

pub is_valid_iff : (s : AccountStatus) → (is_valid_account s ≡ true) ↔ (s ≡ AccountStatus.valid)
is_valid_iff AccountStatus.valid = ((λ e. refl), (λ e. refl))
is_valid_iff AccountStatus.deactivated = ((λ e. absurd (cc e)), λ e. absurd (cc e))
is_valid_iff AccountStatus.revoked = ((λ e. absurd (cc e)), λ e. absurd (cc e))

account-Answers : (j : Jose) (a : Account) → Answers j (some a) (account_as_signer j a)
unfolding account_as_signer
account-Answers j a = (
  (λ n. ground (arith, is_valid_iff a.status)),
  (λ v e. ground (arith, is_valid_iff a.status)),
  λ key v e. ground (arith, is_valid_iff a.status),
)

found-Answers :
    (j : Jose) (o : Option Account)
    → Answers j o (bind (ok_or o ProblemType.account_does_not_exist) (account_as_signer j))
found-Answers j none = refl
found-Answers j (some a) = account-Answers j a

-- The URL of an id that fits an `i64` is answered as the account with the id has it: that there is
-- none; that it is unauthorized where it is not valid; a server error where its stored key cannot be
-- read; and else that account with its key.
pub kid_signer-account_url :
    (j : Jose) (accounts_url : List ℕ) (id : ℕ) (d : Db)
    → id < 2 ^ 63
    → Answers j (account id d) (kid_signer j accounts_url (account_url accounts_url id) d)
unfolding kid_signer
kid_signer-account_url j accounts_url id d l =
    rw (id_of_kid-account_url accounts_url id l) (found-Answers j (account id d))

-- A text that is no id's URL is answered that there is no account, whatever number it holds.
pub kid_signer-other :
    (j : Jose) (accounts_url name : List ℕ) (d : Db)
    → ((id : ℕ) → name ≢ account_url accounts_url id)
    → kid_signer j accounts_url name d ≡ err ProblemType.account_does_not_exist
unfolding kid_signer
kid_signer-other j accounts_url name d other = elim (Option-cases (id_of_kid accounts_url name)) [
  | inl e ↦ ground arith
  | inr (id, e) ↦ absurd (other id (sym (id_of_kid-some accounts_url name id e)))
]
