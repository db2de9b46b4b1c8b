-- ===== src/Server/Accounts.antt =====
-- The handlers on accounts of crates/opca-acme-broker/src/acme/server.rs: `new_account`, `account`,
-- `orders` and `key_change`.
use op_ca.Prelude.{
  Text, ℕ, Bool, false, not, ◌&&◌, ◌||◌, Option, none, some, List, [], ◌∷◌, map, Result, ok, err,
  bind, any, text_eq, codes, ◌==◌, if◌then◌else◌,
}
use op_ca.Problem.{ProblemType}
use op_ca.Requests
use op_ca.Requests.{KeyRule, KeyChange, signer_key, strip_prefix}
use op_ca.Store.Status.{AccountStatus}
use op_ca.Store.Tables.{Account, Error}
use op_ca.Store.Accounts
use op_ca.Server.{
  Act, ◌>>=◌, ◌>>◌, pure, tell, look, transact, arrive, or_problem, or_stored, or_refuse, found,
  Refusal, refusal, stored, AccountRequest, Crates, World, Post, Reply, account_reply, orders_reply,
  account_url, url_of, owned_by, as_get, verify, by_account,
}

-- `split_once('@')`
unfoldable pub split_at_sign : Text → Option (Text × Text)
split_at_sign [] = none
split_at_sign (c ∷ text) =
    let rest : Option (Text × Text) = elim (split_at_sign text) [
      | none ↦ none
      | some (user, host) ↦ some (c ∷ user, host)
    ] in
    if c == b'@' then some ([], text) else rest

abbrev both_there : Option (Text × Text) → Bool
both_there none = false
both_there (some (user, host)) = not (text_eq user []) && not (text_eq host [])

unfoldable pub is_address : Text → Bool
is_address address =
    both_there (split_at_sign address)
    && not (any (λ c. c == b',' || (c == b'?' || c == b' ')) address)

abbrev check_address : Option Text → Result ProblemType (Unit {0})
check_address none = err ProblemType.unsupported_contact
check_address (some address) = if is_address address then ok tt else err ProblemType.invalid_contact

unfoldable pub check_contacts : List Text → Result ProblemType (Unit {0})
check_contacts [] = ok tt
check_contacts (contact ∷ rest) =
    bind (check_address (strip_prefix (codes "mailto:") contact)) (λ u. check_contacts rest)

-- The contacts, if each is one `mailto:` address.
unfoldable pub contacts : List Text → Result Refusal (List Text)
contacts texts = or_problem (bind (check_contacts texts) (λ u. ok texts))

abbrev or_empty : Option (List Text) → List Text
or_empty none = []
or_empty (some texts) = texts

abbrev pub check_valid : AccountStatus → Result Refusal (Unit {0})
check_valid AccountStatus.valid = ok tt
check_valid _ = err (refusal ProblemType.unauthorized)

-- `Some("valid") | None` or `Some("deactivated")`; anything else is refused.
pub data Change : Type 0 where
  no_change deactivates unknown_change : Change

abbrev pub change_of : Option Text → Change
change_of none = no_change
change_of (some text) =
    if text_eq text (codes "valid")
    then no_change
    else if text_eq text (codes "deactivated")
    then deactivates
    else unknown_change

module _ (c : Crates) (w : World) where
  open c use {jose, Jwk}

  unfoldable pub make_account : Jwk → AccountRequest → Act (Account × Bool)
  make_account key request = do
    texts ← tell (contacts (or_empty request.contact))
    made ← transact w (Accounts.create_account (c.to_canonical_json key) (c.thumbprint key) texts)
    tell (or_stored made)

  unfoldable pub existing_or_made : Jwk → AccountRequest → Option Account → Act (Account × Bool)
  existing_or_made key request (some account) = pure (account, false)
  existing_or_made key request none =
      if request.only_return_existing
      then tell (err (refusal ProblemType.account_does_not_exist))
      else make_account key request

  unfoldable pub new_account : Post → Act Reply
  new_account post = do
    verified ← verify c w post KeyRule.jwk
    request ← tell (or_refuse (c.parse_account verified.payload) ProblemType.malformed)
    let key = signer_key verified.signer
    existing ← look w (Accounts.account_by_thumbprint (c.thumbprint key))
    got ← existing_or_made key request existing
    valid ← tell (check_valid got.0.status)
    pure (account_reply (if got.1 then 201 else 200) (some (account_url post got.0.id)) got.0)

  unfoldable pub change_contacts : ℕ → Option (List Text) → Act (Unit {0})
  change_contacts id none = pure tt
  change_contacts id (some texts) = do
    checked ← tell (contacts texts)
    done ← transact w (λ at. Accounts.set_contacts id checked)
    tell (or_stored done)

  unfoldable pub change_account : ℕ → Change → Act (Unit {0})
  change_account id no_change = pure tt
  change_account id deactivates = do
    done ← transact w (λ at. Accounts.set_account_status id AccountStatus.deactivated)
    tell (or_stored done)
  change_account id unknown_change = tell (err (refusal ProblemType.malformed))

  unfoldable pub update_account : ℕ → List ℕ → Act (Unit {0})
  update_account id [] = pure tt
  update_account id (byte ∷ payload) = do
    request ← tell (or_refuse (c.parse_account (byte ∷ payload)) ProblemType.malformed)
    change_contacts id request.contact
    change_account id (change_of request.status)

  unfoldable pub account : ℕ → Post → Act Reply
  account id post = do
    signed ← by_account c w post
    owner ← tell (owned_by signed.0 id)
    update_account id signed.2
    row ← look w (Accounts.account id)
    account ← tell (found row)
    pure (account_reply 200 none account)

  unfoldable pub orders : ℕ → Post → Act Reply
  orders id post = do
    signed ← by_account c w post
    empty ← tell (as_get signed.2)
    owner ← tell (owned_by signed.0 id)
    ids ← look w (Accounts.orders_of id)
    pure (orders_reply (map (url_of post "order") ids))

  -- `verify_key_change`, at the moment at which the account is looked for and the nonce redeemed.
  unfoldable pub verify_change : Post → Act (KeyChange Jwk)
  verify_change post s =
      let t = arrive w s in
      let r = Requests.verify_key_change jose post.accounts post.body post.url t.store t.nonces in
      (or_problem r.0, record t { nonces = r.1 })

  -- Another account that holds the key is named, with a status of its own.
  unfoldable pub or_conflict : Post → Result Error (Unit {0}) → Result Refusal (Unit {0})
  or_conflict post (ok u) = ok u
  or_conflict post (err (Error.key_in_use account)) = err (record {
    problem = ProblemType.malformed;
    status = 409;
    location = some (account_url post account);
  })
  or_conflict post (err e) = err (stored e)

  unfoldable pub key_change : Post → Act Reply
  key_change post = do
    change ← verify_change post
    let id = change.account.id
    let key = change.new_key
    done ← transact w (λ at. Accounts.change_key id (c.to_canonical_json key) (c.thumbprint key))
    changed ← tell (or_conflict post done)
    row ← look w (Accounts.account id)
    account ← tell (found row)
    pure (account_reply 200 none account)
