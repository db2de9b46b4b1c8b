-- ===== src/Server.antt =====
-- crates/opca-acme-broker/src/acme/server.rs: the ACME API over the store. This module holds what its
-- handlers share: the server's state, what a handler may do, refusals and answers. Between any two of
-- a request's looks at the clock or the database other tasks may call the store.
pub mod Extract
pub mod Accounts
pub mod Ordering
pub mod Challenges
pub mod Certificates
pub mod Routes
pub mod Trace
pub mod Owned
pub mod Allowed
pub mod Resuming
use op_ca.Prelude.{
  Text, ℕ, ◌+◌, suc, Bool, true, false, Option, none, some, String, List, [], ◌∷◌, ◌++◌, Result, ok,
  err, ◌==◌, text_eq, codes, if◌then◌else◌,
}
use op_ca.Problem.{ProblemType}
use op_ca.Nonces.{Nonces}
use op_ca.Decimal.{print}
use op_ca.Requests
use op_ca.Requests.{Jose, KeyRule, Signer, account_signer, key_signer, Verified}
use op_ca.Hosts.{Hosts}
use op_ca.Issue.{Csr, Issuer}
use op_ca.Store.Tables.{Account, Challenge, Db, Error, Tx, after}
use op_ca.Store.Orders
use op_ca.Store.Upkeep
use op_ca.Store.Orders.{Draws, Order, Authorisation}
use op_ca.Store.Upkeep.{Validation}
use op_ca.Store.Calls.{Call, run}

-- `AccountRequest`, `OrderRequest` with its `Identifier`s, and `RevocationRequest`, as serde reads
-- them. What is text stays text.
pub record AccountRequest : Type 0 where
  pub contact : Option (List Text)
  pub only_return_existing : Bool
  pub status : Option Text

pub record Identifier : Type 0 where
  pub kind : Text
  pub value : Text

pub record OrderRequest : Type 0 where
  pub identifiers : List Identifier
  pub not_before : Option Text
  pub not_after : Option Text

pub record RevocationRequest : Type 0 where
  pub certificate : Text
  pub reason : Option ℕ

-- What `inspect` reads of a certificate, its serial already in decimal.
pub record Leaf : Type 0 where
  pub serial : String
  pub spki : Text

-- The crates that the handlers call: serde's readers of a payload, keys, X.509 and times.
pub record Crates : Type 1 where
  pub jose : Jose
  pub open jose use {Jwk}
  pub hosts : Hosts
  pub thumbprint : Jwk → String
  pub to_canonical_json : Jwk → String
  pub subject_public_key_info : Jwk → Text
  pub parse_account : List ℕ → Option AccountRequest
  pub parse_order : List ℕ → Option OrderRequest
  pub parse_finalise : List ℕ → Option Text
  pub parse_deactivation : List ℕ → Option Text
  pub parse_object : List ℕ → Option (Unit {0})
  pub parse_revocation : List ℕ → Option RevocationRequest
  pub parse_stamp : Text → Option ℕ
  pub read_csr : List ℕ → Option Csr
  pub inspect : List ℕ → Option Leaf
  pub first_certificate : String → Option (List ℕ)

-- What befalls one request: the time at each of its moments, the calls that other tasks make before
-- each, the provider's draws, and what signing makes.
pub record World : Type 0 where
  pub clock : ℕ → ℕ
  pub others : ℕ → List Call
  pub draws : Draws
  pub signed : Option (String × String)

-- `Server`. `moment` counts the moments so far, `background` holds the validations that were started,
-- and `resign` is whether the publisher was told.
pub record Server : Type 0 where
  pub store : Db
  pub nonces : Nonces
  pub lifetime : ℕ
  pub issuer : Option Issuer
  pub paused : Bool
  pub resumed : Bool
  pub background : List Validation
  pub resign : Bool
  pub moment : ℕ

-- `Refusal`, of a problem by its type, and an HTTP status by its number.
pub record Refusal : Type 0 where
  pub problem : ProblemType
  pub status : ℕ
  pub location : Option Text

-- `From<Problem>`
unfoldable pub status_of : ProblemType → ℕ
status_of ProblemType.unauthorized = 403
status_of ProblemType.order_not_ready = 403
status_of ProblemType.user_action_required = 403
status_of ProblemType.caa = 403
status_of ProblemType.external_account_required = 403
status_of ProblemType.rate_limited = 429
status_of ProblemType.server_internal = 500
status_of _ = 400

unfoldable pub refusal : ProblemType → Refusal
refusal problem = record { problem = problem; status = status_of problem; location = none }

unfoldable pub not_found : Refusal
not_found = record { problem = ProblemType.malformed; status = 404; location = none }

-- `stored`
unfoldable pub stored : Error → Refusal
stored (Error.not_found table key) = not_found
stored (Error.transition table from to) = refusal ProblemType.malformed
stored (Error.already_revoked serial) = refusal ProblemType.already_revoked
stored _ = refusal ProblemType.server_internal

-- What a handler answers with, before its JSON is written: the status, the `Location`, whether
-- `Retry-After` is set, and the row that is shown.
pub data Reply : Type 0 where
  account_reply : ℕ → Option Text → Account → Reply
  orders_reply : List Text → Reply
  order_reply : ℕ → Option Text → Bool → Order → Reply
  authorisation_reply : Bool → Authorisation → Reply
  challenge_reply : Text → Bool → Challenge → Reply
  certificate_reply : String → Reply
  revoked_reply : Reply

-- A step of a handler. What it changed stays changed when it refuses.
abbrev pub Act : Type 0 → Type 0
Act A = Server → Result Refusal A × Server

abbrev pub continue :
    {A B : Type 0} → Result Refusal A × Server → (A → Act B) → Result Refusal B × Server
continue (ok a, s) f = f a s
continue (err e, s) f = (err e, s)

infixl 5 ◌>>=◌ ◌>>◌
unfoldable pub ◌>>=◌ : {A B : Type 0} → Act A → (A → Act B) → Act B
◌>>=◌ m f s = continue (m s) f

abbrev pub ◌>>◌ : {A B : Type 0} → Act A → Act B → Act B
m >> n = m >>= λ _. n

unfoldable pub pure : {A : Type 0} → A → Act A
pure a s = (ok a, s)

-- `?` on a result that needs no state.
unfoldable pub tell : {A : Type 0} → Result Refusal A → Act A
tell r s = (r, s)

abbrev pub or_problem : {A : Type 0} → Result ProblemType A → Result Refusal A
or_problem (ok a) = ok a
or_problem (err problem) = err (refusal problem)

abbrev pub or_stored : {A : Type 0} → Result Error A → Result Refusal A
or_stored (ok a) = ok a
or_stored (err e) = err (stored e)

-- `found`
abbrev pub found : {A : Type 0} → Option A → Result Refusal A
found none = err not_found
found (some a) = ok a

abbrev pub or_refuse : {A : Type 0} → Option A → ProblemType → Result Refusal A
or_refuse none problem = err (refusal problem)
or_refuse (some a) problem = ok a

unfoldable pub modify : (Server → Server) → Act (Unit {0})
modify f s = (ok tt, f s)

-- The value of a transaction, without the database.
abbrev pub returned : {A : Type 0} → Result Error (A × Db) → Result Error A
returned (ok (a, d)) = ok a
returned (err e) = err e

module _ (w : World) where
  -- The next moment: the others have made their calls.
  unfoldable pub arrive : Server → Server
  arrive s = record s { store = run s.store (w.others s.moment); moment = suc s.moment }

  -- `SystemTime::now()`
  unfoldable pub now : Act ℕ
  now s = (ok (w.clock s.moment), arrive s)

  -- A query.
  unfoldable pub look : {A : Type 0} → (Db → A) → Act A
  look f s = let t = arrive s in (ok (f t.store), t)

  -- A transaction of the store, which reads the time.
  unfoldable pub transact : {A : Type 0} → (ℕ → Tx A) → Act (Result Error A)
  transact m s =
      let t = arrive s in
      let r = m (w.clock s.moment) t.store in
      (ok (returned r), record t { store = after t.store r })

-- `owned_by`
unfoldable pub owned_by : Account → ℕ → Result Refusal (Unit {0})
owned_by account owner =
    if account.id == owner then ok tt else err (refusal ProblemType.unauthorized)

-- `as_get`
unfoldable pub as_get : List ℕ → Result Refusal (Unit {0})
as_get [] = ok tt
as_get (c ∷ payload) = err (refusal ProblemType.malformed)

-- `issuing`
unfoldable pub issuing : Act Issuer
issuing s = (
  if s.paused
      then err (record { problem = ProblemType.server_internal; status = 503; location = none })
      else or_refuse s.issuer ProblemType.server_internal,
  s,
)

unfoldable pub set_issuer : Issuer → Server → Server
set_issuer issuer s = record s { issuer = some issuer }

unfoldable pub set_paused : Bool → Server → Server
set_paused paused s = record s { paused = paused }

-- `Post`
pub record Post : Type 0 where
  pub base : Text
  pub url : Text
  pub accounts : Text
  pub body : List ℕ

abbrev pub account_url : Post → ℕ → Text
account_url post id = post.accounts ++ print id

-- `url_of`
abbrev pub url_of : Post → String → ℕ → Text
url_of post kind id = post.base ++ codes "/acme/" ++ codes kind ++ codes "/" ++ print id

module _ (c : Crates) (w : World) where
  open c use {jose, Jwk}

  -- `Post::verify`, at the moment at which the account is looked for and the nonce redeemed.
  unfoldable pub verify : Post → KeyRule → Act (Verified Jwk)
  verify post rule s =
      let t = arrive w s in
      let r = Requests.verify jose post.accounts post.body post.url rule t.store t.nonces in
      (or_problem r.0, record t { nonces = r.1 })

  -- The code has no branch for a key that signs by itself.
  unfoldable pub account_of : Signer Jwk → List ℕ → Result Refusal (Account × Jwk × List ℕ)
  account_of (account_signer account key) payload = ok (account, key, payload)
  account_of (key_signer key) payload = err (refusal ProblemType.server_internal)

  -- The account that signed this by `kid`, its key, and the payload.
  unfoldable pub by_account : Post → Act (Account × Jwk × List ℕ)
  by_account post = do
    verified ← verify post KeyRule.kid
    tell (account_of verified.signer verified.payload)

  -- `Server::expire_stale`
  unfoldable pub expire_stale : Act (Unit {0})
  expire_stale = do
    at ← now w
    done ← transact w (λ later. Upkeep.expire_stale at)
    expired ← tell (or_stored done)
    pure tt

  unfoldable pub owned_order : ℕ → Account → Act Order
  owned_order id account = do
    row ← look w (Orders.order id)
    order ← tell (found row)
    owner ← tell (owned_by account order.row.account)
    pure order

  -- The order `id`, once stale orders have expired, if `account` placed it.
  unfoldable pub order_of : ℕ → Account → Act Order
  order_of id account = do expire_stale; owned_order id account

  unfoldable pub authorisation_of : ℕ → Account → Act Authorisation
  authorisation_of id account = do
    expire_stale
    row ← look w (Orders.authorisation id)
    authorisation ← tell (found row)
    order ← owned_order authorisation.row.order account
    pure authorisation
