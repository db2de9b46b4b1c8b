-- ===== src/Store/Accounts.antt =====
-- The accounts of acme/store.rs: `create_account` to `set_account_status`.
use op_ca.Prelude.{
  Text, ℕ, String, Bool, true, false, Option, none, some, List, [], ◌∷◌, ◌++◌, map, find, any,
  filter, update_where, ◌==◌, str_eq, if◌then◌else◌,
}
use op_ca.Store.Status.{AccountStatus}
use op_ca.Store.Tables.{
  Account, Db, key_in_use, panicked, Tx, ◌>>=◌, ◌>>◌, pure, fail, read, write, found_or, next_id,
}
use op_ca.Store.Lifecycle.{accounts_table, row_of, transition}

unfoldable pub account_by_thumbprint : String → Db → Option Account
account_by_thumbprint thumbprint d = find (λ a. str_eq a.thumbprint thumbprint) d.accounts

unfoldable pub account : ℕ → Db → Option Account
unfolding row_of
account id d = row_of accounts_table id d

-- `INSERT … ON CONFLICT (thumbprint) DO NOTHING`, and whether it inserted.
unfoldable pub insert_account : String → String → List Text → ℕ → Tx Bool
insert_account jwk thumbprint contacts now d =
    if any (λ a. str_eq a.thumbprint thumbprint) d.accounts
    then pure false d
    else (do write (λ d. record d { accounts = d.accounts ++ row ∷ [] }); pure true) d
  where
    row : Account
    row = record {
      id = next_id (map (λ a. a.id) d.accounts);
      jwk = jwk;
      thumbprint = thumbprint;
      status = AccountStatus.valid;
      contacts = contacts;
      created = now;
    }

unfoldable pub create_account : String → String → List Text → ℕ → Tx (Account × Bool)
create_account jwk thumbprint contacts now = do
  made ← insert_account jwk thumbprint contacts now
  found ← read (account_by_thumbprint thumbprint)
  account ← found_or found panicked
  pure (account, made)

unfoldable pub set_contacts : ℕ → List Text → Tx (Unit {0})
set_contacts id contacts = write λ d. record d {
  accounts = update_where (λ a. a.id == id) (λ a. record a { contacts = contacts }) d.accounts;
}

-- The account other than `id` that holds the thumbprint.
unfoldable pub holder_filter : ℕ → Option Account → Option ℕ
holder_filter id none = none
holder_filter id (some a) = if a.id == id then none else some a.id

unfoldable pub refuse_holder : Option ℕ → Tx (Unit {0})
refuse_holder none = pure tt
refuse_holder (some account) = fail (key_in_use account)

unfoldable pub give_key : ℕ → String → String → Db → Db
give_key id jwk thumbprint d = record d {
  accounts =
      update_where (λ a. a.id == id) (λ a. record a { jwk = jwk; thumbprint = thumbprint })
        d.accounts;
}

unfoldable pub change_key : ℕ → String → String → Tx (Unit {0})
change_key id jwk thumbprint = do
  holder ← read (account_by_thumbprint thumbprint)
  refuse_holder (holder_filter id holder)
  write (give_key id jwk thumbprint)

-- `ORDER BY id`: a table's rows stand in the order of their ids.
unfoldable pub orders_of : ℕ → Db → List ℕ
orders_of account d = map (λ o. o.id) (filter (λ o. o.account == account) d.orders)

unfoldable pub set_account_status : ℕ → AccountStatus → Tx (Unit {0})
set_account_status id to = transition accounts_table id to
