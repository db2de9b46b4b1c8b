-- ===== src/Server/Allowed/Holders.antt =====
-- The handlers on accounts do only what the signer may have done, and show only the signer's account.
use op_ca.Prelude.{
  Text, ℕ, ◌≡◌, refl, sym, ap, ◌∙◌, Bool, false, Option, none, some, String, List, [], ◌∷◌, Result,
  ok, err, arith, ◌==◌, str_eq, eq_iff, subst, map, if◌then◌else◌,
}
use op_ca.Requests.{KeyRule, Signer, account_signer, key_signer, signer_key}
use op_ca.Store.Status.{AccountStatus}
use op_ca.Store.Tables.{Account, Db, Error, found_or, after}
use op_ca.Store.Tables
use op_ca.Store.Lifecycle.{accounts_table, row_of}
use op_ca.Store.Accounts
use op_ca.Store.Calls.{creates_account, sets_contacts, changes_key, sets_account, step}
use op_ca.Server.{
  ◌>>=◌, pure, Crates, World, Server, Post, account_reply, account_url, url_of, or_stored, found,
  arrive, tell, look, returned, AccountRequest,
}
use op_ca.Server.Accounts.{
  check_valid, make_account, existing_or_made, new_account, change_contacts, change_account, Change,
  no_change, deactivates, unknown_change, change_of, update_account, account, orders, key_change,
}
use op_ca.Server.Trace.{
  Does, Does-bind, Does-tell, Does-pure, Does-if, tell-then, look-then, transact-then,
}
use op_ca.Server.Allowed.{Authentic, AuthenticAs, Allowed, Shown}
use op_ca.Server.Allowed.Signing.{verify-Does, jwk_signer, by_account-Does, verify_change-Does}
use op_ca.Server.Allowed.Reading.{find-passes, found-ok, owned_by-ok}

account_id : (id : ℕ) (d : Db) (a : Account) → Accounts.account id d ≡ some a → a.id ≡ id
unfolding Accounts.account row_of
account_id id d a e =
    let hit = find-passes (λ (r : Account). r.id == id) d.accounts a e in ground arith

account_there :
    (id : ℕ) (d : Db) (a : Account)
    → Accounts.account id d ≡ some a
    → row_of accounts_table a.id d ≡ some a
account_there id d a e =
    subst (λ i. row_of accounts_table i d ≡ some a) (sym (account_id id d a e))
      (unfold Accounts.account in e)

account_thumbprint :
    (thumbprint : String) (d : Db) (a : Account)
    → Accounts.account_by_thumbprint thumbprint d ≡ some a
    → a.thumbprint ≡ thumbprint
unfolding Accounts.account_by_thumbprint
account_thumbprint thumbprint d a e =
    (eq_iff a.thumbprint thumbprint).0
      (find-passes (λ (r : Account). str_eq r.thumbprint thumbprint) d.accounts a e)

check_valid-ok :
    (status : AccountStatus) (u : Unit {0})
    → check_valid status ≡ ok u
    → status ≡ AccountStatus.valid
check_valid-ok AccountStatus.valid u h = refl
check_valid-ok _ u h = absurd (cc h)

-- What `create_account` answers with is in the table it leaves.
module _ (jwk thumbprint : String) (texts : List Text) (now : ℕ) (d : Db) where
  abbrev AnswersRead : Result Error ((Account × Bool) × Db) → Type 0
  AnswersRead r =
      (a : Account × Bool)
      → or_stored (returned r) ≡ ok a
      → Accounts.account_by_thumbprint thumbprint (after d r) ≡ some a.0

  create_account-AnswersRead : AnswersRead (Accounts.create_account jwk thumbprint texts now d)
  unfolding Accounts.create_account
  create_account-AnswersRead = inserted (Accounts.insert_account jwk thumbprint texts now d)
    where
      read_back :
          (made : Bool) (e : Db) (found : Option Account)
          → Accounts.account_by_thumbprint thumbprint e ≡ found
          → AnswersRead
              (Tables.continue (found_or found Error.panicked e) (λ a. Tables.pure (a, made)))
      read_back made e none f a h = absurd (cc h)
      read_back made e (some x) f a h =
          let same : (x, made) ≡ a = ground arith in f ∙ ap (λ p. some p.0) same

      inserted :
          (r : Result Error (Bool × Db))
          → AnswersRead (
              Tables.continue r (λ made e.
                Tables.continue
                  (found_or (Accounts.account_by_thumbprint thumbprint e) Error.panicked e)
                  (λ a. Tables.pure (a, made))))
      inserted (ok (made, e)) a h = read_back made e _ refl a h
      inserted (err e) a h = absurd (cc h)

module _ (c : Crates) (w : World) (post : Post) (s : Server) where
  open c use {jose, Jwk}

  -- A key by itself.
  module _ (jws : jose.Jws) (key : Jwk) (signed : Authentic c w post s jws (key_signer key)) where
    make_account-Does :
        (request : AccountRequest) (t : Server)
        → Does w
            (Allowed c w post s)
            (λ a u. Accounts.account_by_thumbprint (c.thumbprint key) u.store ≡ some a.0)
            (make_account c w key request)
            t
    unfolding make_account step
    make_account-Does request t = tell-then _ _ t λ texts checked.
        transact-then _ (creates_account (c.to_canonical_json key) (c.thumbprint key) texts) _ t
          (λ at d. refl) (jws, key_signer key, signed, (refl, refl))
          λ l. Does-tell _ _ λ a made.
            create_account-AnswersRead (c.to_canonical_json key) (c.thumbprint key) texts
              (w.clock t.moment) (arrive w t).store a made

    existing_or_made-Does :
        (request : AccountRequest) (existing : Option Account) (t : Server)
        → ((a : Account)
            → existing ≡ some a
            → Accounts.account_by_thumbprint (c.thumbprint key) t.store ≡ some a)
        → Does w
            (Allowed c w post s)
            (λ a u. Accounts.account_by_thumbprint (c.thumbprint key) u.store ≡ some a.0)
            (existing_or_made c w key request existing)
            t
    unfolding existing_or_made
    existing_or_made-Does request (some a) t h = Does-pure (a, false) t (h a refl)
    existing_or_made-Does request none t h =
        Does-if request.only_return_existing _ _ t (λ e. Does-tell _ t λ a h. absurd (cc h))
          (λ e. make_account-Does request t)

  -- An account that signed by its `kid`.
  module _ (jws : jose.Jws) (a : Account) (key : Jwk)
      (signed : Authentic c w post s jws (account_signer a key)) where
    change_contacts-Does :
        (asked : Option (List Text)) (t : Server)
        → Does w (Allowed c w post s) (λ u v. Unit) (change_contacts c w a.id asked) t
    unfolding change_contacts step
    change_contacts-Does none t = Does-pure tt t tt
    change_contacts-Does (some texts) t = tell-then _ _ t λ checked h.
        transact-then _ (λ at. sets_contacts a.id checked) _ t (λ at d. refl)
          (jws, account_signer a key, signed, refl) λ l. Does-tell _ _ λ u e. tt

    change_account-Does :
        (to : Change) (t : Server)
        → Does w (Allowed c w post s) (λ u v. Unit) (change_account c w a.id to) t
    unfolding change_account step
    change_account-Does no_change t = Does-pure tt t tt
    change_account-Does deactivates t =
        transact-then _ (λ at. sets_account a.id AccountStatus.deactivated) _ t (λ at d. refl)
          (jws, account_signer a key, signed, (refl, refl)) λ l. Does-tell _ _ λ u e. tt
    change_account-Does unknown_change t = Does-tell _ t λ u e. tt

    update_account-Does :
        (payload : List ℕ) (t : Server)
        → Does w (Allowed c w post s) (λ u v. Unit) (update_account c w a.id payload) t
    unfolding update_account
    update_account-Does [] t = Does-pure tt t tt
    update_account-Does (byte ∷ payload) t = tell-then _ _ t λ request h.
        Does-bind _ _ t (change_contacts-Does request.contact t)
          λ u v l q. change_account-Does (change_of request.status) v

    account-Shown :
        (id : ℕ) (t : Server)
        → a.id ≡ id
        → Does w
            (Allowed c w post s)
            (Shown c w post s)
            (look w (Accounts.account id) >>= λ row.
              tell (found row) >>= λ account. pure (account_reply 200 none account))
            t
    account-Shown id t same = look-then _ _ t λ l. tell-then _ _ _ λ shown h. Does-pure _ _ (
      jws,
      account_signer a key,
      signed,
      (
        account_id id (arrive w t).store shown (found-ok _ shown h) ∙ sym same,
        account_there id (arrive w t).store shown (found-ok _ shown h),
      ),
    )

  pub new_account-Does : Does w (Allowed c w post s) (Shown c w post s) (new_account c w post) s
  unfolding new_account
  new_account-Does =
      Does-bind _ _ s (verify-Does c w (Allowed c w post s) post s KeyRule.jwk) λ v t l signed.
        tell-then _ _ t λ request h. with_signer request v.signer signed.0 t signed.1
    where
      with_signer :
          (request : AccountRequest) (signer : Signer Jwk) (jws : jose.Jws) (t : Server)
          → AuthenticAs c w post s KeyRule.jwk jws signer
          → Does w
              (Allowed c w post s)
              (Shown c w post s)
              (look w (Accounts.account_by_thumbprint (c.thumbprint (signer_key signer)))
                >>= λ existing. existing_or_made c w (signer_key signer) request existing >>= λ got.
                    tell (check_valid got.0.status) >>= λ valid. pure (
                      account_reply
                        (if got.1 then 201 else 200)
                        (some (account_url post got.0.id))
                        got.0))
              t
      with_signer request (key_signer key) jws t signed = look-then _ _ t λ l.
          Does-bind _ _ _
            (existing_or_made-Does jws key (KeyRule.jwk, signed) request _ (arrive w t)
              (λ a found. found))
            λ got u l' found. tell-then _ _ u λ valid h. Does-pure _ u (
              jws,
              key_signer key,
              (KeyRule.jwk, signed),
              (
                account_thumbprint (c.thumbprint key) u.store got.0 found,
                unfold Accounts.account_by_thumbprint in found,
                check_valid-ok got.0.status valid h,
              ),
            )
      with_signer request (account_signer account key) jws t signed =
          absurd (jwk_signer c w (Allowed c w post s) post s jws account key signed)

  pub account-Does :
      (id : ℕ) → Does w (Allowed c w post s) (Shown c w post s) (account c w id post) s
  unfolding account
  account-Does id =
      Does-bind _ _ s (by_account-Does c w (Allowed c w post s) post s) λ signed t l (jws, auth).
        tell-then _ _ t λ u owner.
          let same = owned_by-ok signed.0 id u owner in
          Does-bind {Q = λ u v. Unit {0}} _ _ t
            (rw (← same) (update_account-Does jws signed.0 signed.1 auth signed.2 t))
            λ u' t' l' q. account-Shown jws signed.0 signed.1 auth id t' same

  pub orders-Does : (id : ℕ) → Does w (Allowed c w post s) (Shown c w post s) (orders c w id post) s
  unfolding orders
  orders-Does id =
      Does-bind _ _ s (by_account-Does c w (Allowed c w post s) post s) λ signed t l (jws, auth).
        tell-then _ _ t λ e empty. tell-then _ _ t λ u owner. look-then _ _ t λ l'. Does-pure _ _ (
          jws,
          account_signer signed.0 signed.1,
          auth,
          ap (λ i. map (url_of post "order") (Accounts.orders_of i (arrive w t).store))
              (sym (owned_by-ok signed.0 id u owner)),
        )

  pub key_change-Does : Does w (Allowed c w post s) (Shown c w post s) (key_change c w post) s
  unfolding key_change step
  key_change-Does =
      Does-bind _ _ s (verify_change-Does c w (Allowed c w post s) post s)
        λ change t l (jws, key, auth, inner, reads, same).
          let a = change.account in
          transact-then _
            (λ at.
              changes_key a.id (c.to_canonical_json change.new_key) (c.thumbprint change.new_key))
            _ t (λ at d. refl)
            (
              jws,
              account_signer a key,
              auth,
              (refl, inner, reads, ap c.to_canonical_json same, ap c.thumbprint same),
            )
            λ l'. tell-then _ _ _ λ u done. account-Shown jws a key auth a.id _ refl
