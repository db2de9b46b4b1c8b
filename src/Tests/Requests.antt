-- ===== src/Tests/Requests.antt =====
-- The theorems of the nonces and the requests at concrete inputs.
use op_ca.Prelude.{
  ◌==◌, if◌then◌else◌, ℕ, ◌+◌, ◌<◌, ◌≤◌, ◌≡◌, ◌≢◌, refl, true, false, none, some, List, [], ◌∷◌, ok,
  err, is_ok, arith, codes, text_eq_iff,
}
use op_ca.Problem.{ProblemType}
use op_ca.Base64url.{base64url, chunk_symbols, triple, sextet, symbol}
use op_ca.Store.Tables.{Db, Account, empty, Token}
use op_ca.Store.Accounts.{account}
use op_ca.Nonces.{
  Nonces, NonceCall, new_nonces, contains, remove, insert, forget, issue, redeem, nonce_step,
  nonce_run, issues, redeems,
}
use op_ca.Nonces.Bounded.{Bounded, nonce_run-Bounded}
use op_ca.Nonces.Redeeming.{drawn, redemptions, live_count, redemptions-drawn}
use op_ca.Nonces.Keeping.{issued_by_calls, redeem-issue}
use op_ca.Requests.{
  by_jwk, key_signer, JoseError, Jose, KeyRule, account_url, kid_signer, signer_of, checked,
  check_header, check_signer, check_signature, redeemed, verified,
}
use op_ca.Store.Lifecycle.{row_of}
use op_ca.Store.Status.{AccountStatus}
use op_ca.Decimal.{print, digits, parse_unsigned, read_digits}
use op_ca.Requests.{
  by_kid, KeyChange, verify_key_change, id_of_kid, strip_prefix, parse_id, account_as_signer,
  changed_key,
}
use op_ca.Requests.Rollover.{Rollover, verify_key_change-Rollover}
use op_ca.Requests.Kids.{Answers, kid_signer-account_url, kid_signer-other}
use op_ca.Requests.Replay.{Signed, verified-ok, verified-again}
use op_ca.Tests.{issued_db}

-- Three nonces for a capacity of two, and the last redeemed twice.
abbrev calls : List NonceCall
calls =
    issues (some (1 ∷ 2 ∷ []))
    ∷ issues (some (3 ∷ 4 ∷ []))
    ∷ issues none
    ∷ issues (some (5 ∷ 6 ∷ []))
    ∷ redeems (codes "BQY")
    ∷ redeems (codes "BQY")
    ∷ []

calls_leave :
    nonce_run (new_nonces 2) calls
    ≡ record { capacity = 2; live = codes "AwQ" ∷ []; issued = codes "AwQ" ∷ codes "BQY" ∷ [] }
unfolding nonce_run nonce_step issue redeem forget insert remove contains base64url chunk_symbols
    triple sextet symbol
calls_leave = refl

new-Bounded : Bounded (new_nonces 2)
unfolding contains
new-Bounded = record { few = omega arith; among = λ t e. e; once = tt }

nonce_run-Bounded_example : Bounded (nonce_run (new_nonces 2) calls)
nonce_run-Bounded_example = nonce_run-Bounded (new_nonces 2) calls new-Bounded

redemptions-drawn_example :
    redemptions (codes "BQY") (new_nonces 2) calls
      + live_count (codes "BQY") (nonce_run (new_nonces 2) calls)
    ≤ drawn (codes "BQY") calls + live_count (codes "BQY") (new_nonces 2)
redemptions-drawn_example = redemptions-drawn (codes "BQY") (new_nonces 2) calls

-- One more nonce, for the capacity of two, and a redemption of it.
abbrev between : List NonceCall
between = issues (some (7 ∷ [])) ∷ redeems (codes "Bw") ∷ []

fresh : contains (base64url (1 ∷ 2 ∷ [])) (new_nonces 2).issued ≡ false
unfolding contains
fresh = refl

few : issued_by_calls between < 2
unfolding issued_by_calls
few = omega arith

apart : codes "Bw" ≢ base64url (1 ∷ 2 ∷ [])
unfolding base64url chunk_symbols triple sextet symbol
apart e = absurd (ground (arith, text_eq_iff (codes "Bw") (codes "AQI")))

redeem-issue_example :
    (redeem
      (base64url (1 ∷ 2 ∷ []))
      (nonce_run (issue (some (1 ∷ 2 ∷ [])) (new_nonces 2)).1 between)).0
    ≡ true
redeem-issue_example = redeem-issue (1 ∷ 2 ∷ []) (new_nonces 2) between fresh few (tt, (apart, tt))

-- A JWS is its nonce, for one URL, by the key 7, which signs everything.
abbrev jose : Jose
jose = record {
  Jws = List ℕ;
  Jwk = ℕ;
  parse = λ body. ok body;
  header = λ jws. record { url = 9 ∷ []; nonce = some jws; key = by_jwk 7 };
  payload = λ jws. [];
  verify_signature = λ jws key. ok tt;
  key_change = λ jws key. err JoseError.other;
  from_json = λ text. some 7;
}

abbrev nonces : Nonces
nonces = record { capacity = 2; live = (5 ∷ []) ∷ []; issued = (5 ∷ []) ∷ [] }

abbrev used : Nonces
used = record { capacity = 2; live = []; issued = (5 ∷ []) ∷ [] }

verifies :
    verified jose [] (5 ∷ []) (9 ∷ []) KeyRule.jwk issued_db nonces
    ≡ (ok (5 ∷ [], key_signer 7), used)
unfolding verified redeemed checked check_header check_signer check_signature signer_of redeem
    contains remove
verifies = refl

verified-ok_example :
    (nonce : Token) × Signed jose []
      (5 ∷ [])
      (9 ∷ [])
      KeyRule.jwk
      issued_db
      nonce
      (5 ∷ [])
      (key_signer 7)
    × (contains nonce nonces.live ≡ true)
    × ((redeem nonce nonces).1 ≡ used)
verified-ok_example =
    verified-ok jose [] (5 ∷ []) (9 ∷ []) KeyRule.jwk issued_db nonces used (5 ∷ []) (key_signer 7)
      verifies

not_drawn : drawn (5 ∷ []) (redeems (5 ∷ []) ∷ []) ≡ 0
unfolding drawn
not_drawn = refl

verified-again_example :
    is_ok
      (verified jose []
        (5 ∷ [])
        (9 ∷ [])
        KeyRule.either
        issued_db
        (nonce_run used (redeems (5 ∷ []) ∷ []))).0
    ≡ false
verified-again_example =
    verified-again jose [] (5 ∷ []) (9 ∷ []) (9 ∷ []) KeyRule.jwk KeyRule.either issued_db issued_db
      nonces used (5 ∷ []) (key_signer 7) (5 ∷ []) (redeems (5 ∷ []) ∷ []) verifies refl not_drawn

kid_signer-account_url_example :
    Answers jose (account 1 issued_db) (
      kid_signer jose (codes "https://broker/") (account_url (codes "https://broker/") 1) issued_db)
kid_signer-account_url_example =
    kid_signer-account_url jose (codes "https://broker/") 1 issued_db (omega arith)

no_url : (id : ℕ) → [] ≢ account_url (codes "h") id
unfolding account_url
no_url id e = absurd (cc e)

kid_signer-other_example :
    kid_signer jose (codes "h") [] issued_db ≡ err ProblemType.account_does_not_exist
kid_signer-other_example = kid_signer-other jose (codes "h") [] issued_db no_url

abbrev holder : Account
holder = record {
  id = 1;
  jwk = "jwk";
  thumbprint = "thumb";
  status = AccountStatus.valid;
  contacts = [];
  created = 0;
}

-- A JWS is its nonce, by the account 1, whose key is to be 8.
abbrev rolling : Jose
rolling = record {
  Jws = List ℕ;
  Jwk = ℕ;
  parse = λ body. ok body;
  payload = λ jws. [];
  from_json = λ text. some 7;
  header = λ jws. record { url = 9 ∷ []; nonce = some jws; key = by_kid (codes "u/1") };
  verify_signature = λ jws key. if key == 7 then ok tt else err JoseError.other;
  key_change = λ jws key. ok (record { account = codes "u/1"; new_key = 8 });
}

abbrev accounts : Db
accounts = record empty { accounts = holder ∷ [] }

abbrev change : KeyChange ℕ
change = record { account = holder; new_key = 8 }

rolls : verify_key_change rolling (codes "u/") (5 ∷ []) (9 ∷ []) accounts nonces ≡ (ok change, used)
unfolding verify_key_change verified redeemed checked check_header check_signer check_signature
    signer_of kid_signer id_of_kid strip_prefix parse_id account_url account_as_signer changed_key
    account row_of print digits parse_unsigned read_digits redeem contains remove
rolls = refl

verify_key_change-Rollover_example :
    Rollover rolling (codes "u/") (5 ∷ []) (9 ∷ []) accounts nonces used change
verify_key_change-Rollover_example =
    verify_key_change-Rollover rolling (codes "u/") (5 ∷ []) (9 ∷ []) accounts nonces used change
      rolls
