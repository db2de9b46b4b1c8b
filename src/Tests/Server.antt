-- ===== src/Tests/Server.antt =====
-- The theorems of the server at a concrete request: an order that is ready, asked for and finalised.
use op_ca.Prelude.{
  ℕ, ◌≡◌, refl, true, false, none, some, List, [], ◌∷◌, ok, err, codes, ◌==◌, ◌+◌, ◌++◌,
  if◌then◌else◌, Result,
}
use op_ca.Requests.{JoseError, Jose, KeyRule, by_kid}
use op_ca.Hosts.{Hosts}
use op_ca.Issue.{Issuer, Csr, dns, rsa}
use op_ca.Store.Status.{OrderStatus, ChallengeStatus}
use op_ca.Store.Tables.{Db, empty}
use op_ca.Store.Calls.{Call, run}
use op_ca.Store.Kept.{Sorted, run-Sorted}
use op_ca.Server.{arrive, Crates, World, Server, Post, Reply, order_reply, Refusal}
use op_ca.Server.Routes.{Route, handle}
use op_ca.Server.Trace.{Later}
use op_ca.Server.Allowed.{Allowed}
use op_ca.Server.Allowed.Handling.{handle-Allowed}
use op_ca.Server.Resuming.{resume_lem}
use op_ca.Store.Upkeep.{Validation}
use op_ca.Store.Upkeep.Taking.{Taken}
use op_ca.Server.Challenges.{resume}
use op_ca.Server.Ordering.{finalise}
use op_ca.Base64url
use op_ca.Hosts
use op_ca.Issue
use op_ca.Requests
use op_ca.Server
use op_ca.Server.Ordering
use op_ca.Store.Accounts
use op_ca.Store.Certificates
use op_ca.Store.Lifecycle
use op_ca.Store.Moves
use op_ca.Store.Orders
use op_ca.Store.Settle
use op_ca.Store.Tables
use op_ca.Store.Upkeep
use op_ca.Tests.{draws, web_order}

-- A body is its own JWS, by the account 1, with the nonce 5.
abbrev jose : Jose
jose = record {
  Jws = List ℕ;
  Jwk = ℕ;
  parse = λ body. ok body;
  header = λ jws. record { url = codes "u"; nonce = some (5 ∷ []); key = by_kid (codes "a/1") };
  payload = λ jws. jws;
  verify_signature = λ jws key. ok tt;
  key_change = λ jws key. err JoseError.other;
  from_json = λ text. some 7;
}

abbrev crates : Crates
crates = record {
  jose = jose;
  hosts = record { is_ip = λ t. false; is_hostname = λ t. true; to_ascii = λ t. some t };
  thumbprint = λ key. "thumb";
  to_canonical_json = λ key. "jwk";
  subject_public_key_info = λ key. key ∷ [];
  parse_account = λ body. none;
  parse_order = λ body. none;
  parse_finalise = λ body. some [];
  parse_deactivation = λ body. none;
  parse_object = λ body. some tt;
  parse_revocation = λ body. none;
  parse_stamp = λ text. none;
  read_csr = λ der. some (record {
    spki = 9 ∷ [];
    key = rsa (some 2048);
    names = dns (codes "a.example.com") ∷ [];
    common_name = none;
  });
  inspect = λ der. none;
  first_certificate = λ pem. none;
}

-- At the second moment another task makes an account.
abbrev world : World
world = record {
  clock = λ n. 10 + n;
  others = λ n. if n == 1 then Call.creates_account "other" "key" [] 11 ∷ [] else [];
  draws = draws;
  signed = some ("77", "chain");
}

abbrev made : List Call
made =
    Call.creates_account "jwk" "thumb" [] 1
    ∷ Call.creates_order draws 2 web_order
    ∷ Call.sets_challenge 1 ChallengeStatus.processing none 3
    ∷ Call.sets_challenge 1 ChallengeStatus.valid none 4
    ∷ Call.sets_challenge 2 ChallengeStatus.processing none 5
    ∷ []

abbrev server : Server
server = record {
  store = run empty made;
  nonces = record { capacity = 2; live = (5 ∷ []) ∷ []; issued = (5 ∷ []) ∷ [] };
  lifetime = 86400;
  issuer = some (record {
    subordinate_serial = "9";
    subordinate_not_after = 10000000;
    config = record {
      permitted_domains = codes "example.com" ∷ [];
      leaf_days = 90;
      leaf_max_days = 100;
      challenges = [];
    };
  });
  paused = false;
  resumed = false;
  background = [];
  resign = false;
  moment = 0;
}

abbrev post : List ℕ → Post
post body = record { base = []; url = codes "u"; accounts = codes "a/"; body = body }

sorted : Sorted server.store
sorted =
    run-Sorted empty made
      (record { accounts = tt; orders = tt; authorisations = tt; challenges = tt })

handle-Allowed_example :
    Later world
      (Allowed crates world (post (1 ∷ [])) server)
      server
      (handle crates world (Route.finalise 1) (post (1 ∷ [])) server).1
handle-Allowed_example =
    handle-Allowed crates world (Route.finalise 1) (post (1 ∷ [])) server sorted

resume_lem_example :
    (started : List Validation) × Taken
      (arrive world server).store
      (arrive world server).store.challenges
      started
    × (resume world server ≡ (
      ok tt,
      record (arrive world server) { resumed = true; background = server.background ++ started },
    ))
    × (resume world (resume world server).1 ≡ (ok tt, (resume world server).1))
resume_lem_example = resume_lem world world server refl

abbrev finalised : Result Refusal Reply × Server
finalised = handle crates world (Route.finalise 1) (post (1 ∷ [])) server

abbrev answer : Reply
answer = order_reply 200 (some (codes "/acme/order/1")) false (record {
  row = record {
    id = 1;
    account = 1;
    status = OrderStatus.valid;
    identifiers = codes "a.example.com" ∷ [];
    not_before = none;
    not_after = none;
    expires = 100;
    error = none;
    certificate = some 1;
    created = 2;
  };
  authorisations = 1 ∷ [];
})
