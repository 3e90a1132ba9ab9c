-- ===== src/Examples/SubjectAuth.antt =====
-- The login of the subject of the example request, and a cache.
use consent_manager.Base.{◌≡◌, refl, none, some, List, [], ◌∷◌, String, ok, err, or_empty, arith, ℕ}
use consent_manager.Models.Status.{SubjectAuthStatus}
use consent_manager.Models.Rows.{SubjectAuthSession, AuthContext}
use consent_manager.Models.Table
use consent_manager.Models.Database.{Database, get_request}
use consent_manager.Lifecycle.Authenticate.{Methods, TokenLibrary, authenticate}
use consent_manager.Lifecycle.Approve.{approve, deny}
use consent_manager.Lifecycle.Closed.{refusal_of, calls_shut}
use consent_manager.SubjectAuth.Sessions.{
  session_key, claim, claimed_id, claim_rows, finish, finish_row, failed, new_session,
}
use consent_manager.SubjectAuth.Provider.{
  Provider, Redirect, Userinfo, tokens, authenticate_subject, authenticate_row, stored_request,
  verified_token, userinfo_of, same_subject, recorded_method, prefix_of,
}
use consent_manager.SubjectAuth.Provider as Login
use consent_manager.SubjectAuth.Complete.{complete, finish_claimed}
use consent_manager.SubjectAuth.Once.{Step, claims, finishes, starts, steps, claim_once}
use consent_manager.SubjectAuth.Sound.{IsLoginOf, complete-IsLogin}
use consent_manager.Caches.Ttl.{get}
use consent_manager.Caches.Refines.{Call, gets, sets, invalidates, run, lasting, get-lasting}
use consent_manager.Examples.Data.{config, fresh, signer}
use consent_manager.Examples.Lifecycle.{systems, approval, approved_db, created_db}

abbrev provider : Provider
provider = record {
  ready = ok tt;
  exchange = λ code verifier. tokens (some "idt") none;
  verify = λ token. ok (record {
    iss = some "esignet";
    sub = some "s";
    nonce = some "n";
    subject = some "4 2";
    amr = Methods.absent;
    acr = none;
    auth_time = none;
  });
  userinfo = λ access. Userinfo.no_endpoint;
  hash_token = λ token. token;
  context_id = "x9";
  created_at = 1600;
}

abbrev login : SubjectAuthSession
login =
    new_session config 1500
      (record { id = "s1"; created_at = 1500; state = "st"; nonce = "n"; code_verifier = "v" }) "q1"
      "officer"

abbrev login_db : Database
login_db = record created_db { auth_sessions = login ∷ [] }

abbrev redirect : Redirect
redirect = record { code = some "c"; error = none; error_description = none }

abbrev done : SubjectAuthSession
done = record login {
  auth_context_id = some "x9";
  status = SubjectAuthStatus.success;
  completed_at = some 1600;
}

completing :
    (complete config provider (λ d. d) 1600 redirect (some "st") login_db).0 ≡ ok (some done)
unfolding complete finish_claimed claim claimed_id claim_rows finish finish_row Table.get
    Login.authenticate authenticate_row stored_request authenticate_subject verified_token
    userinfo_of same_subject
completing = refl

complete-IsLogin_example :
    (session_id : String) × (ctx : AuthContext) × ((claim (or_empty (some "st")) 1600 login_db).0
      ≡ some session_id)
    × (done.auth_context_id ≡ some ctx.id)
    × IsLoginOf config provider 1600 redirect
        (Table.get session_key session_id
          (claim (or_empty (some "st")) 1600 login_db).1.auth_sessions)
        (claim (or_empty (some "st")) 1600 login_db).1
        ctx
complete-IsLogin_example =
    complete-IsLogin config provider 1600 redirect (λ d. d) (some "st") login_db completing refl

abbrev others : List Step
others =
    starts (record login { id = "s2"; state = "su" })
    ∷ claims "su" 1700
    ∷ finishes "s1" 1800 (failed "timeout")
    ∷ []

claim_once_example : (claim "st" 1900 (steps others (claim "st" 1600 login_db).1)).0 ≡ none
claim_once_example = claim_once "st" 1600 1900 others login_db (refl, tt) (ground arith)

abbrev token_library : TokenLibrary
token_library = record {
  decode_id_token = λ token. err (refusal_of none);
  hash_token = λ token. token;
}

calls_shut_example :
    (authenticate token_library 3000 fresh.artefact_id 3000 "q1" "t" approved_db
      ≡ err (refusal_of (get_request "q1" approved_db)))
    × (approve systems signer fresh 3000 "q1" approval approved_db
        ≡ err (refusal_of (get_request "q1" approved_db)))
    × (deny "q1" approved_db ≡ err (refusal_of (get_request "q1" approved_db)))
unfolding Table.get Table.save
calls_shut_example =
    calls_shut token_library systems signer fresh 3000 "q1" "t" approval approved_db (λ e. cc e)

abbrev calls : List (Call ℕ)
calls = gets "k" 9 ∷ sets "k" 5 8 ∷ invalidates "k" ∷ sets "k" 4 2 ∷ []

get-lasting_example : (get "k" 12 (run 10 calls)).0 ≡ lasting 10 "k" 12 calls
get-lasting_example = get-lasting 10 "k" 12 calls (ground arith, (ground arith, (ground arith, tt)))
