-- ===== src/SubjectAuth/Sessions.antt =====
-- SubjectAuthService: start, session_status, and the two transactions of complete on the sessions.
use consent_manager.Base.{
  ◌+◌, ◌*◌, String, Bool, true, false, not, ◌&&◌, Option, none, some, List, [], ◌∷◌, ◌==◌, leb, ltb,
  text_of, ok, err, ◌>>◌, raise_if, if◌then◌else◌,
}
use consent_manager.Models.Status.{SubjectAuthStatus, is_pending}
use consent_manager.Models.Rows.{Time, ConsentRequest, SubjectAuthSession, AuthContext}
use consent_manager.Models.Table
use consent_manager.Models.Database.{Database, get_request, add}
use consent_manager.Config.{Settings, seconds}
use consent_manager.Scopes.{member}
use consent_manager.Lifecycle.Errors.{error, not_found, wrong_status, Fallible}
use consent_manager.Lifecycle.UseCases.{joined}
use consent_manager.Assisted.Requests.{of_audience}

abbrev pub session_key : SubjectAuthSession → String
session_key s = s.id

-- SubjectAuthService._check_request
unfoldable pub check_request :
    Settings → Option String → Option ConsentRequest → Fallible (Unit {0})
check_request config audience none = err not_found
check_request config audience (some req) = do
  raise_if (not (of_audience audience req)) not_found
  raise_if (not (is_pending req.status)) (wrong_status req)
  raise_if (not (member req.subject_id_type config.subject_auth_id_types)) (
      error 422 (
        text_of (
          "a subject with ID type '"
          ∷ req.subject_id_type
          ∷ "' cannot authenticate with national ID; create the request with one of "
          ∷ joined config.subject_auth_id_types
          ∷ [])))

-- The new row's id and created_at, and the secrets drawn for it.
pub record NewSession : Type 0 where
  pub id : String
  pub created_at : Time
  pub state : String
  pub nonce : String
  pub code_verifier : String

abbrev pub new_session : Settings → Time → NewSession → String → String → SubjectAuthSession
new_session config now row request_id username = record {
  id = row.id;
  created_at = row.created_at;
  consent_request_id = request_id;
  state = row.state;
  nonce = row.nonce;
  code_verifier = row.code_verifier;
  status = SubjectAuthStatus.pending;
  error = none;
  started_by = some username;
  expires_at = now + seconds config.subject_auth_session_ttl_seconds;
  completed_at = none;
  auth_context_id = none;
}

-- SubjectAuthService.start; `ready` is metadata() and private_key(), which raise a 503. The URL that it
-- also returns is text for the browser.
unfoldable pub start :
    Settings
    → Fallible (Unit {0})
    → Time
    → NewSession
    → String
    → String
    → String
    → Database
    → Fallible (SubjectAuthSession × Database)
unfolding check_request
start config ready now row request_id audience username db = do
  raise_if (not config.subject_auth_enabled) (error 404 "national ID authentication is not enabled")
  ready
  check_request config (some audience) (get_request request_id db)
  let s = new_session config now row request_id username
  ok (s, record db { auth_sessions = add s db.auth_sessions })

pub data SessionStatus : Type 0 where
  expired : SessionStatus
  at : SubjectAuthStatus → SessionStatus

-- SubjectAuthService.session_status: a login link lapses, and so does a callback that never finished.
unfoldable pub session_status : Settings → Time → SubjectAuthSession → SessionStatus
session_status config now row = elim row.status [
  | SubjectAuthStatus.pending ↦
      if leb row.expires_at now then expired else at SubjectAuthStatus.pending
  | SubjectAuthStatus.processing ↦
      if leb (row.expires_at + seconds (config.subject_auth_http_timeout_seconds * 4)) now
      then at SubjectAuthStatus.failed
      else at SubjectAuthStatus.processing
  | SubjectAuthStatus.success ↦ at SubjectAuthStatus.success
  | SubjectAuthStatus.failed ↦ at SubjectAuthStatus.failed
]

abbrev pub is_waiting : SubjectAuthStatus → Bool
is_waiting SubjectAuthStatus.pending = true
is_waiting SubjectAuthStatus.processing = false
is_waiting SubjectAuthStatus.success = false
is_waiting SubjectAuthStatus.failed = false

-- The WHERE of the claim.
abbrev pub is_claimable : String → Time → SubjectAuthSession → Bool
is_claimable state now s = s.state == state && is_waiting s.status && ltb now s.expires_at

-- The rows after `UPDATE ... SET status = processing`.
unfoldable pub claim_rows : String → Time → List SubjectAuthSession → List SubjectAuthSession
claim_rows state now [] = []
claim_rows state now (s ∷ ss) =
    let rest = claim_rows state now ss in
    if is_claimable state now s
    then record s { status = SubjectAuthStatus.processing } ∷ rest
    else s ∷ rest

-- `RETURNING id`: the first
unfoldable pub claimed_id : String → Time → List SubjectAuthSession → Option String
claimed_id state now [] = none
claimed_id state now (s ∷ ss) =
    let rest = claimed_id state now ss in if is_claimable state now s then some s.id else rest

-- The first transaction of complete.
unfoldable pub claim : String → Time → Database → Option String × Database
unfolding claim_rows claimed_id
claim state now db = (
  claimed_id state now db.auth_sessions,
  record db { auth_sessions = claim_rows state now db.auth_sessions },
)

-- How a login ended: with a context, or with an error.
pub data Ending : Type 0 where
  succeeded : AuthContext → Ending
  failed : String → Ending

abbrev pub finished : Time → Ending → SubjectAuthSession → SubjectAuthSession
finished now (succeeded context) row = record row {
  auth_context_id = some context.id;
  status = SubjectAuthStatus.success;
  error = none;
  completed_at = some now;
}
finished now (failed message) row = record row {
  status = SubjectAuthStatus.failed;
  error = some message;
  completed_at = some now;
}

abbrev pub contexts_after : Ending → List AuthContext → List AuthContext
contexts_after (succeeded context) contexts = add context contexts
contexts_after (failed message) contexts = contexts

unfoldable pub finish_row :
    Time → Ending → Option SubjectAuthSession → Database → Option SubjectAuthSession × Database
finish_row now ending none db = (none, db)
finish_row now ending (some row) db = (
  some (finished now ending row),
  record db {
    auth_sessions = Table.save session_key (finished now ending row) db.auth_sessions;
    auth_contexts = contexts_after ending db.auth_contexts;
  },
)

-- SubjectAuthService._finish, the second transaction. A claimed session's row is there; without it the
-- code raises.
unfoldable pub finish : String → Time → Ending → Database → Option SubjectAuthSession × Database
unfolding finish_row
finish session_id now ending db =
    finish_row now ending (Table.get session_key session_id db.auth_sessions) db
