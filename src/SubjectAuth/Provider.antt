-- ===== src/SubjectAuth/Provider.antt =====
-- SubjectAuthService._authenticate: the provider's answer becomes an AuthContext.
use Prim.Native.Char.{code}
use consent_manager.Base.{
  ℕ, zero, suc, String, Bool, true, not, ◌&&◌, Option, none, some, [], ◌∷◌, ◌==◌, same, truthy,
  or_empty, has_text, text_of, Result, ok, err, ◌>>=◌, ◌>>◌, raise_if, if◌then◌else◌,
}
use consent_manager.Duration.{is_space}
use consent_manager.Models.Status.{is_pending}
use consent_manager.Models.Rows.{Time, ConsentRequest, SubjectAuthSession, AuthContext}
use consent_manager.Models.Table
use consent_manager.Models.Database.{Database, get_request}
use consent_manager.Config.{Settings}
use consent_manager.Lifecycle.Authenticate.{Methods, absent, method, methods, first_method}
use consent_manager.SubjectAuth.Sessions.{session_key}

-- The claims of an ID token or a userinfo answer that are read; `subject` is the configured subject
-- claim.
pub record IdClaims : Type 0 where
  pub iss : Option String
  pub sub : Option String
  pub nonce : Option String
  pub subject : Option String
  pub amr : Methods
  pub acr : Option String
  pub auth_time : Option Time

-- What the token endpoint answers: no answer, a refusal, or an ID token with an access token.
pub data TokenReply : Type 0 where
  unreachable : String → TokenReply
  refused : String → TokenReply
  tokens : Option String → Option String → TokenReply

-- What the userinfo endpoint answers; `invalid` carries what _userinfo_claims raises.
pub data Userinfo : Type 0 where
  no_endpoint : Userinfo
  failed : String → Userinfo
  invalid : String → Userinfo
  answered : IdClaims → Userinfo

-- The provider and the OIDC library: metadata() and private_key() (their error), the token endpoint
-- for a code and its PKCE verifier, the verification of an ID token (or the message that is raised), the userinfo endpoint
-- for an access token, SHA-256, and the new context's id and created_at.
pub record Provider : Type 0 where
  pub ready : Result String (Unit {0})
  pub exchange : String → String → TokenReply
  pub verify : String → Result String IdClaims
  pub userinfo : String → Userinfo
  pub hash_token : String → String
  pub context_id : String
  pub created_at : Time

-- _norm: the text without its blanks
norm : String → String
norm String.[] = ""
norm (String.◌∷◌ c s) = let rest = norm s in if is_space (code c) then rest else String.◌∷◌ c rest

unfoldable pub same_subject : Option String → String → Bool
unfolding norm
same_subject subject value = norm (or_empty subject) == norm value

-- `text[:n]`
unfoldable pub prefix_of : ℕ → String → String
prefix_of zero s = ""
prefix_of (suc n) String.[] = ""
prefix_of (suc n) (String.◌∷◌ c s) = String.◌∷◌ c (prefix_of n s)

-- `{**claims, **info}` for one claim
abbrev over : Option String → Option String → Option String
over claim none = claim
over claim (some info) = some info

abbrev over_methods : Methods → Methods → Methods
over_methods claim absent = claim
over_methods claim (method m) = method m
over_methods claim (methods ms) = methods ms

abbrev over_time : Option Time → Option Time → Option Time
over_time claim none = claim
over_time claim (some info) = some info

-- `{**claims, **info}`. A claim that userinfo gives as null counts as one that it does not give: the
-- ID token's is kept, where the code takes the null.
unfoldable pub merged : IdClaims → IdClaims → IdClaims
merged claims info = record {
  iss = over claims.iss info.iss;
  sub = over claims.sub info.sub;
  nonce = over claims.nonce info.nonce;
  subject = over claims.subject info.subject;
  amr = over_methods claims.amr info.amr;
  acr = over claims.acr info.acr;
  auth_time = over_time claims.auth_time info.auth_time;
}

-- The claims with those of userinfo, which must be of the same person.
unfoldable pub with_userinfo : IdClaims → Userinfo → Result String IdClaims
with_userinfo claims no_endpoint = ok claims
with_userinfo claims (failed shown) =
    err (text_of ("the provider's userinfo failed: " ∷ shown ∷ []))
with_userinfo claims (invalid detail) = err detail
with_userinfo claims (answered info) = do
  raise_if (truthy info.sub && not (same info.sub claims.sub))
      "the userinfo answer is for another person"
  ok (merged claims info)

unfoldable pub userinfo_of : Provider → IdClaims → Option String → Result String IdClaims
unfolding with_userinfo
userinfo_of provider claims access =
    if truthy access then with_userinfo claims (provider.userinfo (or_empty access)) else ok claims

-- The method recorded: amr's first, else acr, cut to 50 characters.
unfoldable pub recorded_method : IdClaims → Option String
unfolding prefix_of
recorded_method claims =
    if truthy (first_method claims.amr)
    then some (prefix_of 50 (or_empty (first_method claims.amr)))
    else if truthy claims.acr
    then some (prefix_of 50 (or_empty claims.acr))
    else none

abbrev pub login_context :
    Settings → Provider → Time → ConsentRequest → String → IdClaims → IdClaims → AuthContext
login_context config provider now req id_token claims all = record {
  id = provider.context_id;
  created_at = provider.created_at;
  consent_request_id = req.id;
  auth_provider = some config.subject_auth_provider_name;
  auth_method = recorded_method all;
  auth_timestamp = elim all.auth_time [ none ↦ some now | some t ↦ some t ];
  issuer = claims.iss;
  id_token_hash = provider.hash_token id_token;
  token_validated = true;
  acr = all.acr;
}

unfoldable pub verified_token :
    Provider → TokenReply → Result String (String × Option String × IdClaims)
verified_token provider (unreachable detail) =
    err (text_of ("authentication failed: " ∷ detail ∷ []))
verified_token provider (refused shown) =
    err (text_of ("the provider refused the code: " ∷ shown ∷ []))
verified_token provider (tokens none access) = err "the provider returned no ID token"
verified_token provider (tokens (some id_token) access) = do
  raise_if (not (has_text id_token)) "the provider returned no ID token"
  claims ← provider.verify id_token
  ok (id_token, access, claims)

unfoldable pub authenticate_subject :
    Settings
    → Provider
    → Time
    → SubjectAuthSession
    → ConsentRequest
    → String
    → Result String AuthContext
unfolding verified_token userinfo_of
authenticate_subject config provider now row req code = do
  raise_if (not (is_pending req.status)) "the consent request is no longer open"
  provider.ready
  (id_token, access, claims) ← verified_token provider (provider.exchange code row.code_verifier)
  raise_if (not (same claims.nonce (some row.nonce)))
      "the ID token's nonce does not match this login"
  all ← userinfo_of provider claims access
  raise_if (not (truthy all.subject)) (
      text_of (
        "the provider did not return '" ∷ config.subject_auth_subject_claim ∷ "' (the national ID)"
        ∷ []))
  raise_if (not (same_subject all.subject req.subject_id_value))
      "the authenticated person is not the request's subject"
  ok (login_context config provider now req id_token claims all)

-- The parameters of the provider's redirect.
pub record Redirect : Type 0 where
  pub code : Option String
  pub error : Option String
  pub error_description : Option String

unfoldable pub stored_request : Option ConsentRequest → Result String ConsentRequest
stored_request none = err "the consent request is no longer open"
stored_request (some req) = ok req

unfoldable pub authenticate_row :
    Settings
    → Provider
    → Time
    → Redirect
    → Option SubjectAuthSession
    → Database
    → Result String AuthContext
authenticate_row config provider now redirect none db = err "authentication failed: no session"
authenticate_row config provider now redirect (some row) db = do
  req ← stored_request (get_request row.consent_request_id db)
  authenticate_subject config provider now row req (or_empty redirect.code)

-- SubjectAuthService._authenticate; its errors are the texts that complete stores.
unfoldable pub authenticate :
    Settings → Provider → Time → Redirect → String → Database → Result String AuthContext
unfolding authenticate_row
authenticate config provider now redirect session_id db = do
  raise_if (truthy redirect.error) (
      text_of (
        "the provider refused: "
        ∷ (if truthy redirect.error_description
            then or_empty redirect.error_description
            else or_empty redirect.error)
        ∷ []))
  raise_if (not (truthy redirect.code)) "the provider returned no code"
  authenticate_row config provider now redirect (Table.get session_key session_id db.auth_sessions)
      db
