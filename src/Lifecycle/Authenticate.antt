-- ===== src/Lifecycle/Authenticate.antt =====
-- LifecycleService.authenticate and _latest_auth_context.
use consent_manager.Base.{
  String, Bool, not, ◌&&◌, Option, none, some, List, [], ◌∷◌, ◌==◌, truthy, same, ltb, ok, err,
  ◌>>=◌, ◌>>◌, raise_if, if◌then◌else◌,
}
use consent_manager.Models.Status.{is_pending}
use consent_manager.Models.Rows.{Time, ConsentRequest, AuthContext}
use consent_manager.Models.Database.{Database, get_request, add}
use consent_manager.Scopes.{keep}
use consent_manager.Lifecycle.Errors.{error, wrong_status, Fallible}

-- The claim `amr`: None, one method or a list of them.
pub data Methods : Type 0 where
  absent : Methods
  method : String → Methods
  methods : List String → Methods

-- The claims of an ID token that are read.
pub record Claims : Type 0 where
  pub subject_id_value : Option String
  pub sub : Option String
  pub iss : Option String
  pub amr : Methods
  pub acr : Option String

-- `_decode_id_token` gives the claims and whether they were validated, or raises; the OIDC library and
-- SHA-256 are the parameters.
pub record TokenLibrary : Type 0 where
  pub decode_id_token : String → Fallible (Claims × Bool)
  pub hash_token : String → String

-- `(claims.get("amr") or [None])[0]` of a list, else the claim
abbrev pub first_method : Methods → Option String
first_method absent = none
first_method (method m) = some m
first_method (methods []) = none
first_method (methods (m ∷ ms)) = some m

-- `claims.get("subject_id_value") or claims.get("sub")`
abbrev pub token_subject : Claims → Option String
token_subject claims =
    if truthy claims.subject_id_value then claims.subject_id_value else claims.sub

abbrev pub context_of :
    TokenLibrary → Time → String → Time → String → String → Claims → Bool → AuthContext
context_of lib now fresh created_at request_id id_token claims validated = record {
  id = fresh;
  created_at = created_at;
  consent_request_id = request_id;
  auth_provider = claims.iss;
  auth_method = first_method claims.amr;
  auth_timestamp = some now;
  issuer = claims.iss;
  id_token_hash = lib.hash_token id_token;
  token_validated = validated;
  acr = claims.acr;
}

unfoldable pub authenticate_row :
    TokenLibrary
    → Time
    → String
    → Time
    → String
    → String
    → Option ConsentRequest
    → Fallible AuthContext
authenticate_row lib now fresh created_at request_id id_token none =
    err (error 404 "consent request not found")
authenticate_row lib now fresh created_at request_id id_token (some req) = do
  raise_if (not (is_pending req.status)) (wrong_status req)
  (claims, validated) ← lib.decode_id_token id_token
  raise_if
      (truthy (token_subject claims)
        && not (same (token_subject claims) (some req.subject_id_value)))
      (error 403 "token subject does not match request")
  ok (context_of lib now fresh created_at request_id id_token claims validated)

abbrev pub with_context : Fallible AuthContext → Database → Fallible (AuthContext × Database)
with_context call db = do
  ctx ← call
  ok (ctx, record db { auth_contexts = add ctx db.auth_contexts })

-- LifecycleService.authenticate
unfoldable pub authenticate :
    TokenLibrary
    → Time
    → String
    → Time
    → String
    → String
    → Database
    → Fallible (AuthContext × Database)
unfolding authenticate_row
authenticate lib now fresh created_at request_id id_token db =
    with_context
      (authenticate_row lib now fresh created_at request_id id_token (get_request request_id db)) db

unfoldable pub later_context : AuthContext → Option AuthContext → AuthContext
later_context c none = c
later_context c (some best) = if ltb c.created_at best.created_at then best else c

-- `order_by(AuthContext.created_at.desc())` and `first()`; the order of equal times is not specified.
unfoldable pub latest_context : List AuthContext → Option AuthContext
unfolding later_context
latest_context [] = none
latest_context (c ∷ cs) = some (later_context c (latest_context cs))

-- LifecycleService._latest_auth_context
unfoldable pub latest_auth_context : String → Database → Option AuthContext
unfolding latest_context
latest_auth_context request_id db =
    latest_context (keep (λ c. c.consent_request_id == request_id) db.auth_contexts)
