-- ===== src/Verification/Request.antt =====
-- The validate request, the decision (schemas/verification.py) and the small checks of
-- VerificationService that its paths share.
use consent_manager.Base.{
  String, Bool, false, not, ◌&&◌, Option, none, some, List, [], ◌∷◌, ◌==◌, truthy, or_empty,
  has_text, if◌then◌else◌,
}
use consent_manager.Models.Status.{ReasonCode}
use consent_manager.Models.Rows.{Time, SubjectId, PolicyFields, Verdict, deny, DecisionLog}
use consent_manager.Models.Database.{Database, add}
use consent_manager.Scopes.{member}
use consent_manager.Config.{Settings}
use consent_manager.Policy.Records.{PmPolicy, RequestContext, policy_fields_of, no_policy_fields}

pub record ValidateRequest : Type 0 where
  pub consent_jws : Option String
  pub consent_id : Option String
  pub consent_partner_id : Option String
  pub partner_id : Option String
  pub data_controller : Option String
  pub request_context : Option RequestContext
  pub issue_receipts : Bool

-- ValidateRequest._one_consent: whether the validator accepts the request
abbrev pub one_consent : ValidateRequest → Bool
one_consent parsed = not (truthy parsed.consent_jws && truthy parsed.consent_id)

pub record Decision : Type 0 where
  pub decision : Verdict
  pub reason_code : ReasonCode
  pub detail : Option String
  pub consent_id : Option String
  pub receipt_id : Option String
  pub subject_id : Option SubjectId
  pub data_controller : Option String
  pub effective_data_scopes : Option (List String)
  pub valid_until : Option Time
  pub policy : PolicyFields
  pub evaluated_at : Time
  pub receipts : Option (List (String × String))
  pub grants : Option (List (String × List String))

-- The fields of a decision that its constructor call leaves out.
abbrev pub bare : Verdict → ReasonCode → Time → Decision
bare verdict reason now = record {
  decision = verdict;
  reason_code = reason;
  detail = none;
  consent_id = none;
  receipt_id = none;
  subject_id = none;
  data_controller = none;
  effective_data_scopes = none;
  valid_until = none;
  policy = no_policy_fields;
  evaluated_at = now;
  receipts = none;
  grants = none;
}

-- What a refusal hands to `_deny`, beside the time and the request's hash.
pub record Refusal : Type 0 where
  pub reason : ReasonCode
  pub detail : Option String
  pub partner_id : Option String
  pub jti : Option String
  pub data_controller : Option String
  pub receipt_jti : Option String
  pub receipt_issuer : Option String
  pub consent_id : Option String
  pub policy : Option PmPolicy

abbrev pub refusal : ReasonCode → String → Refusal
refusal reason detail = record {
  reason = reason;
  detail = some detail;
  partner_id = none;
  jti = none;
  data_controller = none;
  receipt_jti = none;
  receipt_issuer = none;
  consent_id = none;
  policy = none;
}

abbrev pub deny_log : Refusal → String → DecisionLog
deny_log r ctx_hash = record {
  partner_id = r.partner_id;
  consent_id = r.consent_id;
  object_jti = r.jti;
  data_controller = r.data_controller;
  decision = deny;
  reason_code = r.reason;
  detail = r.detail;
  policy = policy_fields_of r.policy;
  request_ctx_hash = some ctx_hash;
  receipt_jti = r.receipt_jti;
  receipt_issuer = r.receipt_issuer;
}

-- VerificationService._deny: logs and returns a deny
unfoldable pub deny_with : Refusal → Time → String → Database → Decision × Database
deny_with r now ctx_hash db = (
  record (bare deny r.reason now) { detail = r.detail; data_controller = r.data_controller },
  record db { decisions = add (deny_log r ctx_hash) db.decisions },
)

-- VerificationService._use_case_mode
abbrev pub use_case_of : Option RequestContext → Option String
use_case_of none = none
use_case_of (some ctx) = ctx.use_case

unfoldable pub use_case_mode : Settings → ValidateRequest → Bool
use_case_mode config parsed =
    truthy (use_case_of parsed.request_context)
    && truthy parsed.partner_id
    && member (or_empty parsed.partner_id) config.receipt_presenters

-- The value that the consent carries for an ID type: its subject's, else its first other identifier's.
unfoldable pub known_value : String → String → String → List SubjectId → Option String
known_value wanted type value [] = if wanted == type then some value else none
known_value wanted type value (i ∷ is) =
    if wanted == type
    then some value
    else if has_text i.type && wanted == i.type
    then some i.value
    else known_value wanted type value is

abbrev pub identifiers_of : Option (List SubjectId) → List SubjectId
identifiers_of none = []
identifiers_of (some is) = is

differs : Option String → String → Bool
differs none value = false
differs (some known) value = not (value == known)

-- VerificationService._subject_mismatch
unfoldable pub subject_mismatch :
    Option SubjectId → String → String → Option (List SubjectId) → Bool
unfolding known_value differs
subject_mismatch none type value identifiers = false
subject_mismatch (some s) type value identifiers =
    differs (known_value s.type type value (identifiers_of identifiers)) s.value

abbrev pub subject_of : Option RequestContext → Option SubjectId
subject_of none = none
subject_of (some ctx) = ctx.subject_id
