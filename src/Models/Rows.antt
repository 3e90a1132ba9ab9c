-- ===== src/Models/Rows.antt =====
-- The rows of models/consent.py, models/audit.py and models/exchange.py. Every row has the id and
-- created_at of models/base.py; updated_at is set by the ORM and read nowhere. A datetime is the
-- number of microseconds since 0001-01-01 in UTC, as `_aware` reads one without a zone; a duration is
-- a number of microseconds. Of a purpose, a JSON object, only its code is read.
use consent_manager.Base.{ℕ, String, Bool, Option, List}
use consent_manager.Models.Status.{
  ArtefactStatus, ArtefactSource, RequestStatus, RequestMethod, EvidenceKind, SubjectAuthStatus,
  ReasonCode,
}

abbrev pub Time : Type 0
Time = ℕ

abbrev pub Duration : Type 0
Duration = ℕ

pub record Purpose : Type 0 where
  pub code : Option String

-- schemas/common.py: SubjectId, and an entry of subject_identifiers
pub record SubjectId : Type 0 where
  pub type : String
  pub value : String

-- The columns policy_version, policy_id and policy_ref.
pub record PolicyFields : Type 0 where
  pub policy_version : Option ℕ
  pub policy_id : Option String
  pub policy_ref : Option String

-- schemas/verification.py: one grant inside a consent
pub record ConsentGrant : Type 0 where
  pub data_controller : String
  pub data_scopes : List String

-- An entry of ConsentRequest.grants; `use_case` marks a grant made by use case.
pub record RequestedGrant : Type 0 where
  pub data_controller : String
  pub data_scopes : List String
  pub policy : PolicyFields
  pub use_case : Option String

-- An entry of ConsentArtefact.grants.
pub record ApprovedGrant : Type 0 where
  pub data_controller : String
  pub data_scopes : List String
  pub granted_scopes : List String
  pub effective_data_scopes : List String
  pub policy : PolicyFields

pub record ConsentRequest : Type 0 where
  pub id : String
  pub created_at : Time
  pub subject_id_type : String
  pub subject_id_value : String
  pub controller_id : Option String
  pub partner_id : String
  pub purpose : Purpose
  pub requested_scopes : List String
  pub grants : Option (List RequestedGrant)
  pub valid_from : Option Time
  pub valid_until : Option Time
  pub status : RequestStatus
  pub subject_identifiers : Option (List SubjectId)
  pub method : Option RequestMethod
  pub use_case : Option String
  pub created_by : Option String
  pub partner_audience : Option String
  pub submitted_at : Option Time
  pub verified_by : Option String
  pub verified_at : Option Time
  pub verification_note : Option String

pub record ConsentEvidence : Type 0 where
  pub id : String
  pub consent_request_id : String
  pub kind : EvidenceKind
  pub filename : String
  pub content_type : String
  pub size_bytes : ℕ
  pub sha256 : String
  pub storage_key : String
  pub uploaded_by : Option String
  pub uploaded_at : Time

pub record SubjectAuthSession : Type 0 where
  pub id : String
  pub created_at : Time
  pub consent_request_id : String
  pub state : String
  pub nonce : String
  pub code_verifier : String
  pub status : SubjectAuthStatus
  pub error : Option String
  pub started_by : Option String
  pub expires_at : Time
  pub completed_at : Option Time
  pub auth_context_id : Option String

-- `acr` is the one entry of verified_claims that the consent services read.
pub record AuthContext : Type 0 where
  pub id : String
  pub created_at : Time
  pub consent_request_id : String
  pub auth_provider : Option String
  pub auth_method : Option String
  pub auth_timestamp : Option Time
  pub issuer : Option String
  pub id_token_hash : String
  pub token_validated : Bool
  pub acr : Option String

-- The JSON object that AssistedConsentService.approve writes to ConsentArtefact.assurance.
pub record SubjectAuthentication : Type 0 where
  pub provider : Option String
  pub method : Option String
  pub acr : Option String
  pub authenticated_at : Option Time
  pub auth_context_id : String

pub record Assurance : Type 0 where
  pub method : RequestMethod
  pub evidence : List String
  pub verified_by : String
  pub verified_at : Time
  pub subject_authenticated : Bool
  pub subject_authentication : Option SubjectAuthentication

pub record ConsentArtefact : Type 0 where
  pub id : String
  pub created_at : Time
  pub subject_id_type : String
  pub subject_id_value : String
  pub subject_identifiers : Option (List SubjectId)
  pub controller_id : Option String
  pub partner_id : String
  pub purpose : Purpose
  pub data_scopes : List String
  pub effective_data_scopes : List String
  pub fetch_type : String
  pub valid_from : Time
  pub valid_until : Time
  pub source : ArtefactSource
  pub policy : PolicyFields
  pub auth_context_id : Option String
  pub object_jti : Option String
  pub grants : Option (List ApprovedGrant)
  pub assurance : Option Assurance
  pub consent_request_id : Option String
  pub use_case : Option String
  pub status : ArtefactStatus
  pub revoked_at : Option Time
  pub expired_at : Option Time

pub record RevocationRecord : Type 0 where
  pub id : String
  pub created_at : Time
  pub consent_id : String
  pub originated_by : String
  pub reason : Option String
  pub revoked_by : Option String

pub data Verdict : Type 0 where
  permit deny : Verdict

pub record DecisionLog : Type 0 where
  pub partner_id : Option String
  pub consent_id : Option String
  pub object_jti : Option String
  pub data_controller : Option String
  pub decision : Verdict
  pub reason_code : ReasonCode
  pub detail : Option String
  pub policy : PolicyFields
  pub request_ctx_hash : Option String
  pub receipt_jti : Option String
  pub receipt_issuer : Option String

pub record IssuedReceipt : Type 0 where
  pub id : String
  pub consent_id : String
  pub data_controller : String
  pub presenter : String
  pub partner : String
  pub expires_at : Time
