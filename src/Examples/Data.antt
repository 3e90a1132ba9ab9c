-- ===== src/Examples/Data.antt =====
-- A bank's consent for the scopes of a farmer registry.
use consent_manager.Base.{
  String, true, false, none, some, [], ◌∷◌, Option, ◌==◌, ◌≡◌, eq_iff, inl, inr, Bool-cases,
  if◌then◌else◌,
}
use consent_manager.Models.Status.{ArtefactStatus, ArtefactSource}
use consent_manager.Models.Rows.{ConsentArtefact, ConsentGrant}
use consent_manager.Models.Database.{Database}
use consent_manager.Config.{Settings, TrustedReceiptIssuer}
use consent_manager.Policy.Records.{PmPolicy, PartnerRef, Material, ConsentObject, no_policy_fields}
use consent_manager.Receipts.{Signer}
use consent_manager.Verification.Request.{ValidateRequest}
use consent_manager.Verification.Partners.{PolicySource, Answer, unavailable, answered}
use consent_manager.Verification.Jws.{JwsHeader, Libraries}
use consent_manager.Verification.Decide.{Fresh}

abbrev pub policy : PmPolicy
policy = record {
  partner_id = "PARTNER_BANK_A";
  data_controller = some "farmers";
  version = 3;
  use_case = none;
  allowed_data_scopes = "land" ∷ "name" ∷ [];
  allowed_purposes = "loan" ∷ [];
  allowed_subject_id_types = [];
  allowed_signing_algs = [];
  max_validity_duration = some "P1D";
  fetch_type = "oneshot";
  id = some "pol-3";
  allow_partner_consents = true;
}

abbrev pub partner : PartnerRef
partner = record {
  audience = "bank-a";
  controller_id = some "farmers";
  partner_mgmt_id = "PARTNER_BANK_A";
  use_case = none;
}

abbrev pub material : Material
material = record { partner = partner; policy = policy }

abbrev pub grant : ConsentGrant
grant = record { data_controller = "farmers"; data_scopes = "name" ∷ "income" ∷ [] }

abbrev pub consent : ConsentObject
consent = record {
  jti = "j1";
  subject_id = record { type = "national_id"; value = "42" };
  aud = "bank-a";
  purpose = record { code = some "loan" };
  grants = none;
  data_controller = some "farmers";
  data_scopes = some ("name" ∷ "income" ∷ []);
  fetch_type = "oneshot";
  valid_from = 1000;
  valid_until = 5000;
  issued_at = 1000;
}

abbrev pub artefact : ConsentArtefact
artefact = record {
  id = "c1";
  created_at = 900;
  subject_id_type = "national_id";
  subject_id_value = "42";
  subject_identifiers = none;
  controller_id = some "farmers";
  partner_id = "bank-a";
  purpose = record { code = some "loan" };
  data_scopes = "name" ∷ "income" ∷ [];
  effective_data_scopes = "name" ∷ [];
  fetch_type = "oneshot";
  valid_from = 1000;
  valid_until = 5000;
  source = ArtefactSource.embedded;
  policy = no_policy_fields;
  auth_context_id = none;
  object_jti = some "j1";
  grants = none;
  assurance = none;
  consent_request_id = none;
  use_case = none;
  status = ArtefactStatus.active;
  revoked_at = none;
  expired_at = none;
}

abbrev pub empty_db : Database
empty_db = record {
  requests = [];
  artefacts = [];
  receipts = [];
  revocations = [];
  evidence = [];
  auth_sessions = [];
  auth_contexts = [];
  decisions = [];
  issued = [];
}

abbrev pub db : Database
db = record empty_db { artefacts = artefact ∷ [] }

-- An exchange whose consent tokens are accepted.
abbrev pub issuer : TrustedReceiptIssuer
issuer = record {
  issuer = "exchange";
  jwks_url = "https://exchange/.well-known/jwks.json";
  presenter = "bank-a";
  status_url = "";
}

abbrev pub config : Settings
config = record {
  replay_freshness_window_sec = 300;
  receipt_issuer = "";
  receipt_presenters = [];
  receipt_ttl_seconds = 300;
  trusted_receipt_issuers = issuer ∷ [];
  receipt_status_check = "always";
  receipt_status_cache_ttl_seconds = 10;
  receipt_jwks_cache_ttl_seconds = 300;
  receipt_jwks_refresh_cooldown_seconds = 10;
  partner_policy_cache_ttl_seconds = 60;
  partner_policy_hard_ttl_seconds = 21600;
  partner_policy_negative_ttl_seconds = 30;
  composite_use_case_cache_ttl_seconds = 60;
  subject_required_identifiers = [];
  evidence_max_files_per_request = 20;
  subject_auth_enabled = false;
  subject_auth_id_types = "national_id" ∷ [];
  subject_auth_session_ttl_seconds = 300;
  subject_auth_http_timeout_seconds = 10;
  subject_auth_provider_name = "National ID";
  subject_auth_subject_claim = "individual_id";
}

abbrev pub signer : Signer
signer = record {
  hash = λ d. d.consent_id;
  sign = λ t. t;
  algorithm = "EdDSA";
  kid = "k";
  withdrawal_method = λ c. c;
  withdrawal_subject_api_url = "";
}

-- Partner Management with one policy: of any partner, for the registry "farmers".
abbrev pub read_policy : String → Option String → Answer PmPolicy
read_policy audience none = answered none
read_policy audience (some c) = if c == "farmers" then answered (some policy) else answered none

policy_of :
    (p : PmPolicy)
    → ◌≡◌ {A = Answer PmPolicy} (answered (some policy)) (answered (some p))
    → policy ≡ p
policy_of p h = cc

pub read_policy-controller :
    (audience c : String) {p : PmPolicy}
    → read_policy audience (some c) ≡ answered (some p)
    → p.data_controller ≡ some c
read_policy-controller audience c {p} h = elim (Bool-cases (c == "farmers")) [
  | inl e ↦ cc ((eq_iff c "farmers").0 e, policy_of p (rw e at h))
  | inr d ↦ cc (rw d at h)
]

pub no_use_case :
    (u : String) {p : PmPolicy}
    → ◌≡◌ {A = Answer PmPolicy} unavailable (answered (some p))
    → p.use_case ≡ some u
no_use_case u h = cc

abbrev pub source : PolicySource
source = record {
  get_policy = read_policy;
  get_use_case_policy = λ audience u. unavailable;
  pm_partner_id = λ audience. "PARTNER_BANK_A";
  for_controller = read_policy-controller;
  for_use_case = λ audience u {p} h. no_use_case u h;
}

abbrev pub libraries : Libraries ConsentObject
libraries = record {
  load_header = λ s. some (record { typ = none; alg = some "EdDSA"; kid = some "k1" });
  load_payload = λ s. some consent;
  parse_consent = λ claims. some claims;
  verify_jwt = λ jws key. key == "PARTNER_BANK_A";
  hash_text = λ s. s;
  signer = signer;
  policies = source;
  meanwhile = λ d. d;
}

abbrev pub header : JwsHeader
header = record { typ = none; alg = some "EdDSA"; kid = some "k1" }

abbrev pub request : ValidateRequest
request = record {
  consent_jws = some "h.p.s";
  consent_id = none;
  consent_partner_id = none;
  partner_id = none;
  data_controller = some "farmers";
  request_context = none;
  issue_receipts = false;
}

abbrev pub fresh : Fresh
fresh = record { artefact_id = "c2"; receipt_id = "r2"; created_at = 2000 }
