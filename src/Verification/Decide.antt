-- ===== src/Verification/Decide.antt =====
-- The steps of VerificationService that end in a stored decision: the idempotency lookup, the decision
-- read from an artefact, and `_permit` with its commit.
use consent_manager.Base.{
  String, Bool, ◌&&◌, Option, none, some, List, [], ◌∷◌, same, if◌then◌else◌,
}
use consent_manager.Models.Status.{ArtefactStatus, ArtefactSource, ReasonCode}
use consent_manager.Models.Rows.{
  Time, SubjectId, ConsentArtefact, ConsentGrant, DecisionLog, permit, deny,
}
use consent_manager.Models.Database.{Database, ConsentReceipt, add}
use consent_manager.Consents.Service.{artefact_status}
use consent_manager.Receipts.{Signer, build_receipt}
use consent_manager.Policy.Records.{ConsentObject, PartnerRef}
use consent_manager.Policy.Evaluate.{PolicyResult}
use consent_manager.Verification.Request.{Decision, bare}

-- The artefact is the one of a consent's jti at a controller.
abbrev pub holds_jti : String → String → ConsentArtefact → Bool
holds_jti jti controller a = same a.object_jti (some jti) && same a.controller_id (some controller)

unfoldable pub find_jti : String → String → List ConsentArtefact → Option ConsentArtefact
find_jti jti controller [] = none
find_jti jti controller (a ∷ rows) =
    if holds_jti jti controller a then some a else find_jti jti controller rows

-- VerificationService._existing_artefact
unfoldable pub existing_artefact : String → String → Database → Option ConsentArtefact
unfolding find_jti
existing_artefact jti controller db = find_jti jti controller db.artefacts

abbrev pub subject_of_artefact : ConsentArtefact → SubjectId
subject_of_artefact a = record { type = a.subject_id_type; value = a.subject_id_value }

unfoldable pub decision_for : ArtefactStatus → ConsentArtefact → Time → Decision
decision_for ArtefactStatus.revoked a now = record (bare deny ReasonCode.revoked now) {
  detail = some "consent revoked";
  data_controller = a.controller_id;
}
decision_for ArtefactStatus.expired a now = record (bare deny ReasonCode.expired now) {
  detail = some "consent expired";
  data_controller = a.controller_id;
}
decision_for ArtefactStatus.active a now = record (bare permit ReasonCode.ok now) {
  consent_id = some a.id;
  subject_id = some (subject_of_artefact a);
  data_controller = a.controller_id;
  effective_data_scopes = some a.effective_data_scopes;
  valid_until = some a.valid_until;
  policy = a.policy;
}

-- VerificationService._decision_from_artefact, with its lazy expiry
unfoldable pub decision_from_artefact : ConsentArtefact → Time → Decision
unfolding decision_for artefact_status
decision_from_artefact a now = decision_for (artefact_status now a) a now

-- The new ids of one call.
pub record Fresh : Type 0 where
  pub artefact_id : String
  pub receipt_id : String
  pub created_at : Time

-- The keyword arguments of `_permit` that default to None, and its source.
pub record PermitOptions : Type 0 where
  pub source : ArtefactSource
  pub valid_until : Option Time
  pub receipt_jti : Option String
  pub receipt_issuer : Option String
  pub use_case : Option String

abbrev or_time : Option Time → Time → Time
or_time none t = t
or_time (some t) _ = t

unfoldable pub permitted_artefact :
    Fresh
    → ConsentObject
    → ConsentGrant
    → PartnerRef
    → PolicyResult
    → PermitOptions
    → ConsentArtefact
permitted_artefact fresh obj grant partner result options = record {
  id = fresh.artefact_id;
  created_at = fresh.created_at;
  subject_id_type = obj.subject_id.type;
  subject_id_value = obj.subject_id.value;
  subject_identifiers = none;
  controller_id = some grant.data_controller;
  partner_id = partner.audience;
  purpose = obj.purpose;
  data_scopes = grant.data_scopes;
  effective_data_scopes = result.effective_scopes;
  fetch_type = obj.fetch_type;
  valid_from = obj.valid_from;
  valid_until = or_time options.valid_until obj.valid_until;
  source = options.source;
  policy = result.policy;
  auth_context_id = none;
  object_jti = some obj.jti;
  grants = none;
  assurance = none;
  consent_request_id = none;
  use_case = options.use_case;
  status = ArtefactStatus.active;
  revoked_at = none;
  expired_at = none;
}

permit_log : ConsentArtefact → String → PermitOptions → DecisionLog
permit_log a ctx_hash options = record {
  partner_id = some a.partner_id;
  consent_id = some a.id;
  object_jti = a.object_jti;
  data_controller = a.controller_id;
  decision = permit;
  reason_code = ReasonCode.ok;
  detail = none;
  policy = a.policy;
  request_ctx_hash = some ctx_hash;
  receipt_jti = options.receipt_jti;
  receipt_issuer = options.receipt_issuer;
}

permit_decision : ConsentArtefact → ConsentReceipt → Time → Decision
permit_decision a receipt now = record (bare permit ReasonCode.ok now) {
  consent_id = some a.id;
  receipt_id = some receipt.id;
  subject_id = some (subject_of_artefact a);
  data_controller = a.controller_id;
  effective_data_scopes = some a.effective_data_scopes;
  valid_until = some a.valid_until;
  policy = a.policy;
}

-- The commit of `_permit` on the database as it is then. The table's unique constraint on (object_jti,
-- controller_id) refuses a second artefact: the transaction is rolled back and the decision is the
-- stored one's.
unfoldable pub commit_permit :
    Option ConsentArtefact
    → ConsentArtefact
    → ConsentReceipt
    → DecisionLog
    → Time
    → Database
    → Decision × Database
unfolding permit_decision
commit_permit (some winner) a receipt log now db = (decision_from_artefact winner now, db)
commit_permit none a receipt log now db = (
  permit_decision a receipt now,
  record db {
    artefacts = add a db.artefacts;
    receipts = add receipt db.receipts;
    decisions = add log db.decisions;
  },
)

-- VerificationService._permit
unfoldable pub permit_consent :
    Signer
    → Fresh
    → ConsentObject
    → ConsentGrant
    → PartnerRef
    → PolicyResult
    → PermitOptions
    → Time
    → String
    → Database
    → Decision × Database
unfolding commit_permit permit_log permitted_artefact
permit_consent signer fresh obj grant partner result options now ctx_hash db =
    let a = permitted_artefact fresh obj grant partner result options in
    commit_permit (existing_artefact obj.jti grant.data_controller db) a
      (build_receipt signer fresh.receipt_id none a) (permit_log a ctx_hash options) now db
