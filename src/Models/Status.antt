-- ===== src/Models/Status.antt =====
-- The status columns of models/consent.py and the reason codes of schemas/common.py. A column holds
-- the enum's value; the model keeps the member.
use consent_manager.Base.{Bool, true, false, String, ◌≡◌, refl}

pub data ArtefactStatus : Type 0 where
  active revoked expired : ArtefactStatus

pub data ArtefactSource : Type 0 where
  embedded originated receipt : ArtefactSource

pub data RequestStatus : Type 0 where
  pending approved denied expired pending_verification rejected cancelled : RequestStatus

pub data RequestMethod : Type 0 where
  assisted sms self_service : RequestMethod

pub data EvidenceKind : Type 0 where
  signed_form other : EvidenceKind

pub data SubjectAuthStatus : Type 0 where
  pending processing success failed : SubjectAuthStatus

pub data ReasonCode : Type 0 where
  ok malformed_object unknown_partner signature_invalid audience_mismatch : ReasonCode
  subject_not_allowed purpose_not_allowed scope_exceeds_policy validity_exceeds_policy : ReasonCode
  expired revoked replay controller_not_granted subject_mismatch : ReasonCode
  receipt_presenter_not_allowed receipt_issuer_not_trusted receipt_invalid : ReasonCode
  presenter_mismatch receipt_status_unavailable unknown_consent not_yet_valid : ReasonCode
  partner_mismatch policy_unavailable use_case_not_granted consent_not_found : ReasonCode
  partner_consent_not_accepted : ReasonCode

-- `status == ArtefactStatus.active.value`, and so on for each test that the services make
abbrev pub is_active : ArtefactStatus → Bool
is_active ArtefactStatus.active = true
is_active ArtefactStatus.revoked = false
is_active ArtefactStatus.expired = false

pub is_active-active : (s : ArtefactStatus) → is_active s ≡ true → s ≡ ArtefactStatus.active
is_active-active ArtefactStatus.active h = refl
is_active-active ArtefactStatus.revoked h = cc
is_active-active ArtefactStatus.expired h = cc

abbrev pub is_revoked : ArtefactStatus → Bool
is_revoked ArtefactStatus.active = false
is_revoked ArtefactStatus.revoked = true
is_revoked ArtefactStatus.expired = false

abbrev pub is_expired : ArtefactStatus → Bool
is_expired ArtefactStatus.active = false
is_expired ArtefactStatus.revoked = false
is_expired ArtefactStatus.expired = true

abbrev pub is_embedded : ArtefactSource → Bool
is_embedded ArtefactSource.embedded = true
is_embedded ArtefactSource.originated = false
is_embedded ArtefactSource.receipt = false

abbrev pub is_originated : ArtefactSource → Bool
is_originated ArtefactSource.embedded = false
is_originated ArtefactSource.originated = true
is_originated ArtefactSource.receipt = false

abbrev pub is_receipt : ArtefactSource → Bool
is_receipt ArtefactSource.embedded = false
is_receipt ArtefactSource.originated = false
is_receipt ArtefactSource.receipt = true

abbrev pub is_pending : RequestStatus → Bool
is_pending RequestStatus.pending = true
is_pending RequestStatus.approved = false
is_pending _ = false

abbrev pub is_pending_verification : RequestStatus → Bool
is_pending_verification RequestStatus.pending_verification = true
is_pending_verification RequestStatus.pending = false
is_pending_verification _ = false

abbrev pub is_signed_form : EvidenceKind → Bool
is_signed_form EvidenceKind.signed_form = true
is_signed_form EvidenceKind.other = false

-- The values, as they stand in messages.
pub status_value : ArtefactStatus → String
status_value ArtefactStatus.active = "active"
status_value ArtefactStatus.revoked = "revoked"
status_value ArtefactStatus.expired = "expired"

pub request_status_value : RequestStatus → String
request_status_value RequestStatus.pending = "pending"
request_status_value RequestStatus.approved = "approved"
request_status_value RequestStatus.denied = "denied"
request_status_value RequestStatus.expired = "expired"
request_status_value RequestStatus.pending_verification = "pending_verification"
request_status_value RequestStatus.rejected = "rejected"
request_status_value RequestStatus.cancelled = "cancelled"

pub evidence_kind_value : EvidenceKind → String
evidence_kind_value EvidenceKind.signed_form = "signed_form"
evidence_kind_value EvidenceKind.other = "other"
