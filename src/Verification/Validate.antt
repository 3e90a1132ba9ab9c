-- ===== src/Verification/Validate.antt =====
-- VerificationService.validate for a partner-signed consent, after its claims were vetted: the stored
-- decision of a repeat, freshness, the policy evaluation and the permit.
use consent_manager.Base.{
  ◌+◌, ◌-◌, String, Bool, not, ◌||◌, Option, none, some, ◌==◌, or_empty, ltb, Result, ok, err,
  if◌then◌else◌,
}
use consent_manager.Models.Status.{ReasonCode, ArtefactSource}
use consent_manager.Models.Rows.{Time, ConsentArtefact}
use consent_manager.Models.Database.{Database}
use consent_manager.Config.{Settings, seconds}
use consent_manager.Scopes.{sorted, list_eq}
use consent_manager.Policy.Records.{ConsentObject}
use consent_manager.Policy.Evaluate.{evaluate}
use consent_manager.Verification.Request.{
  ValidateRequest, Decision, refusal, Refusal, deny_with, subject_mismatch, subject_of,
}
use consent_manager.Verification.Jws.{JwsHeader, Libraries, consent_object}
use consent_manager.Verification.Decide.{
  Fresh, PermitOptions, existing_artefact, decision_from_artefact, permit_consent,
}
use consent_manager.Verification.Embedded.{
  Vetted, vet, by_policy, policy_refusal, subject_refusal, asked_use_case,
}

-- The stored artefact of the jti is of another consent: another partner, subject or scopes.
unfoldable pub reused_jti : ConsentArtefact → ConsentObject → Vetted → Bool
reused_jti a obj v =
    not (a.partner_id == v.material.partner.audience)
    || not (a.subject_id_type == obj.subject_id.type)
    || not (a.subject_id_value == obj.subject_id.value)
    || not (list_eq (sorted a.data_scopes) (sorted v.selected.grant.data_scopes))

-- A repeat: the same consent at the same controller has its stored decision.
unfoldable pub repeated :
    ValidateRequest
    → ConsentObject
    → Vetted
    → ConsentArtefact
    → Time
    → String
    → Database
    → Decision × Database
repeated parsed obj v a now ctx_hash db =
    if reused_jti a obj v
    then deny_with
        (by_policy obj v.selected.controller v.material
          (refusal ReasonCode.replay "jti already used for a different consent"))
        now ctx_hash db
    else if subject_mismatch (subject_of parsed.request_context) a.subject_id_type
        a.subject_id_value none
    then deny_with (subject_refusal obj v.selected.controller) now ctx_hash db
    else (decision_from_artefact a now, db)

-- `abs(now - issued_at) > window`
abbrev pub stale : Settings → Time → Time → Bool
stale config now issued_at =
    ltb (seconds config.replay_freshness_window_sec) ((now - issued_at) + (issued_at - now))

abbrev pub embedded_options : Option String → PermitOptions
embedded_options use_case = record {
  source = ArtefactSource.embedded;
  valid_until = none;
  receipt_jti = none;
  receipt_issuer = none;
  use_case = use_case;
}

-- The first presentation of a consent. The permit is committed on the database as other requests have
-- left it meanwhile.
unfoldable pub first_time :
    {P : Type 0}
    → Settings
    → Libraries P
    → ValidateRequest
    → ConsentObject
    → Vetted
    → Fresh
    → Time
    → String
    → Database
    → Decision × Database
first_time config lib parsed obj v fresh now ctx_hash db =
    let result = evaluate now v.material obj parsed.request_context (some v.selected.grant) in
    if stale config now obj.issued_at
    then deny_with
        (by_policy obj v.selected.controller v.material
          (refusal ReasonCode.replay "issued_at outside freshness window"))
        now ctx_hash db
    else if not result.permit
    then deny_with (policy_refusal obj v.selected.controller v.material result) now ctx_hash db
    else permit_consent lib.signer fresh obj v.selected.grant v.material.partner result
        (embedded_options (asked_use_case config parsed)) now ctx_hash (lib.meanwhile db)

unfoldable pub decide :
    {P : Type 0}
    → Settings
    → Libraries P
    → ValidateRequest
    → ConsentObject
    → Vetted
    → Fresh
    → Time
    → String
    → Option ConsentArtefact
    → Database
    → Decision × Database
decide config lib parsed obj v fresh now ctx_hash none db =
    first_time config lib parsed obj v fresh now ctx_hash db
decide config lib parsed obj v fresh now ctx_hash (some a) db =
    repeated parsed obj v a now ctx_hash db

unfoldable pub settle :
    {P : Type 0}
    → Settings
    → Libraries P
    → ValidateRequest
    → ConsentObject
    → Result Refusal Vetted
    → Fresh
    → Time
    → String
    → Database
    → Decision × Database
settle config lib parsed obj (err r) fresh now ctx_hash db = deny_with r now ctx_hash db
settle config lib parsed obj (ok v) fresh now ctx_hash db =
    decide config lib parsed obj v fresh now ctx_hash
      (existing_artefact obj.jti v.selected.controller db) db

abbrev pub undecodable : Refusal
undecodable = refusal ReasonCode.malformed_object "consent JWS could not be decoded"

unfoldable pub validate_object :
    {P : Type 0}
    → Settings
    → Libraries P
    → ValidateRequest
    → String
    → JwsHeader
    → Option ConsentObject
    → Fresh
    → Time
    → String
    → Database
    → Decision × Database
validate_object config lib parsed jws header none fresh now ctx_hash db =
    deny_with undecodable now ctx_hash db
validate_object config lib parsed jws header (some obj) fresh now ctx_hash db =
    settle config lib parsed obj (vet config lib parsed jws header obj) fresh now ctx_hash db

-- VerificationService.validate from the decoded claims on, for a JWS that is no consent token.
unfoldable pub validate_claims :
    {P : Type 0}
    → Settings
    → Libraries P
    → ValidateRequest
    → P
    → JwsHeader
    → Fresh
    → Time
    → Database
    → Decision × Database
validate_claims config lib parsed claims header fresh now db =
    validate_object config lib parsed (or_empty parsed.consent_jws) header
      (consent_object lib claims) fresh now (lib.hash_text (or_empty parsed.consent_jws)) db
