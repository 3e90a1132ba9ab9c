-- ===== src/Verification/Embedded.antt =====
-- VerificationService.validate on a partner-signed consent (consent_jws): from the request to the
-- stored decision. A step refuses with what it hands to `_deny`, or goes on.
use consent_manager.Base.{
  String, Bool, not, ◌&&◌, Option, none, some, List, [], ◌∷◌, same, truthy, or_empty, text_of,
  Result, ok, err, ◌>>=◌, ◌>>◌, raise_if, if◌then◌else◌,
}
use consent_manager.Models.Status.{ReasonCode}
use consent_manager.Models.Rows.{ConsentGrant}
use consent_manager.Config.{Settings}
use consent_manager.Policy.Records.{Material, ConsentObject, RequestContext, has_grants, grant_for}
use consent_manager.Policy.Evaluate.{PolicyResult, allowed_by}
use consent_manager.Policy.UseCase.{check_use_case}
use consent_manager.Verification.Request.{
  ValidateRequest, Refusal, refusal, use_case_mode, use_case_of, subject_mismatch, subject_of,
}
use consent_manager.Verification.Partners.{Answer, unavailable, answered, get_verification_material}
use consent_manager.Verification.Jws.{JwsHeader, Libraries}

pub record Selected : Type 0 where
  pub controller : String
  pub grant : ConsentGrant

-- The refusals after the claims are read name the consent's jti and the controller.
abbrev pub about : ConsentObject → Option String → Refusal → Refusal
about obj controller r = record r { jti = some obj.jti; data_controller = controller }

-- 1. Grant selection. The legacy form has both its fields: `_one_shape` has seen to it. An empty
-- data_controller, on which the code's ConsentGrant raises, is taken like any other here.
select_granted : ConsentObject → String → Option ConsentGrant → Result Refusal Selected
select_granted obj controller (some grant) = ok (record { controller = controller; grant = grant })
select_granted obj controller none = err (
    about obj (some controller) (
      refusal ReasonCode.controller_not_granted
        (text_of ("consent has no grant for data_controller '" ∷ controller ∷ "'" ∷ []))))

scopes_of : Option (List String) → List String
scopes_of none = []
scopes_of (some scopes) = scopes

unfoldable pub select_grant : ValidateRequest → ConsentObject → Result Refusal Selected
unfolding select_granted scopes_of
select_grant parsed obj =
    if has_grants obj
    then (if truthy parsed.data_controller
        then select_granted obj (or_empty parsed.data_controller)
            (grant_for (or_empty parsed.data_controller) obj)
        else err
            (record (refusal ReasonCode.malformed_object
              "data_controller is required when the consent carries grants") {
                jti = some obj.jti;
              }))
    else if truthy parsed.data_controller && not (same parsed.data_controller obj.data_controller)
    then err (
        about obj parsed.data_controller (
          refusal ReasonCode.controller_not_granted (
            text_of (
              "consent is for data_controller '"
              ∷ or_empty obj.data_controller
              ∷ "', not '"
              ∷ or_empty parsed.data_controller
              ∷ "'"
              ∷ []))))
    else ok (record {
      controller = or_empty obj.data_controller;
      grant = record {
        data_controller = or_empty obj.data_controller;
        data_scopes = scopes_of obj.data_scopes;
      };
    })

-- 1b. The caller's subject.
abbrev pub subject_refusal : ConsentObject → String → Refusal
subject_refusal obj controller = about obj (some controller) (
    refusal ReasonCode.subject_mismatch
      "request_context.subject_id does not match the consent subject")

check_subject : ValidateRequest → ConsentObject → String → Result Refusal (Unit {0})
check_subject parsed obj controller =
    raise_if
      (subject_mismatch (subject_of parsed.request_context) obj.subject_id.type obj.subject_id.value
        none)
      (subject_refusal obj controller)

-- 2. The partner's policy in Partner Management.
abbrev pub asked_use_case : Settings → ValidateRequest → Option String
asked_use_case config parsed =
    if use_case_mode config parsed then use_case_of parsed.request_context else none

material_or_refusal :
    Bool → ValidateRequest → ConsentObject → String → Answer Material → Result Refusal Material
material_or_refusal mode parsed obj controller unavailable = err (
    about obj (some controller) (
      refusal ReasonCode.policy_unavailable
        "the partner's policy could not be read from Partner Management"))
material_or_refusal mode parsed obj controller (answered none) = err (
    about obj (some controller) (
      if mode
      then refusal ReasonCode.use_case_not_granted (
          text_of (
            "partner has no active policy for use case '"
            ∷ or_empty (use_case_of parsed.request_context)
            ∷ "' in Partner Management"
            ∷ []))
      else refusal ReasonCode.unknown_partner (
          text_of (
            "partner has no active policy for data_controller '" ∷ controller
            ∷ "' in Partner Management (unknown, inactive or not granted)" ∷ []))))
material_or_refusal mode parsed obj controller (answered (some material)) = ok material

-- The refusals after the policy is read name the partner and the policy too.
abbrev pub by_policy : ConsentObject → String → Material → Refusal → Refusal
by_policy obj controller material r = record (about obj (some controller) r) {
  partner_id = some material.partner.audience;
  policy = some material.policy;
}

-- 2b and 3. The policy accepts partner-signed consents, and the signature verifies.
check_signature :
    {P : Type 0}
    → Libraries P
    → String
    → JwsHeader
    → ConsentObject
    → String
    → Material
    → Result Refusal (Unit {0})
check_signature lib jws header obj controller material = do
  raise_if (not material.policy.allow_partner_consents) (
      by_policy obj controller material (
        refusal ReasonCode.partner_consent_not_accepted
          "the partner's policy does not accept consents it signed itself (allow_partner_consents)"))
  raise_if (not (allowed_by material.policy.allowed_signing_algs header.alg)) (
      by_policy obj controller material
        (refusal ReasonCode.signature_invalid "signing algorithm not permitted"))
  raise_if (not (lib.verify_jwt jws material.partner.partner_mgmt_id)) (
      by_policy obj controller material (
        refusal ReasonCode.signature_invalid
          "signature did not verify (or no verifying key from partner management)"))

-- A PolicyResult that refuses, as `_deny` logs it.
abbrev pub policy_refusal : ConsentObject → String → Material → PolicyResult → Refusal
policy_refusal obj controller material result =
    record (by_policy obj controller material (refusal result.reason "")) { detail = result.detail }

-- 3b. The gate of the use-case mode.
gate : Option RequestContext → ConsentObject → String → Material → Result Refusal (Unit {0})
gate none obj controller material = ok tt
gate (some ctx) obj controller material =
    elim (check_use_case material.policy ctx obj.purpose.code) [
      | none ↦ ok tt
      | some result ↦ err (policy_refusal obj controller material result)
    ]

check_mode :
    Settings → ValidateRequest → ConsentObject → String → Material → Result Refusal (Unit {0})
unfolding gate
check_mode config parsed obj controller material =
    if use_case_mode config parsed
    then gate parsed.request_context obj controller material
    else ok tt

-- What the steps before the idempotency lookup establish.
pub record Vetted : Type 0 where
  pub selected : Selected
  pub material : Material

unfoldable pub vet :
    {P : Type 0}
    → Settings
    → Libraries P
    → ValidateRequest
    → String
    → JwsHeader
    → ConsentObject
    → Result Refusal Vetted
unfolding check_subject material_or_refusal check_signature check_mode
vet config lib parsed jws header obj = do
  selected ← select_grant parsed obj
  check_subject parsed obj selected.controller
  material ← material_or_refusal (use_case_mode config parsed) parsed obj selected.controller (
      get_verification_material lib.policies obj.aud (some selected.controller)
        (asked_use_case config parsed))
  check_signature lib jws header obj selected.controller material
  check_mode config parsed obj selected.controller material
  ok (record { selected = selected; material = material })
