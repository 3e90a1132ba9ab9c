-- ===== src/Stored/Checks.antt =====
-- The checks of _validate_stored before the grants are narrowed: the consent's state, its partner, its
-- subject, and in use-case mode the use case and its policy.
use consent_manager.Base.{
  String, Bool, not, ◌&&◌, ◌||◌, Option, none, some, List, [], ◌∷◌, same, truthy, or_empty, ltb,
  text_of, Result, ok, err, ◌>>◌, raise_if, if◌then◌else◌,
}
use consent_manager.Models.Status.{ReasonCode, is_revoked, is_expired, is_active, status_value}
use consent_manager.Models.Rows.{Time, ConsentArtefact}
use consent_manager.Config.{Settings}
use consent_manager.Scopes.{keep, nonempty}
use consent_manager.Policy.Records.{PmPolicy, Material, RequestContext, no_policy_fields}
use consent_manager.Policy.Evaluate.{
  PolicyResult, allowed_by, max_delta, longer_than, refuse, shown,
}
use consent_manager.Policy.UseCase.{check_use_case}
use consent_manager.Verification.Request.{
  ValidateRequest, Refusal, refusal, subject_mismatch, subject_of, use_case_mode,
}
use consent_manager.Verification.Partners.{
  Answer, unavailable, answered, PolicySource, get_verification_material,
}
use consent_manager.Stored.Grants.{RecordedGrant}

-- `**log`: the refusals name the consent and its partner.
abbrev pub logged : ConsentArtefact → Refusal → Refusal
logged a r = record r { partner_id = some a.partner_id; consent_id = some a.id }

-- `data_controller=parsed.data_controller, **log`
abbrev pub asked : ValidateRequest → ConsentArtefact → Refusal → Refusal
asked parsed a r = record (logged a r) { data_controller = parsed.data_controller }

-- The consent's state.
unfoldable pub check_state : ConsentArtefact → Time → Result Refusal (Unit {0})
check_state a now = do
  raise_if (is_revoked a.status) (logged a (refusal ReasonCode.revoked "consent revoked"))
  raise_if (is_expired a.status || ltb a.valid_until now)
      (logged a (refusal ReasonCode.expired "consent expired"))
  raise_if (not (is_active a.status)) (
      logged a (
        refusal ReasonCode.unknown_consent
          (text_of ("consent is '" ∷ status_value a.status ∷ "'" ∷ []))))
  raise_if (ltb now a.valid_from)
      (logged a (refusal ReasonCode.not_yet_valid "consent not yet valid"))

-- The partner that obtained the consent, and the subject that the caller names.
unfoldable pub check_parties : ValidateRequest → ConsentArtefact → Result Refusal (Unit {0})
check_parties parsed a = do
  raise_if
      (not (truthy parsed.consent_partner_id && same parsed.consent_partner_id (some a.partner_id)))
      (logged a (
        refusal ReasonCode.partner_mismatch
          "consent_partner_id is not the partner the consent was given to"))
  raise_if
      (subject_mismatch (subject_of parsed.request_context) a.subject_id_type a.subject_id_value
        a.subject_identifiers)
      (logged a (
        refusal ReasonCode.subject_mismatch
          "request_context.subject_id does not match the consent subject"))

abbrev pub for_controller : Option String → RecordedGrant → Bool
for_controller controller g = same g.data_controller controller

-- The grants for the controller that the caller names, or all of them.
unfoldable pub select_stored :
    ValidateRequest → ConsentArtefact → List RecordedGrant → Result Refusal (List RecordedGrant)
select_stored parsed a stored =
    if truthy parsed.data_controller
    then (if nonempty (keep (for_controller parsed.data_controller) stored)
        then ok (keep (for_controller parsed.data_controller) stored)
        else err (
            asked parsed a (
              refusal ReasonCode.controller_not_granted (
                text_of (
                  "consent has no grant for data_controller '"
                  ∷ or_empty parsed.data_controller
                  ∷ "'"
                  ∷ [])))))
    else ok stored

-- The part of _stored_use_case_refusal after the gate: the policy's purposes, subject ID types and
-- maximum validity.
policy_limits : PmPolicy → ConsentArtefact → Option PolicyResult
policy_limits policy a =
    let fields = record no_policy_fields { policy_version = some policy.version } in
    if not (allowed_by policy.allowed_purposes a.purpose.code)
    then some (
        refuse ReasonCode.purpose_not_allowed
          (text_of ("purpose '" ∷ shown a.purpose.code ∷ "' not permitted" ∷ [])) fields)
    else if not (allowed_by policy.allowed_subject_id_types (some a.subject_id_type))
    then some (
        refuse ReasonCode.subject_not_allowed
          (text_of ("subject_id_type '" ∷ a.subject_id_type ∷ "' not permitted" ∷ [])) fields)
    else if longer_than (max_delta policy) a.valid_from a.valid_until
    then some
        (refuse ReasonCode.validity_exceeds_policy "validity longer than policy allows" fields)
    else none

-- VerificationService._stored_use_case_refusal
unfoldable pub stored_use_case_refusal :
    PmPolicy → RequestContext → ConsentArtefact → Option PolicyResult
unfolding policy_limits
stored_use_case_refusal policy ctx a = elim (check_use_case policy ctx a.purpose.code) [
  | some result ↦ some result
  | none ↦ policy_limits policy a
]

abbrev pub policy_unread : ValidateRequest → ConsentArtefact → Refusal
policy_unread parsed a = asked parsed a (
    refusal ReasonCode.policy_unavailable
      "the partner's policy could not be read from Partner Management")

use_case_refused :
    ValidateRequest
    → ConsentArtefact
    → PmPolicy
    → Option PolicyResult
    → Result Refusal (Option PmPolicy)
use_case_refused parsed a policy none = ok (some policy)
use_case_refused parsed a policy (some result) =
    err (record (asked parsed a (refusal result.reason "")) {
      detail = result.detail;
      policy = some policy;
    })

use_case_policy :
    ValidateRequest
    → RequestContext
    → ConsentArtefact
    → Answer Material
    → Result Refusal (Option PmPolicy)
unfolding use_case_refused
use_case_policy parsed ctx a unavailable = err (policy_unread parsed a)
use_case_policy parsed ctx a (answered none) = err (
    asked parsed a (
      refusal ReasonCode.use_case_not_granted (
        text_of (
          "partner has no active policy for use case '"
          ∷ shown ctx.use_case
          ∷ "' in Partner Management"
          ∷ []))))
use_case_policy parsed ctx a (answered (some material)) =
    use_case_refused parsed a material.policy (stored_use_case_refusal material.policy ctx a)

-- In use-case mode: the consent's use case is the caller's, and its policy admits the consent.
in_context :
    PolicySource
    → ValidateRequest
    → ConsentArtefact
    → Option RequestContext
    → Result Refusal (Option PmPolicy)
unfolding use_case_policy
in_context source parsed a none = ok none
in_context source parsed a (some ctx) = do
  raise_if (truthy a.use_case && not (same a.use_case ctx.use_case)) (
      asked parsed a (
        refusal ReasonCode.use_case_not_granted (
          text_of (
            "the consent was given for use case '"
            ∷ shown a.use_case
            ∷ "', not '"
            ∷ shown ctx.use_case
            ∷ "'"
            ∷ []))))
  use_case_policy parsed ctx a (get_verification_material source a.partner_id none ctx.use_case)

-- The use case's policy in use-case mode; None outside it.
unfoldable pub mode_policy :
    Settings → PolicySource → ValidateRequest → ConsentArtefact → Result Refusal (Option PmPolicy)
unfolding in_context
mode_policy config source parsed a =
    if use_case_mode config parsed
    then in_context source parsed a parsed.request_context
    else ok none
