-- ===== src/Policy/Evaluate.antt =====
-- PolicyService.evaluate: one grant of a consent against a partner's policy.
use consent_manager.Base.{
  ℕ, ◌-◌, String, Bool, true, false, not, ◌||◌, Option, none, some, List, [], ◌∷◌, ◌==◌, same,
  truthy, or_empty, ltb, if◌then◌else◌, text_of,
}
use consent_manager.Models.Rows.{Time, PolicyFields, ConsentGrant, Duration}
use consent_manager.Models.Status.{ReasonCode}
use consent_manager.Scopes.{member, nonempty, inter, to_set, sorted}
use consent_manager.Duration.{iso_duration_to_timedelta}
use consent_manager.Policy.Records.{
  PmPolicy, Material, PartnerRef, ConsentObject, RequestContext, is_use_case, grant_for, requested,
  policy_ref,
}

pub record PolicyResult : Type 0 where
  pub permit : Bool
  pub reason : ReasonCode
  pub detail : Option String
  pub effective_scopes : List String
  pub policy : PolicyFields

-- The value is in the list, or the list is empty; None is in no list.
abbrev pub allowed_by : List String → Option String → Bool
allowed_by [] value = true
allowed_by (a ∷ as') none = false
allowed_by (a ∷ as') (some value) = member value (a ∷ as')

-- The limit of a policy: None without one, or where its text is no duration (ValueError).
unfoldable pub max_delta : PmPolicy → Option Duration
max_delta policy =
    if truthy policy.max_validity_duration
    then iso_duration_to_timedelta (or_empty policy.max_validity_duration)
    else none

-- `valid_until - valid_from > max_delta`. A negative difference is 0 here, and exceeds no limit
-- there or here.
abbrev pub longer_than : Option Duration → Time → Time → Bool
longer_than none valid_from valid_until = false
longer_than (some limit) valid_from valid_until = ltb limit (valid_until - valid_from)

-- The ceiling of step 7: a use-case policy has no scopes of its own.
abbrev pub ceiling : PmPolicy → List String → List String
ceiling policy consented =
    if is_use_case policy then consented else to_set policy.allowed_data_scopes

abbrev pub narrow : Option (List String) → List String → List String
narrow none scopes = scopes
narrow (some wanted) scopes = inter scopes (to_set wanted)

-- The requested scopes of a context that may be None.
abbrev pub requested_of : Option RequestContext → Option (List String)
requested_of none = none
requested_of (some ctx) = requested ctx.requested_scopes

-- Step 7: granted ∩ policy ∩ requested.
unfoldable pub effective_of : PmPolicy → ConsentGrant → Option RequestContext → List String
effective_of policy grant ctx =
    narrow (requested_of ctx)
      (inter (to_set grant.data_scopes) (ceiling policy (to_set grant.data_scopes)))

-- Step 4: the grant is for the controller that the policy is for.
abbrev pub controller_ok : PmPolicy → PartnerRef → ConsentGrant → Bool
controller_ok policy partner grant =
    is_use_case policy || same (some grant.data_controller) partner.controller_id

versioned : ℕ → PolicyFields
versioned version = record { policy_version = some version; policy_id = none; policy_ref = none }

abbrev pub refuse : ReasonCode → String → PolicyFields → PolicyResult
refuse reason detail fields = record {
  permit = false;
  reason = reason;
  detail = some detail;
  effective_scopes = [];
  policy = fields;
}

-- None interpolated in a message
abbrev pub shown : Option String → String
shown none = "None"
shown (some s) = s

-- Steps 5 to 8, for a grant that passed step 4.
check_grant : Time → PmPolicy → ConsentObject → Option RequestContext → ConsentGrant → PolicyResult
unfolding versioned
check_grant now policy obj ctx grant =
    let fields = versioned policy.version in
    let effective = effective_of policy grant ctx in
    if not (allowed_by policy.allowed_subject_id_types (some obj.subject_id.type))
    then refuse ReasonCode.subject_not_allowed
        (text_of ("subject_id_type '" ∷ obj.subject_id.type ∷ "' not permitted" ∷ [])) fields
    else if not (allowed_by policy.allowed_purposes obj.purpose.code)
    then refuse ReasonCode.purpose_not_allowed
        (text_of ("purpose '" ∷ shown obj.purpose.code ∷ "' not permitted" ∷ [])) fields
    else if not (nonempty effective)
    then refuse ReasonCode.scope_exceeds_policy "no requested scope is permitted by policy" fields
    else if ltb now obj.valid_from
    then refuse ReasonCode.expired "not yet valid" fields
    else if ltb obj.valid_until now
    then refuse ReasonCode.expired "consent expired" fields
    else if longer_than (max_delta policy) obj.valid_from obj.valid_until
    then refuse ReasonCode.validity_exceeds_policy "validity longer than policy allows" fields
    else record {
      permit = true;
      reason = ReasonCode.ok;
      detail = none;
      effective_scopes = sorted effective;
      policy = fields;
    }

-- `grant = consent_object.grant_for(consent_object.data_controller or "")` by default
abbrev default_grant : ConsentObject → Option ConsentGrant → Option ConsentGrant
default_grant obj (some grant) = some grant
default_grant obj none = grant_for (or_empty obj.data_controller) obj

check_audience :
    Time → Material → ConsentObject → Option RequestContext → Option ConsentGrant → PolicyResult
unfolding check_grant
check_audience now material obj ctx none =
    if not (obj.aud == material.partner.audience)
    then refuse ReasonCode.audience_mismatch "aud does not match the partner"
        (versioned material.policy.version)
    else refuse ReasonCode.audience_mismatch "data_controller does not match the partner's policy"
        (versioned material.policy.version)
check_audience now material obj ctx (some grant) =
    if not (obj.aud == material.partner.audience)
    then refuse ReasonCode.audience_mismatch "aud does not match the partner"
        (versioned material.policy.version)
    else if not (controller_ok material.policy material.partner grant)
    then refuse ReasonCode.audience_mismatch "data_controller does not match the partner's policy"
        (versioned material.policy.version)
    else check_grant now material.policy obj ctx grant

-- PolicyService._evaluate
pub evaluate_grant :
    Time → Material → ConsentObject → Option RequestContext → Option ConsentGrant → PolicyResult
unfolding check_audience
evaluate_grant now material obj ctx grant =
    check_audience now material obj ctx (default_grant obj grant)

-- PolicyService.evaluate: the result carries the policy's full reference. Partner Management's answer
-- always holds a policy, so the case of a material without one is left out.
unfoldable pub evaluate :
    Time → Material → ConsentObject → Option RequestContext → Option ConsentGrant → PolicyResult
unfolding evaluate_grant
evaluate now material obj ctx grant =
    let result = evaluate_grant now material obj ctx grant in
    record result {
      policy = record {
        policy_version = result.policy.policy_version;
        policy_id = material.policy.id;
        policy_ref = some (policy_ref material.policy);
      };
    }
