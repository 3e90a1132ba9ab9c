-- ===== src/Policy/UseCase.antt =====
-- PolicyService.check_use_case: the gate of the use-case mode.
use mathlib.Core.Logic.{◌↔◌}
use consent_manager.Base.{
  true, false, ◌≡◌, ◌≢◌, ◌⊎◌, inl, inr, same-true, same_refl, Bool-cases, arith, String, not, ◌&&◌,
  ◌||◌, Option, none, some, [], ◌∷◌, same, truthy, text_of, if◌then◌else◌,
}
use consent_manager.Models.Status.{ReasonCode}
use consent_manager.Policy.Records.{PmPolicy, RequestContext, requested, no_policy_fields}
use consent_manager.Policy.Evaluate.{PolicyResult, refuse, shown}

-- None where the policy is the use case's, the use case's scopes are given, and the consent's purpose
-- is the one that it serves (when given).
unfoldable pub check_use_case : PmPolicy → RequestContext → Option String → Option PolicyResult
check_use_case policy ctx purpose_code =
    let fields = record no_policy_fields { policy_version = some policy.version } in
    if not (truthy ctx.use_case) || not (same policy.use_case ctx.use_case)
    then some (
        refuse ReasonCode.use_case_not_granted
          (text_of (
            "use case '"
            ∷ shown ctx.use_case
            ∷ "' is not granted to the partner in Partner Management"
            ∷ []))
          fields)
    else elim (requested ctx.requested_scopes) [
      | none ↦ some (
          refuse ReasonCode.scope_exceeds_policy
            "use-case mode needs request_context.requested_scopes (the use case's scopes)" fields)
      | some _ ↦
          if truthy ctx.purpose && not (same purpose_code ctx.purpose)
          then some (
              refuse ReasonCode.purpose_not_allowed
                (text_of (
                  "consent purpose '"
                  ∷ shown purpose_code
                  ∷ "' is not the use case's purpose '"
                  ∷ shown ctx.purpose
                  ∷ "'"
                  ∷ []))
                fields)
          else none
    ]

purpose_fits :
    (wanted given : Option String)
    → (truthy wanted && not (same given wanted)) ≡ false
    → (truthy wanted ≡ false) ⊎ (given ≡ wanted)
purpose_fits wanted given h = elim (Bool-cases (truthy wanted)) [
  | inl t ↦ inr (same-true given wanted (ground (arith, t)))
  | inr f ↦ inl f
]

same_of_eq : (a b : Option String) → a ≡ b → same a b ≡ true
same_of_eq a b e = rw e (same_refl b)

purpose_checked :
    (wanted given : Option String)
    → (truthy wanted ≡ false) ⊎ (given ≡ wanted)
    → (truthy wanted && not (same given wanted)) ≡ false
purpose_checked wanted given (inl f) = rw f
purpose_checked wanted given (inr e) = ground (arith, same_of_eq given wanted e)

-- `check_use_case` lets a request through exactly when it names a use case, the policy is that use
-- case's, the use case's scopes are given, and the consent's purpose is the one that the use case
-- serves (where the request names one).
pub check_use_case-passes :
    (policy : PmPolicy) (ctx : RequestContext) (purpose_code : Option String)
    → (check_use_case policy ctx purpose_code ≡ none) ↔ (
        (truthy ctx.use_case ≡ true)
        × (policy.use_case ≡ ctx.use_case)
        × (requested ctx.requested_scopes ≢ none)
        × ((truthy ctx.purpose ≡ false) ⊎ (purpose_code ≡ ctx.purpose)))
unfolding check_use_case
check_use_case-passes policy ctx purpose_code = (
  λ h. (
    ground arith,
    same-true _ _ (ground arith),
    ground arith,
    purpose_fits ctx.purpose purpose_code (ground arith),
  ),
  λ p.
      let uc = same_of_eq policy.use_case ctx.use_case p.1 in
      let pu = purpose_checked ctx.purpose purpose_code p.3 in ground (arith, uc, pu),
)
