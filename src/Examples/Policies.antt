-- ===== src/Examples/Policies.antt =====
-- PolicyService at the example consent.
use mathlib.Core.Logic.{◌↔◌}
use consent_manager.Base.{true, false, ◌&&◌, ◌≡◌, ◌≢◌, ◌⊎◌, refl, none, some, [], ◌∷◌, truthy}
use consent_manager.Scopes.{member, inter, to_set, sorted}
use consent_manager.Policy.Records.{RequestContext, requested}
use consent_manager.Policy.Evaluate.{evaluate, requested_of, effective_of, max_delta}
use consent_manager.Policy.Ceiling.{asks_for, lets_through}
use consent_manager.Policy.Decides.{Permitted, evaluate-Permitted, evaluate-scopes}
use consent_manager.Policy.UseCase.{check_use_case, check_use_case-passes}
use consent_manager.Duration.{iso_duration_to_timedelta}
use consent_manager.Examples.Data.{policy, material, grant, consent}

consent_is_permitted :
    (evaluate 2000 material consent none (some grant)).effective_scopes ≡ "name" ∷ []
unfolding evaluate effective_of max_delta iso_duration_to_timedelta inter to_set sorted member
consent_is_permitted = refl

evaluate_permits : (evaluate 2000 material consent none (some grant)).permit ≡ true
unfolding evaluate effective_of max_delta iso_duration_to_timedelta inter to_set sorted member
evaluate_permits = refl

evaluate-Permitted_example :
    ((evaluate 2000 material consent none (some grant)).permit ≡ true)
    ↔ Permitted 2000 material consent none grant
evaluate-Permitted_example = evaluate-Permitted 2000 material consent none grant

evaluate-scopes_example :
    member "income" (evaluate 2000 material consent none (some grant)).effective_scopes
    ≡ member "income" grant.data_scopes
      && lets_through material.policy "income"
      && asks_for (requested_of none) "income"
evaluate-scopes_example = evaluate-scopes 2000 material consent none grant "income" evaluate_permits

abbrev context : RequestContext
context = record {
  requested_scopes = some ("name" ∷ []);
  subject_id = none;
  use_case = some "loan@1";
  purpose = some "loan";
}

check_use_case-passes_example : (check_use_case policy context (some "loan") ≡ none) ↔ (
    (truthy context.use_case ≡ true)
    × (policy.use_case ≡ context.use_case)
    × (requested context.requested_scopes ≢ none)
    × ((truthy context.purpose ≡ false) ⊎ (some "loan" ≡ context.purpose)))
check_use_case-passes_example = check_use_case-passes policy context (some "loan")
