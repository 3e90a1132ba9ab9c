-- ===== src/PolicyClient/Lookup.antt =====
-- PmPolicyClient.get_policy and get_use_case_policy over what its cache serves: they fill the
-- interface PolicySource of the partner service.
use consent_manager.Base.{
  String, Bool, true, not, ◌&&◌, Option, none, some, List, [], ◌∷◌, ◌≡◌, arith, same, same-true,
  truthy, or_empty, has_text, if◌then◌else◌,
}
use consent_manager.Policy.Records.{PmPolicy}
use consent_manager.PolicyClient.Cache.{Served, unavailable, served}
use consent_manager.Verification.Partners.{Answer, answered, PolicySource}

pub data Kind : Type 0 where
  data_controller use_case : Kind

abbrev pub is_scope_policy : String → PmPolicy → Bool
is_scope_policy controller p = same p.data_controller (some controller) && not (truthy p.use_case)

-- `next((p for p in policies if test(p)), None)`
unfoldable pub first_policy : (PmPolicy → Bool) → List PmPolicy → Option PmPolicy
first_policy test [] = none
first_policy test (p ∷ ps) = if test p then some p else first_policy test ps

unfoldable pub pick : (PmPolicy → Bool) → Served → Answer PmPolicy
unfolding first_policy
pick test unavailable = Answer.unavailable
pick test (served value) = answered (first_policy test value)

-- PmPolicyClient.get_policy; `read` is `_get` for a partner's PM id, a kind and a value.
unfoldable pub get_policy :
    (String → Kind → String → Served) → (String → String) → String → Option String → Answer PmPolicy
unfolding pick
get_policy read pm_partner_id audience controller =
    if truthy controller
    then pick (is_scope_policy (or_empty controller))
        (read (pm_partner_id audience) data_controller (or_empty controller))
    else answered none

-- PmPolicyClient.get_use_case_policy
unfoldable pub get_use_case_policy :
    (String → Kind → String → Served) → (String → String) → String → String → Answer PmPolicy
unfolding pick
get_use_case_policy read pm_partner_id audience name =
    if has_text name
    then pick (λ p. same p.use_case (some name)) (read (pm_partner_id audience) use_case name)
    else answered none

first_policy-passes :
    (test : PmPolicy → Bool) (ps : List PmPolicy) {p : PmPolicy}
    → first_policy test ps ≡ some p
    → test p ≡ true
unfolding first_policy
first_policy-passes test [] h = cc
first_policy-passes test (q ∷ ps) {p} h = ground (arith, first_policy-passes test ps {p = p})

pick-passes :
    (test : PmPolicy → Bool) (answer : Served) {p : PmPolicy}
    → pick test answer ≡ answered (some p)
    → test p ≡ true
unfolding pick
pick-passes test unavailable h = cc
pick-passes test (served value) {p} h = first_policy-passes test value {p = p} (ground arith)

pub get_policy-asked :
    (read : String → Kind → String → Served) (pm_partner_id : String → String) (audience c : String)
    {p : PmPolicy}
    → get_policy read pm_partner_id audience (some c) ≡ answered (some p)
    → p.data_controller ≡ some c
unfolding get_policy
get_policy-asked read pm_partner_id audience c {p} h =
    let answer = read (pm_partner_id audience) data_controller c in
    ground
      (arith, pick-passes (is_scope_policy c) answer {p = p}, same-true p.data_controller (some c))

pub get_use_case_policy-asked :
    (read : String → Kind → String → Served) (pm_partner_id : String → String) (audience u : String)
    {p : PmPolicy}
    → get_use_case_policy read pm_partner_id audience u ≡ answered (some p)
    → p.use_case ≡ some u
unfolding get_use_case_policy
get_use_case_policy-asked read pm_partner_id audience u {p} h =
    let answer = read (pm_partner_id audience) use_case u in
    ground (
      arith,
      pick-passes (λ q. same q.use_case (some u)) answer {p = p},
      same-true p.use_case (some u),
    )

-- The client as the source of the partner service's policies.
unfoldable pub policy_source : (String → Kind → String → Served) → (String → String) → PolicySource
unfolding get_policy get_use_case_policy
policy_source read pm_partner_id = record {
  get_policy = get_policy read pm_partner_id;
  get_use_case_policy = get_use_case_policy read pm_partner_id;
  pm_partner_id = pm_partner_id;
  for_controller = λ audience c {p} h. get_policy-asked read pm_partner_id audience c {p = p} h;
  for_use_case =
      λ audience u {p} h. get_use_case_policy-asked read pm_partner_id audience u {p = p} h;
}
