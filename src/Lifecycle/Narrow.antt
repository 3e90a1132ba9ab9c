-- ===== src/Lifecycle/Narrow.antt =====
-- How an approval narrows requested grants: to the use case's scopes now, or else to the partner's
-- current policies (LifecycleService._approve_grants, AssistedConsentService.approve).
use consent_manager.Base.{
  String, Bool, Option, none, some, List, [], ◌∷◌, map, ◌==◌, same, has_text, ok, ◌>>=◌,
  if◌then◌else◌, ◌&&◌, eqb, ℕ, false, true,
}
use consent_manager.Models.Rows.{PolicyFields, RequestedGrant, ApprovedGrant}
use consent_manager.Scopes.{nonempty, inter, to_set, sorted, union_of}
use consent_manager.Policy.Records.{PmPolicy, policy_fields, no_policy_fields}
use consent_manager.Composite.Records.{UseCaseGrant}
use consent_manager.Lifecycle.Errors.{Fallible}
use consent_manager.Lifecycle.UseCases.{Systems, Ceiling, current_policy}

-- `{g["data_controller"]: set(g["data_scopes"]) for g in grants}.get(controller, set())`: of equal
-- keys the last counts.
unfoldable pub scopes_for : String → List UseCaseGrant → List String → List String
scopes_for c [] found = found
scopes_for c (g ∷ gs) found =
    scopes_for c gs (if g.data_controller == c then to_set g.data_scopes else found)

unfoldable pub limits_of_policy : Option PmPolicy → Option PmPolicy × List String
limits_of_policy none = (none, [])
limits_of_policy (some policy) = (some policy, to_set policy.allowed_data_scopes)

-- The policy that a controller's grant comes under, and the scopes allowed.
unfoldable pub limits_for :
    Systems → String → Option Ceiling → String → Fallible (Option PmPolicy × List String)
unfolding limits_of_policy scopes_for
limits_for out audience (some ceiling) c = ok (some ceiling.policy, scopes_for c ceiling.grants [])
limits_for out audience none c = do
  policy ← current_policy out audience (some c)
  ok (limits_of_policy policy)

-- A requested grant with the scopes that are approved of it.
pub record Approval : Type 0 where
  pub grant : RequestedGrant
  pub scopes : List String

-- A grant that stays, with the policy that it is under.
pub record Kept : Type 0 where
  pub grant : ApprovedGrant
  pub policy : PmPolicy

-- `sorted(set(scopes) & allowed)`
abbrev pub effective : List String → List String → List String
effective scopes allowed = sorted (inter (to_set scopes) allowed)

abbrev pub kept_grant : Approval → PmPolicy → List String → Kept
kept_grant a policy allowed = record {
  grant = record {
    data_controller = a.grant.data_controller;
    data_scopes = a.grant.data_scopes;
    granted_scopes = sorted a.scopes;
    effective_data_scopes = effective a.scopes allowed;
    policy = policy_fields policy;
  };
  policy = policy;
}

-- A grant with no scope left is dropped. Without a policy no scope is left.
unfoldable pub keep_grant : Approval → Option PmPolicy × List String → List Kept → List Kept
keep_grant a (none, allowed) rest = rest
keep_grant a (some policy, allowed) rest =
    if nonempty (effective a.scopes allowed) then kept_grant a policy allowed ∷ rest else rest

-- `for ... in requested`
unfoldable pub collect : Systems → String → Option Ceiling → List Approval → Fallible (List Kept)
unfolding keep_grant limits_for
collect out audience ceiling [] = ok []
collect out audience ceiling (a ∷ rest) = do
  limits ← limits_for out audience ceiling a.grant.data_controller
  kept ← collect out audience ceiling rest
  ok (keep_grant a limits kept)

-- `fetch_type = fetch_type or policy.fetch_type`, and at the end `fetch_type or "oneshot"`
unfoldable pub fetch_type_of : List Kept → String
fetch_type_of [] = "oneshot"
fetch_type_of (k ∷ ks) =
    let rest = fetch_type_of ks in
    if has_text k.policy.fetch_type then k.policy.fetch_type else rest

abbrev same_number : Option ℕ → Option ℕ → Bool
same_number none none = true
same_number (some a) (some b) = eqb a b
same_number _ _ = false

abbrev same_fields : PolicyFields → PolicyFields → Bool
same_fields f g =
    same_number f.policy_version g.policy_version
    && same f.policy_id g.policy_id
    && same f.policy_ref g.policy_ref

all_under : PolicyFields → List ApprovedGrant → Bool
all_under fields [] = true
all_under fields (g ∷ gs) = same_fields g.policy fields && all_under fields gs

-- pm_policy_client.py: common_policy_fields
unfoldable pub common_policy_fields : List ApprovedGrant → PolicyFields
unfolding all_under
common_policy_fields [] = no_policy_fields
common_policy_fields (g ∷ gs) = if all_under g.policy gs then g.policy else no_policy_fields

abbrev pub approved_grants : List Kept → List ApprovedGrant
approved_grants kept = map (λ (k : Kept). k.grant) kept

-- `grants[0]["data_controller"] if len(grants) == 1 else None`
abbrev pub sole_controller : List ApprovedGrant → Option String
sole_controller [] = none
sole_controller (g ∷ []) = some g.data_controller
sole_controller (g ∷ h ∷ gs) = none

-- `sorted({s for g in grants for s in g["effective_data_scopes"]})`
abbrev pub all_effective : List ApprovedGrant → List String
all_effective gs =
    sorted (to_set (union_of (map (λ (g : ApprovedGrant). g.effective_data_scopes) gs)))
