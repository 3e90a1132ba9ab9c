-- ===== src/Lifecycle/Within.antt =====
-- What the grants that an approval keeps have of the requested ones and of the policies.
use mathlib.Core.Path.{subst}
use consent_manager.Base.{
  String, true, Option, none, some, List, [], ◌∷◌, ◌≡◌, refl, inl, inr, arith, ok, err, Bool-cases,
  Result-cases,
}
use consent_manager.Models.Rows.{ApprovedGrant, PolicyFields}
use consent_manager.Models.Table
use consent_manager.Models.Table.{All-of}
use consent_manager.Scopes.{member, nonempty}
use consent_manager.Scopes.Laws.{member-narrowed}
use consent_manager.Policy.Records.{PmPolicy, policy_fields}
use consent_manager.Lifecycle.Errors.{Fallible}
use consent_manager.Lifecycle.UseCases.{Systems, Ceiling}
use consent_manager.Lifecycle.Narrow.{
  Approval, Kept, limits_for, kept_grant, keep_grant, collect, effective, approved_grants,
}

All-grants :
    (P : ApprovedGrant → Type 0) (kept : List Kept)
    → Table.All (λ (k : Kept). P k.grant) kept
    → Table.All P (approved_grants kept)
All-grants P [] h = tt
All-grants P (k ∷ ks) h = (h.0, All-grants P ks h.1)

module _ (out : Systems) (audience : String) (ceiling : Option Ceiling) where
  -- A scope that the policy of a controller, or the use case's scopes of it, allow now.
  abbrev pub AllowsNow : String → PolicyFields → String → Type 0
  AllowsNow c fields s =
      (policy : PmPolicy) × (allowed : List String) × (limits_for out audience ceiling c
        ≡ ok (some policy, allowed))
      × (fields ≡ policy_fields policy)
      × (member s allowed ≡ true)

  -- A kept grant is a requested one, each of its scopes approved and allowed now.
  abbrev pub IsNarrowed : (Approval → Type 0) → ApprovedGrant → Type 0
  IsNarrowed IsApproval g =
      (a : Approval) × IsApproval a
      × (g.data_controller ≡ a.grant.data_controller)
      × (g.data_scopes ≡ a.grant.data_scopes)
      × (nonempty g.effective_data_scopes ≡ true)
      × ((s : String)
          → member s g.effective_data_scopes ≡ true
          → (member s a.scopes ≡ true) × AllowsNow a.grant.data_controller g.policy s)

  kept_grant-IsNarrowed :
      (IsApproval : Approval → Type 0) (a : Approval) (policy : PmPolicy) (allowed : List String)
      → IsApproval a
      → limits_for out audience ceiling a.grant.data_controller ≡ ok (some policy, allowed)
      → nonempty (effective a.scopes allowed) ≡ true
      → IsNarrowed IsApproval (kept_grant a policy allowed).grant
  kept_grant-IsNarrowed IsApproval a policy allowed from limits left = (
    a,
    from,
    refl,
    refl,
    left,
    λ s m.
        let both = member-narrowed s a.scopes allowed in
        (ground arith, (policy, allowed, limits, refl, ground arith)),
  )

  keep_grant-IsNarrowed :
      (IsApproval : Approval → Type 0) (a : Approval) (limits : Option PmPolicy × List String)
      (rest : List Kept)
      → IsApproval a
      → limits_for out audience ceiling a.grant.data_controller ≡ ok limits
      → Table.All (λ (k : Kept). IsNarrowed IsApproval k.grant) rest
      → Table.All (λ (k : Kept). IsNarrowed IsApproval k.grant) (keep_grant a limits rest)
  unfolding keep_grant
  keep_grant-IsNarrowed IsApproval a (none, allowed) rest from e h = h
  keep_grant-IsNarrowed IsApproval a (some policy, allowed) rest from e h =
      elim (Bool-cases (nonempty (effective a.scopes allowed))) [
        | inl left ↦ rw left (kept_grant-IsNarrowed IsApproval a policy allowed from e left, h)
        | inr gone ↦ rw gone h
      ]

  abbrev pub AllIn : (Kept → Type 0) → Fallible (List Kept) → Type 0
  AllIn P (err e) = Unit
  AllIn P (ok kept) = Table.All P kept

  collect-AllIn :
      (IsApproval : Approval → Type 0) (approvals : List Approval)
      → Table.All IsApproval approvals
      → AllIn (λ k. IsNarrowed IsApproval k.grant) (collect out audience ceiling approvals)
  unfolding collect
  collect-AllIn IsApproval [] from = tt
  collect-AllIn IsApproval (a ∷ rest) from =
      elim (Result-cases (limits_for out audience ceiling a.grant.data_controller)) [
        | inr (e, failed) ↦ rw failed tt
        | inl (limits, found) ↦ rw found (elim (Result-cases (collect out audience ceiling rest)) [
          | inr (e, failed) ↦ rw failed tt
          | inl (kept, f) ↦ rw f (
              keep_grant-IsNarrowed IsApproval a limits kept from.0 found (
                subst (AllIn (λ k. IsNarrowed IsApproval k.grant)) f
                  (collect-AllIn IsApproval rest from.1)))
        ])
      ]

  pub collect-IsNarrowed :
      (IsApproval : Approval → Type 0) (approvals : List Approval) {kept : List Kept}
      → Table.All IsApproval approvals
      → collect out audience ceiling approvals ≡ ok kept
      → Table.All (IsNarrowed IsApproval) (approved_grants kept)
  collect-IsNarrowed IsApproval approvals {kept} from h = All-grants (IsNarrowed IsApproval) kept (
      subst (AllIn (λ k. IsNarrowed IsApproval k.grant)) h
        (collect-AllIn IsApproval approvals from))
