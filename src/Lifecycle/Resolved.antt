-- ===== src/Lifecycle/Resolved.antt =====
-- What resolve_grants and resolve_use_case have checked, when they return.
use mathlib.Core.Path.{subst}
use consent_manager.Base.{
  String, true, false, not, ◌&&◌, ◌||◌, Option, none, some, List, [], ◌∷◌, ◌≡◌, refl, map, truthy,
  same, has_text, arith, ok, err, raise_if-ok, ok-injective, Bool-cases, Result-cases, inl, inr,
}
use consent_manager.Models.Rows.{Time, ConsentGrant, RequestedGrant}
use consent_manager.Models.Table
use consent_manager.Scopes.{nonempty, is_subset, to_set}
use consent_manager.Duration.{codes}
use consent_manager.Policy.Records.{PmPolicy, policy_fields}
use consent_manager.Policy.Evaluate.{allowed_by}
use consent_manager.Composite.Records.{UseCase}
use consent_manager.Composite.Client.{Reading, published}
use consent_manager.Composite.Reference.{is_use_case_ref}
use consent_manager.Lifecycle.Errors.{Fallible}
use consent_manager.Lifecycle.UseCases.{
  Systems, current_policy, use_case_policy, read_use_case, granted_use_case, granted_policy,
  marked_grant, within_policy, resolve_grants, resolve_use_case, exceeds, usable, consentable,
}

-- A requested grant with the partner's current policy for its controller, which allows its scopes.
abbrev pub IsResolved : Systems → String → RequestedGrant × PmPolicy → Type 0
IsResolved out audience (g, policy) =
    (current_policy out audience (some g.data_controller) ≡ ok (some policy))
    × (is_subset (to_set g.data_scopes) (to_set policy.allowed_data_scopes) ≡ true)
    × (g.policy ≡ policy_fields policy)
    × (g.use_case ≡ none)

-- The grants are those asked for, in order.
abbrev pub Asked : List ConsentGrant → List (RequestedGrant × PmPolicy) → Type 0
Asked [] [] = Unit
Asked [] (r ∷ rs) = ⊥
Asked (g ∷ gs) [] = ⊥
Asked (g ∷ gs) (r ∷ rs) =
    (r.0.data_controller ≡ g.data_controller) × (r.0.data_scopes ≡ g.data_scopes) × Asked gs rs

module _ (out : Systems) (audience : String) where
  abbrev Resolved : List ConsentGrant → Fallible (List (RequestedGrant × PmPolicy)) → Type 0
  Resolved gs (err e) = Unit
  Resolved gs (ok rs) = Table.All (IsResolved out audience) rs × Asked gs rs

  abbrev ResolvedOne : ConsentGrant → Fallible (RequestedGrant × PmPolicy) → Type 0
  ResolvedOne g (err e) = Unit
  ResolvedOne g (ok r) =
      IsResolved out audience r
      × (r.0.data_controller ≡ g.data_controller)
      × (r.0.data_scopes ≡ g.data_scopes)

  within_policy-Resolved :
      (g : ConsentGrant) (policy : Option PmPolicy)
      → current_policy out audience (some g.data_controller) ≡ ok policy
      → ResolvedOne g (within_policy g policy)
  unfolding within_policy
  within_policy-Resolved g none e = tt
  within_policy-Resolved g (some policy) e =
      elim (Bool-cases (is_subset (to_set g.data_scopes) (to_set policy.allowed_data_scopes))) [
        | inl sub ↦ rw sub ((e, sub, refl, refl), refl, refl)
        | inr not_sub ↦ rw not_sub tt
      ]

  resolve_grants-Resolved : (gs : List ConsentGrant) → Resolved gs (resolve_grants out audience gs)
  unfolding resolve_grants
  resolve_grants-Resolved [] = (tt, tt)
  resolve_grants-Resolved (g ∷ gs) =
      elim (Result-cases (current_policy out audience (some g.data_controller))) [
        | inr (e, failed) ↦ rw failed tt
        | inl (policy, found) ↦ rw found (elim (Result-cases (within_policy g policy)) [
          | inr (e, failed) ↦ rw failed tt
          | inl (r, within) ↦ rw within (elim (Result-cases (resolve_grants out audience gs)) [
            | inr (e, failed) ↦ rw failed tt
            | inl (rs, rest) ↦
                let one = subst (ResolvedOne g) within (within_policy-Resolved g policy found) in
                let more = subst (Resolved gs) rest (resolve_grants-Resolved gs) in
                rw rest ((one.0, more.0), (one.1, one.2, more.1))
          ])
        ])
      ]

  pub resolve_grants-IsResolved :
      (gs : List ConsentGrant) {rs : List (RequestedGrant × PmPolicy)}
      → resolve_grants out audience gs ≡ ok rs
      → Table.All (IsResolved out audience) rs × Asked gs rs
  resolve_grants-IsResolved gs {rs} h = subst (Resolved gs) h (resolve_grants-Resolved gs)

  -- What granted_use_case has checked: the reference, the partner's policy and the use case.
  abbrev pub IsGranted : String → PmPolicy → UseCase → Type 0
  IsGranted ref policy u =
      (is_use_case_ref (codes ref) ≡ true)
      × (use_case_policy out audience ref ≡ ok (some policy))
      × (out.use_cases.read ref ≡ published (some u))
      × (nonempty u.unscoped_controllers ≡ false)
      × (nonempty u.grants ≡ true)
      × (truthy u.purpose ≡ true)

  read_use_case-ok :
      (ref : String) (reading : Reading) {u : UseCase}
      → usable ref reading ≡ ok u
      → (reading ≡ published (some u))
        × (nonempty u.unscoped_controllers ≡ false)
        × (nonempty u.grants ≡ true)
        × (truthy u.purpose ≡ true)
  unfolding usable consentable
  read_use_case-ok ref Reading.unavailable h = cc
  read_use_case-ok ref (published none) h = cc
  read_use_case-ok ref (published (some v)) {u} h =
      let (scoped, h1) =
        raise_if-ok (nonempty v.unscoped_controllers || not (nonempty v.grants)) _ _ h in
      let (purposed, made) = raise_if-ok (not (truthy v.purpose)) _ _ h1 in
      let same_use_case : v ≡ u = ok-injective made in
      subst
        (λ x.
          (◌≡◌ {A = Reading} (published (some v)) (published (some x)))
          × (nonempty x.unscoped_controllers ≡ false)
          × (nonempty x.grants ≡ true)
          × (truthy x.purpose ≡ true))
        same_use_case (refl, ground arith, ground arith, ground arith)

  pair-injective :
      {p p' : PmPolicy} {u u' : UseCase}
      → ◌≡◌ {A = Fallible (PmPolicy × UseCase)} (ok (p, u)) (ok (p', u'))
      → (p ≡ p') × (u ≡ u')
  pair-injective h = (cc, cc)

  pub granted_use_case-IsGranted :
      (ref : String) {policy : PmPolicy} {u : UseCase}
      → granted_use_case out audience ref ≡ ok (policy, u)
      → IsGranted ref policy u
  unfolding granted_use_case read_use_case granted_policy
  granted_use_case-IsGranted ref {policy} {u} h =
      let (named, h1) =
        raise_if-ok (not (has_text ref) || not (is_use_case_ref (codes ref))) _ _ h in
      elim (Result-cases (use_case_policy out audience ref)) [
        | inr (e, failed) ↦ absurd (cc (rw failed at h1))
        | inl (none, found) ↦ absurd (cc (rw found at h1))
        | inl (some p, found) ↦ elim (Result-cases (usable ref (out.use_cases.read ref))) [
          | inr (e, failed) ↦ absurd (cc (rw (found, failed) at h1))
          | inl (v, read_ok) ↦
              let (same_policy, same_use_case) = pair-injective (rw (found, read_ok) at h1) in
              let (reading, scoped, granted, purposed) =
                read_use_case-ok ref (out.use_cases.read ref) {u = v} read_ok in
              subst (λ (x : PmPolicy × UseCase). IsGranted ref x.0 x.1)
                (cc (same_policy, same_use_case))
                (ground arith, found, reading, scoped, granted, purposed)
        ]
      ]

  -- What resolve_use_case has checked: the use case is granted, its purpose is the one given, and its
  -- policy allows that purpose, the subject's ID type and the validity. The grants are the use case's,
  -- each with its mark.
  abbrev pub IsResolvedUseCase :
      Time
      → String
      → String
      → Option String
      → Option Time
      → Option Time
      → UseCase
      → PmPolicy
      → List RequestedGrant
      → Type 0
  IsResolvedUseCase now ref subject_id_type purpose valid_from valid_until u policy grants =
      IsGranted ref policy u
      × ((truthy purpose && not (same purpose u.purpose)) ≡ false)
      × (allowed_by policy.allowed_purposes u.purpose ≡ true)
      × (allowed_by policy.allowed_subject_id_types (some subject_id_type) ≡ true)
      × (exceeds policy valid_from valid_until now ≡ false)
      × (grants ≡ map (marked_grant policy u) u.grants)

  pub resolve_use_case-ok :
      (now : Time) (ref subject_id_type : String) (purpose : Option String)
      (valid_from valid_until : Option Time) {u : UseCase} {policy : PmPolicy}
      {grants : List RequestedGrant}
      → resolve_use_case out now audience ref subject_id_type purpose valid_from valid_until
        ≡ ok (u, policy, grants)
      → IsResolvedUseCase now ref subject_id_type purpose valid_from valid_until u policy grants
  unfolding resolve_use_case
  resolve_use_case-ok now ref subject_id_type purpose valid_from valid_until {u} {policy} {grants}
        h =
      elim (Result-cases (granted_use_case out audience ref)) [
        | inr (e, failed) ↦ absurd (cc (rw failed at h))
        | inl ((p, v), found) ↦
            let granted = granted_use_case-IsGranted ref {policy = p} {u = v} found in
            let (purposed, h1) =
              raise_if-ok (truthy purpose && not (same purpose v.purpose)) _ _ (rw found at h) in
            let (allowed, h2) =
              raise_if-ok (not (allowed_by p.allowed_purposes v.purpose)) _ _ h1 in
            let (typed, h3) =
              raise_if-ok (not (allowed_by p.allowed_subject_id_types (some subject_id_type))) _ _
                h2 in
            let (short, made) = raise_if-ok (exceeds p valid_from valid_until now) _ _ h3 in
            subst
              (λ (x : UseCase × PmPolicy × List RequestedGrant).
                IsResolvedUseCase now ref subject_id_type purpose valid_from valid_until x.0 x.1
                  x.2)
              (ok-injective made) (granted, purposed, ground arith, ground arith, short, refl)
      ]
