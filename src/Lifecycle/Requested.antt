-- ===== src/Lifecycle/Requested.antt =====
-- What the subject's approval takes of the requested grants.
use mathlib.Core.List.{Memᴰ}
use mathlib.Core.Path.{subst}
use consent_manager.Base.{
  String, true, Option, none, some, List, [], ◌∷◌, ◌==◌, ◌≡◌, refl, inl, inr, arith, ok, Bool-cases,
  eq-true, ap,
}
use consent_manager.Models.Rows.{RequestedGrant, ConsentGrant, ConsentRequest}
use consent_manager.Models.Table
use consent_manager.Scopes.{member, nonempty, is_subset, keep, to_set}
use consent_manager.Scopes.Laws.{member-keep, member-to_set, is_subset-member}
use consent_manager.Lifecycle.Narrow.{Approval}
use consent_manager.Models.Table.{All-of}
use consent_manager.Lifecycle.Keys.{
  by_controller-All, All-at, IsDict-requested_for, by_controller-IsDict,
}
use consent_manager.Lifecycle.Approve.{
  by_controller, requested_for, within_request, check_granted, granted_for, approvals, approved_by,
}

-- A scope that was requested of a controller.
abbrev Requested : List RequestedGrant → String → String → Type 0
Requested requested c s =
    (r : RequestedGrant) × (requested_for c requested ≡ some r) × (member s r.data_scopes ≡ true)

some-injective : {a b : RequestedGrant} → ◌≡◌ {A = Option RequestedGrant} (some a) (some b) → a ≡ b
some-injective h = cc

nothing : (s : String) → ¬ (member s [] ≡ true)
unfolding member
nothing s h = cc

both_kept :
    (s : String) (xs ys : List String)
    → member s (keep (λ t. member t (to_set ys)) xs) ≡ true
    → (member s xs ≡ true) × (member s ys ≡ true)
both_kept s xs ys h =
    let kept = member-keep s (λ t. member t (to_set ys)) xs in
    let all = member-to_set s ys in (ground arith, ground arith)

eq_true_key :
    (a b : String) (gs : List RequestedGrant)
    → (a == b) ≡ true
    → requested_for a gs ≡ requested_for b gs
eq_true_key a b gs e = ap (λ c. requested_for c gs) (eq-true a b e)

within_request-ok :
    (g : ConsentGrant) (found : Option RequestedGrant)
    → within_request g found ≡ ok tt
    → (r : RequestedGrant) × (found ≡ some r)
      × (is_subset (to_set g.data_scopes) (to_set r.data_scopes) ≡ true)
unfolding within_request
within_request-ok g none h = cc
within_request-ok g (some r) h = (r, refl, ground arith)

is_subset_set-member :
    (s : String) (xs ys : List String)
    → is_subset (to_set xs) (to_set ys) ≡ true
    → member s xs ≡ true
    → member s ys ≡ true
is_subset_set-member s xs ys h m =
    ground
      (arith, member-to_set s xs, member-to_set s ys, is_subset-member s (to_set xs) (to_set ys))

check_granted-Requested :
    (requested : List RequestedGrant) (c : String) (gs : List ConsentGrant) (found : List String)
    → check_granted requested gs ≡ ok tt
    → ((s : String) → member s found ≡ true → Requested requested c s)
    → (s : String) → member s (granted_for c gs found) ≡ true
    → Requested requested c s
unfolding check_granted granted_for
check_granted-Requested requested c [] found h before s m = before s m
check_granted-Requested requested c (g ∷ gs) found h before s m =
    let here_ok : within_request g (requested_for g.data_controller requested) ≡ ok tt =
      ground arith in
    let rest_ok : check_granted requested gs ≡ ok tt = ground arith in
    let (r, e, sub) = within_request-ok g (requested_for g.data_controller requested) here_ok in
    elim (Bool-cases (g.data_controller == c)) [
      | inl own ↦
          let same_key : requested_for c requested ≡ some r =
            cc (e, eq_true_key g.data_controller c requested own) in
          check_granted-Requested requested c gs g.data_scopes rest_ok
            (λ t k. (r, same_key, is_subset_set-member t g.data_scopes r.data_scopes sub k)) s
            (rw own at m)
      | inr other ↦ check_granted-Requested requested c gs found rest_ok before s (rw other at m)
    ]

-- The scopes of a controller that the subject approved.
abbrev pub ApprovedScope :
    Option (List String) → Option (List ConsentGrant) → String → String → Type 0
ApprovedScope scopes (some grants) c s = member s (granted_for c grants []) ≡ true
ApprovedScope none none c s = ⊥
ApprovedScope (some scopes) none c s = member s scopes ≡ true

-- What an approval takes of a request: one of its grants, and scopes of it that the subject approved.
abbrev pub IsApproval :
    List RequestedGrant → Option (List String) → Option (List ConsentGrant) → Approval → Type 0
IsApproval grants scopes granted a =
    Memᴰ a.grant grants
    × ((s : String)
        → member s a.scopes ≡ true
        → (member s a.grant.data_scopes ≡ true)
          × ApprovedScope scopes granted a.grant.data_controller s)

approvals-All :
    (P : Approval → Type 0) (scopes_of : RequestedGrant → List String) (gs : List RequestedGrant)
    → Table.All (λ (r : RequestedGrant). P (record { grant = r; scopes = scopes_of r })) gs
    → Table.All P (approvals scopes_of gs)
unfolding approvals
approvals-All P scopes_of [] h = tt
approvals-All P scopes_of (g ∷ gs) h =
    let rest = approvals-All P scopes_of gs h.1 in
    elim (Bool-cases (nonempty (scopes_of g))) [
      | inl some_left ↦ rw some_left (h.0, rest)
      | inr empty ↦ rw empty rest
    ]

-- The grants by controller are requested ones.
by_controller-Memᴰ :
    (grants : List RequestedGrant)
    → Table.All (λ (r : RequestedGrant). Memᴰ r grants) (by_controller grants [])
by_controller-Memᴰ grants =
    by_controller-All (λ (r : RequestedGrant). Memᴰ r grants) grants []
      (All-of (λ (r : RequestedGrant). Memᴰ r grants) grants (λ r m. m)) tt

Requested-own :
    (grants : List RequestedGrant) (r : RequestedGrant) (s : String)
    → Memᴰ r (by_controller grants [])
    → Requested (by_controller grants []) r.data_controller s
    → member s r.data_scopes ≡ true
Requested-own grants r s m (q, e, k) =
    let own =
      IsDict-requested_for (by_controller grants []) r (by_controller-IsDict grants [] tt) m in
    let same_grant : q ≡ r = some-injective {a = q} {b = r} (cc (own, e)) in
    subst (λ (x : RequestedGrant). member s x.data_scopes ≡ true) same_grant k

pub approved_by-IsApproval :
    (req : ConsentRequest) (grants : List RequestedGrant) (scopes : Option (List String))
    (granted : Option (List ConsentGrant)) {approved : List Approval}
    → approved_by req (by_controller grants []) scopes granted ≡ ok approved
    → Table.All (IsApproval grants scopes granted) approved
unfolding approved_by
approved_by-IsApproval req grants scopes (some given) {approved} h =
    let requested = by_controller grants [] in
    let checked : check_granted requested given ≡ ok tt = ground arith in
    let taken : approvals (λ r. granted_for r.data_controller given []) requested ≡ approved =
      ground arith in
    subst (Table.All (IsApproval grants scopes (some given))) taken (
      approvals-All (IsApproval grants scopes (some given))
        (λ r. granted_for r.data_controller given []) requested
        (All-of _ requested (λ r m. (
          All-at (λ (x : RequestedGrant). Memᴰ x grants) requested r (by_controller-Memᴰ grants) m,
          λ s k. (
            Requested-own grants r s m (
                check_granted-Requested requested r.data_controller given [] checked
                  (λ t j. absurd (nothing t j)) s k),
            k,
          ),
        ))))
approved_by-IsApproval req grants none none h = cc
approved_by-IsApproval req grants (some scopes) none {approved} h =
    let requested = by_controller grants [] in
    let taken : approvals (λ r. keep (λ s. member s (to_set scopes)) r.data_scopes) requested
        ≡ approved =
      ground arith in
    subst (Table.All (IsApproval grants (some scopes) none)) taken (
      approvals-All (IsApproval grants (some scopes) none)
        (λ r. keep (λ s. member s (to_set scopes)) r.data_scopes) requested
        (All-of _ requested (λ r m. (
          All-at (λ (x : RequestedGrant). Memᴰ x grants) requested r (by_controller-Memᴰ grants) m,
          λ s k. both_kept s r.data_scopes scopes k,
        ))))
