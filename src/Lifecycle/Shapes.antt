-- ===== src/Lifecycle/Shapes.antt =====
-- The artefact that an approval by the subject makes, of grants or of one controller's scopes.
use mathlib.Core.Path.{subst}
use consent_manager.Base.{
  String, true, false, not, ◌&&◌, Option, none, some, List, [], ◌∷◌, ◌≡◌, refl, sym, inl, inr,
  arith, ok, ◌>>◌, raise_if, raise_if-ok, ok-injective, Result-cases, ap,
}
use consent_manager.Models.Rows.{
  Time, RequestedGrant, ApprovedGrant, ConsentRequest, ConsentArtefact, AuthContext,
}
use consent_manager.Models.Table
use consent_manager.Scopes.{member, nonempty, is_subset, to_set}
use consent_manager.Policy.Ceiling.{nonempty-member}
use consent_manager.Scopes.Laws.{member-narrowed, member-to_set, is_subset-member}
use consent_manager.Policy.Records.{PmPolicy}
use consent_manager.Verification.Decide.{Fresh}
use consent_manager.Lifecycle.Errors.{LifecycleError}
use consent_manager.Lifecycle.UseCases.{Systems, Ceiling, use_case_ceiling, current_policy}
use consent_manager.Lifecycle.Narrow.{Kept, collect, approved_grants, limits_of_policy, effective}
use consent_manager.Lifecycle.Within.{IsNarrowed, collect-IsNarrowed}
use consent_manager.Lifecycle.Requested.{IsApproval, approved_by-IsApproval}
use consent_manager.Lifecycle.Approve.{
  ApproveRequest, by_controller, approved_by, approve_grants, grants_artefact, approve_scopes,
  scopes_artefact, approve_shape,
}

-- What the artefact has of its request and of the subject's authentication.
abbrev pub IsOfRequest : ConsentRequest → AuthContext → ConsentArtefact → Type 0
IsOfRequest req ctx a =
    (a.consent_request_id ≡ some req.id)
    × (a.auth_context_id ≡ some ctx.id)
    × (a.subject_id_type ≡ req.subject_id_type)
    × (a.subject_id_value ≡ req.subject_id_value)
    × (a.partner_id ≡ req.partner_id)
    × (a.purpose ≡ req.purpose)

-- The grants of an artefact are narrowed from the request's.
abbrev pub GrantsWithin :
    Systems → ConsentRequest → ApproveRequest → List RequestedGrant → ConsentArtefact → Type 0
GrantsWithin out req approval requested a =
    (ceiling : Option Ceiling) × (use_case_ceiling out req ≡ ok ceiling)
    × (grants : List ApprovedGrant) × (a.grants ≡ some grants)
    × (nonempty grants ≡ true)
    × Table.All
        (IsNarrowed out req.partner_id ceiling
          (IsApproval requested approval.granted_scopes approval.grants))
        grants

-- The scopes of a request for one controller.
abbrev pub ScopesWithin : Systems → ConsentRequest → ApproveRequest → ConsentArtefact → Type 0
ScopesWithin out req approval a =
    (scopes : List String) × (approval.granted_scopes ≡ some scopes)
    × (policy : PmPolicy) × (current_policy out req.partner_id req.controller_id ≡ ok (some policy))
    × (nonempty a.effective_data_scopes ≡ true)
    × ((s : String)
        → member s a.effective_data_scopes ≡ true
        → (member s scopes && member s req.requested_scopes && member s policy.allowed_data_scopes)
          ≡ true)

abbrev pub IsWithin :
    Systems
    → ConsentRequest
    → ApproveRequest
    → Option (List RequestedGrant)
    → ConsentArtefact
    → Type 0
IsWithin out req approval none a = ScopesWithin out req approval a
IsWithin out req approval (some requested) a = GrantsWithin out req approval requested a

pub nonempty-approved_grants :
    (kept : List Kept) → not (nonempty kept) ≡ false → nonempty (approved_grants kept) ≡ true
nonempty-approved_grants [] h = cc
nonempty-approved_grants (k ∷ ks) h = refl

-- The last steps of _approve_grants.
grants_artefact-ok :
    (fresh : Fresh) (now : Time) (req : ConsentRequest) (ctx : AuthContext)
    (ceiling : Option Ceiling) (kept : List Kept) (e : LifecycleError) {a : ConsentArtefact}
    → (raise_if (not (nonempty kept)) e >> ok (grants_artefact fresh now req ctx ceiling kept))
      ≡ ok a
    → (nonempty (approved_grants kept) ≡ true)
      × (a.grants ≡ some (approved_grants kept))
      × IsOfRequest req ctx a
grants_artefact-ok fresh now req ctx ceiling kept e {a} h =
    let artefact = grants_artefact fresh now req ctx ceiling kept in
    let (left, made) = raise_if-ok (not (nonempty kept)) e (ok artefact) h in
    let same_artefact : artefact ≡ a = ok-injective made in
    (
      nonempty-approved_grants kept left,
      ap (λ (x : ConsentArtefact). x.grants) (sym same_artefact),
      subst (IsOfRequest req ctx) same_artefact (refl, refl, refl, refl, refl, refl),
    )

approve_grants-GrantsWithin :
    (out : Systems) (fresh : Fresh) (now : Time) (req : ConsentRequest) (ctx : AuthContext)
    (approval : ApproveRequest) (requested : List RequestedGrant) {a : ConsentArtefact}
    → approve_grants out fresh now req ctx approval requested ≡ ok a
    → GrantsWithin out req approval requested a × IsOfRequest req ctx a
unfolding approve_grants
approve_grants-GrantsWithin out fresh now req ctx approval requested {a} h =
    elim (Result-cases
      (approved_by req (by_controller requested []) approval.granted_scopes approval.grants)) [
        | inr (e, failed) ↦ absurd (cc (rw failed at h))
        | inl (approved, took) ↦ elim (Result-cases (use_case_ceiling out req)) [
          | inr (e, failed) ↦ absurd (cc (rw (took, failed) at h))
          | inl (ceiling, now_is) ↦
              elim (Result-cases (collect out req.partner_id ceiling approved)) [
                | inr (e, failed) ↦ absurd (cc (rw (took, now_is, failed) at h))
                | inl (kept, collected) ↦
                    let (some_kept, grants, own) =
                      grants_artefact-ok fresh now req ctx ceiling kept _ {a = a}
                        (rw (took, now_is, collected) at h) in
                    let from =
                      approved_by-IsApproval req requested approval.granted_scopes approval.grants
                        {approved = approved} took in
                    (
                      (
                        ceiling,
                        now_is,
                        approved_grants kept,
                        grants,
                        some_kept,
                        collect-IsNarrowed out req.partner_id ceiling _ approved {kept = kept} from
                            collected,
                      ),
                      own,
                    )
              ]
        ]
      ]

no_policy : (scopes : List String) → ¬ (not (nonempty (effective scopes [])) ≡ false)
unfolding member
no_policy scopes h =
    let (s, m) = nonempty-member (effective scopes []) (ground arith) in
    let both = member-narrowed s scopes [] in ground arith

-- A scope that `sorted(set(scopes) & allowed)` keeps.
effective-bound :
    (scopes requested allowed : List String)
    → not (is_subset (to_set scopes) (to_set requested)) ≡ false
    → (s : String) → member s (effective scopes (to_set allowed)) ≡ true
    → (member s scopes && member s requested && member s allowed) ≡ true
effective-bound scopes requested allowed sub s m = ground (
  arith,
  member-narrowed s scopes (to_set allowed),
  member-to_set s allowed,
  member-to_set s scopes,
  member-to_set s requested,
  is_subset-member s (to_set scopes) (to_set requested),
)

approve_scopes-ScopesWithin :
    (out : Systems) (fresh : Fresh) (now : Time) (req : ConsentRequest) (ctx : AuthContext)
    (approval : ApproveRequest) (scopes : Option (List String)) {a : ConsentArtefact}
    → approval.granted_scopes ≡ scopes
    → approve_scopes out fresh now req ctx scopes ≡ ok a
    → ScopesWithin out req approval a × IsOfRequest req ctx a
unfolding approve_scopes limits_of_policy
approve_scopes-ScopesWithin out fresh now req ctx approval none e h = cc
approve_scopes-ScopesWithin out fresh now req ctx approval (some scopes) {a} e h =
    let (sub, rest) =
      raise_if-ok (not (is_subset (to_set scopes) (to_set req.requested_scopes))) _ _ h in
    elim (Result-cases (current_policy out req.partner_id req.controller_id)) [
      | inr (x, failed) ↦ absurd (cc (rw failed at rest))
      | inl (none, found) ↦ absurd (
          no_policy scopes
            (raise_if-ok (not (nonempty (effective scopes []))) _ _ (rw found at rest)).0)
      | inl (some policy, found) ↦
          let allowed = to_set policy.allowed_data_scopes in
          let (left, made) =
            raise_if-ok (not (nonempty (effective scopes allowed))) _ _ (rw found at rest) in
          let same_artefact : scopes_artefact fresh now req ctx (some policy)
                (effective scopes allowed)
              ≡ a =
            ok-injective made in
          subst (λ x. ScopesWithin out req approval x × IsOfRequest req ctx x) same_artefact
            (
              (
                scopes,
                e,
                policy,
                found,
                ground arith,
                effective-bound scopes req.requested_scopes policy.allowed_data_scopes sub,
              ),
              (refl, refl, refl, refl, refl, refl),
            )
    ]

pub approve_shape-IsWithin :
    (out : Systems) (fresh : Fresh) (now : Time) (req : ConsentRequest) (ctx : AuthContext)
    (approval : ApproveRequest) (requested : Option (List RequestedGrant)) {a : ConsentArtefact}
    → approve_shape out fresh now req ctx approval requested ≡ ok a
    → IsWithin out req approval requested a × IsOfRequest req ctx a
unfolding approve_shape
approve_shape-IsWithin out fresh now req ctx approval none h =
    approve_scopes-ScopesWithin out fresh now req ctx approval approval.granted_scopes refl h
approve_shape-IsWithin out fresh now req ctx approval (some requested) h =
    approve_grants-GrantsWithin out fresh now req ctx approval requested h
