-- ===== src/Assisted/Approved.antt =====
-- What the staff's approval of an assisted request does: AssistedConsentService.approve.
use mathlib.Core.Path.{subst}
use mathlib.Core.List.{Memᴰ}
use consent_manager.Base.{
  ◌<◌, String, true, false, not, ◌&&◌, Option, none, some, List, [], ◌∷◌, ◌≡◌, refl, sym, leb,
  arith, ok, raise_if-ok, ok-injective, Bool-cases, Result-cases, ap, inl, inr,
}
use consent_manager.Models.Status.{is_pending_verification}
use consent_manager.Models.Rows.{
  Time, RequestedGrant, ApprovedGrant, ConsentRequest, ConsentArtefact,
}
use consent_manager.Models.Table
use consent_manager.Models.Table.{All-of}
use consent_manager.Models.Database.{Database, get_request}
use consent_manager.Config.{Settings}
use consent_manager.Scopes.{nonempty}
use consent_manager.Receipts.{Signer, build_receipt}
use consent_manager.Verification.Decide.{Fresh}
use consent_manager.Lifecycle.Errors.{Fallible}
use consent_manager.Lifecycle.UseCases.{
  Systems, Ceiling, use_case_ceiling, grants_or_none, audience_of,
}
use consent_manager.Lifecycle.Narrow.{Approval, collect, approved_grants}
use consent_manager.Lifecycle.Within.{IsNarrowed, collect-IsNarrowed}
use consent_manager.Lifecycle.Artefacts.{commit_consent}
use consent_manager.Lifecycle.Shapes.{nonempty-approved_grants}
use consent_manager.Assisted.Requests.{visible, authenticated, is_given}
use consent_manager.Assisted.Approve.{
  all_of, assisted_artefact, approve_checked, visible_request, verified_request, approve,
  valid_until_of, assurance_of, kinds_of,
}

-- A requested grant with all its scopes.
abbrev pub IsWhole : List RequestedGrant → Approval → Type 0
IsWhole grants a = Memᴰ a.grant grants × (a.scopes ≡ a.grant.data_scopes)

all_of-All :
    (P : Approval → Type 0) (grants : List RequestedGrant)
    → Table.All (λ (g : RequestedGrant). P (record { grant = g; scopes = g.data_scopes })) grants
    → Table.All P (all_of grants)
all_of-All P [] h = tt
all_of-All P (g ∷ gs) h = (h.0, all_of-All P gs h.1)

all_of-IsWhole : (grants : List RequestedGrant) → Table.All (IsWhole grants) (all_of grants)
all_of-IsWhole grants = all_of-All (IsWhole grants) grants (All-of _ grants (λ g m. (m, refl)))

-- What the artefact has of its request.
abbrev pub IsOfRequest : ConsentRequest → ConsentArtefact → Type 0
IsOfRequest req a =
    (a.consent_request_id ≡ some req.id)
    × (a.subject_id_type ≡ req.subject_id_type)
    × (a.subject_id_value ≡ req.subject_id_value)
    × (a.subject_identifiers ≡ req.subject_identifiers)
    × (a.partner_id ≡ audience_of req)
    × (a.purpose ≡ req.purpose)

-- What an approval rests on: a request that waits for it, the subject's authentication where that is
-- needed, a validity that has not ended, and grants within the request and the policies now.
abbrev pub IsVerified :
    Settings → Systems → Time → String → Database → ConsentRequest → ConsentArtefact → Type 0
IsVerified config out now k db req a =
    (is_pending_verification req.status ≡ true)
    × ((config.subject_auth_enabled && not (is_given (authenticated k db))) ≡ false)
    × (now < a.valid_until)
    × (ceiling : Option Ceiling) × (use_case_ceiling out req ≡ ok ceiling)
    × (grants : List ApprovedGrant) × (a.grants ≡ some grants)
    × (nonempty grants ≡ true)
    × Table.All (IsNarrowed out (audience_of req) ceiling (IsWhole (grants_or_none req.grants)))
        grants

approve_checked-IsVerified :
    (config : Settings) (out : Systems) (fresh : Fresh) (now : Time) (k verified_by : String)
    (db : Database) (req : ConsentRequest) {a : ConsentArtefact}
    → approve_checked config out fresh now k verified_by db req ≡ ok a
    → IsVerified config out now k db req a × IsOfRequest req a
unfolding approve_checked
approve_checked-IsVerified config out fresh now k verified_by db req {a} h =
    let (waiting, h1) = raise_if-ok (not (is_pending_verification req.status)) _ _ h in
    let grants = grants_or_none req.grants in
    elim (Result-cases (use_case_ceiling out req)) [
      | inr (e, failed) ↦ absurd (cc (rw failed at h1))
      | inl (ceiling, now_is) ↦
          elim (Result-cases (collect out (audience_of req) ceiling (all_of grants))) [
            | inr (e, failed) ↦ absurd (cc (rw (now_is, failed) at h1))
            | inl (kept, collected) ↦
                let (left, h2) =
                  raise_if-ok (not (nonempty kept)) _ _ (rw (now_is, collected) at h1) in
                let (present, h3) = raise_if-ok _ _ _ h2 in
                let (lasting, made) = raise_if-ok (leb (valid_until_of now req kept) now) _ _ h3 in
                let same_artefact : assisted_artefact fresh now req ceiling kept
                      (assurance_of now verified_by (kinds_of k db) (authenticated k db))
                    ≡ a =
                  ok-injective made in
                subst (λ x. IsVerified config out now k db req x × IsOfRequest req x) same_artefact
                  (
                    (
                      ground arith,
                      present,
                      ground arith,
                      ceiling,
                      now_is,
                      approved_grants kept,
                      refl,
                      nonempty-approved_grants kept left,
                      collect-IsNarrowed out (audience_of req) ceiling (IsWhole grants)
                          (all_of grants) {kept = kept} (all_of-IsWhole grants) collected,
                    ),
                    (refl, refl, refl, refl, refl, refl),
                  )
          ]
    ]

visible_request-ok :
    (found : Option ConsentRequest) {req : ConsentRequest}
    → visible_request found ≡ ok req
    → (found ≡ some req) × (visible none req ≡ true)
unfolding visible_request
visible_request-ok none h = cc
visible_request-ok (some r) {req} h = elim (Bool-cases (visible none r)) [
  | inl seen ↦
      let same_request : r ≡ req = ok-injective (rw seen at h) in
      (cc same_request, cc (seen, ap (visible none) same_request))
  | inr hidden ↦ absurd (cc (rw hidden at h))
]

triple-injective :
    {r r' : ConsentRequest} {a b : ConsentArtefact} {d d' : Database}
    → ◌≡◌ {A = Fallible (ConsentRequest × ConsentArtefact × Database)}
        (ok (r, a, d))
        (ok (r', b, d'))
    → (r ≡ r') × (a ≡ b) × (d ≡ d')
triple-injective h = (cc, cc, cc)

pair :
    {r r' : ConsentRequest} {a b : ConsentArtefact}
    → r ≡ r'
    → a ≡ b
    → ◌≡◌ {A = ConsentRequest × ConsentArtefact} (r, a) (r', b)
pair h k = cc (h, k)

-- The staff's approval succeeds only for an assisted request that waits for verification, with the
-- subject's authentication where that is needed. Each grant of the consent is one of the request's,
-- with the scopes that the partner's current policy (or the use case) still allows, and at least one;
-- the consent ends in the future. The artefact and its receipt are stored and the request is approved
-- in the same transaction.
pub approve-IsVerified :
    (config : Settings) (out : Systems) (signer : Signer) (fresh : Fresh) (now : Time)
    (k verified_by : String) (remark : Option String) (db : Database) {r : ConsentRequest}
    {a : ConsentArtefact} {db' : Database}
    → approve config out signer fresh now k verified_by remark db ≡ ok (r, a, db')
    → (req : ConsentRequest) × (get_request k db ≡ some req)
      × (visible none req ≡ true)
      × IsVerified config out now k db req a
      × IsOfRequest req a
      × (r ≡ verified_request now verified_by remark req)
      × (db' ≡ commit_consent r a (build_receipt signer fresh.receipt_id (some now) a) db)
unfolding approve
approve-IsVerified config out signer fresh now k verified_by remark db {r} {a} {db'} h =
    elim (Result-cases (visible_request (get_request k db))) [
      | inr (e, failed) ↦ absurd (cc (rw failed at h))
      | inl (req, shown_now) ↦
          elim (Result-cases (approve_checked config out fresh now k verified_by db req)) [
            | inr (e, failed) ↦ absurd (cc (rw (shown_now, failed) at h))
            | inl (made, checked) ↦
                let (found, seen) = visible_request-ok (get_request k db) {req = req} shown_now in
                let (changed, artefact, after) = triple-injective (rw (shown_now, checked) at h) in
                let (verified, own) =
                  approve_checked-IsVerified config out fresh now k verified_by db req checked in
                (
                  req,
                  found,
                  seen,
                  subst (IsVerified config out now k db req) artefact verified,
                  subst (IsOfRequest req) artefact own,
                  sym changed,
                  sym (
                      subst
                        (λ (x : ConsentRequest × ConsentArtefact).
                          commit_consent x.0 x.1
                            (build_receipt signer fresh.receipt_id (some now) x.1) db
                          ≡ db')
                        (pair changed artefact) after),
                )
          ]
    ]
