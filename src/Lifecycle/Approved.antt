-- ===== src/Lifecycle/Approved.antt =====
-- What an approval by the subject does: LifecycleService.approve and deny.
use mathlib.Core.Path.{subst}
use consent_manager.Base.{
  String, true, not, Option, none, some, ◌≡◌, sym, inl, inr, arith, ok, raise_if-ok, ok-injective,
  Option-cases, Result-cases, ap,
}
use consent_manager.Models.Status.{is_pending}
use consent_manager.Models.Rows.{Time, ConsentRequest, ConsentArtefact, AuthContext}
use consent_manager.Models.Database.{Database, get_request}
use consent_manager.Receipts.{Signer, build_receipt}
use consent_manager.Verification.Decide.{Fresh}
use consent_manager.Lifecycle.Errors.{Fallible}
use consent_manager.Lifecycle.UseCases.{Systems}
use consent_manager.Lifecycle.Authenticate.{latest_auth_context}
use consent_manager.Lifecycle.Artefacts.{commit_consent}
use consent_manager.Lifecycle.Approve.{
  ApproveRequest, approve_shape, authenticated_by, pending_request, approved_request, approve,
}
use consent_manager.Lifecycle.Shapes.{IsOfRequest, IsWithin, approve_shape-IsWithin}

pub pending_request-ok :
    (found : Option ConsentRequest) {req : ConsentRequest}
    → pending_request found ≡ ok req
    → (found ≡ some req) × (is_pending req.status ≡ true)
unfolding pending_request
pending_request-ok none h = cc
pending_request-ok (some r) {req} h =
    let (waiting, made) = raise_if-ok (not (is_pending r.status)) _ _ h in
    let same_request : r ≡ req = ok-injective made in
    (cc same_request, ground (arith, ap (λ (x : ConsentRequest). is_pending x.status) same_request))

both-injective :
    {a b : ConsentArtefact} {d d' : Database}
    → ◌≡◌ {A = Fallible (ConsentArtefact × Database)} (ok (a, d)) (ok (b, d'))
    → (a ≡ b) × (d ≡ d')
both-injective h = (cc, cc)

-- An approval succeeds only for a pending request with an authentication of the subject. It stores one
-- artefact, of that request, subject and authentication, with its receipt, and approves the request. A
-- request for one controller grants scopes that the subject approved, the request named and the
-- partner's current policy allows; each grant of a grants request is one of the request's, with scopes
-- that it requested, the subject approved, and the current policy (or the use case) allows.
pub approve-IsWithin :
    (out : Systems) (signer : Signer) (fresh : Fresh) (now : Time) (k : String)
    (approval : ApproveRequest) (db : Database) {a : ConsentArtefact} {db' : Database}
    → approve out signer fresh now k approval db ≡ ok (a, db')
    → (req : ConsentRequest) × (ctx : AuthContext) × (get_request k db ≡ some req)
      × (is_pending req.status ≡ true)
      × (latest_auth_context k db ≡ some ctx)
      × IsOfRequest req ctx a
      × IsWithin out req approval req.grants a
      × (db'
          ≡ commit_consent
              (approved_request req)
              a
              (build_receipt signer fresh.receipt_id none a)
              db)
unfolding approve authenticated_by
approve-IsWithin out signer fresh now k approval db {a} {db'} h =
    elim (Result-cases (pending_request (get_request k db))) [
      | inr (e, failed) ↦ absurd (cc (rw failed at h))
      | inl (req, waiting) ↦ elim (Option-cases (latest_auth_context k db)) [
        | inl missing ↦ absurd (cc (rw (waiting, missing) at h))
        | inr (ctx, latest) ↦
            elim (Result-cases (approve_shape out fresh now req ctx approval req.grants)) [
              | inr (e, failed) ↦ absurd (cc (rw (waiting, latest, failed) at h))
              | inl (made, shaped) ↦
                  let (found, pending) =
                    pending_request-ok (get_request k db) {req = req} waiting in
                  let both = both-injective (rw (waiting, latest, shaped) at h) in
                  let (within, own) =
                    approve_shape-IsWithin out fresh now req ctx approval req.grants shaped in
                  (
                    req,
                    ctx,
                    found,
                    pending,
                    latest,
                    subst (IsOfRequest req ctx) both.0 own,
                    subst (IsWithin out req approval req.grants) both.0 within,
                    subst
                        (λ x.
                          db'
                          ≡ commit_consent (approved_request req) x
                              (build_receipt signer fresh.receipt_id none x) db)
                        both.0 (sym both.1),
                  )
            ]
      ]
    ]
