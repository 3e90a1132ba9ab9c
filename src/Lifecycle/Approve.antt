-- ===== src/Lifecycle/Approve.antt =====
-- LifecycleService.approve, _approve_grants and deny.
use consent_manager.Base.{
  ◌+◌, String, not, Option, none, some, List, [], ◌∷◌, ◌==◌, ltb, text_of, ok, err, ◌>>=◌, ◌>>◌,
  raise_if, if◌then◌else◌,
}
use consent_manager.Models.Status.{RequestStatus, is_pending}
use consent_manager.Models.Rows.{
  Time, Duration, ConsentGrant, RequestedGrant, ConsentRequest, ConsentArtefact, AuthContext,
}
use consent_manager.Models.Database.{Database, get_request, save_request}
use consent_manager.Scopes.{member, nonempty, keep, is_subset, to_set}
use consent_manager.Policy.Records.{PmPolicy, policy_fields_of}
use consent_manager.Policy.Evaluate.{max_delta}
use consent_manager.Receipts.{Signer, build_receipt}
use consent_manager.Verification.Decide.{Fresh}
use consent_manager.Lifecycle.Errors.{error, wrong_status, Fallible, unhandled}
use consent_manager.Lifecycle.UseCases.{Systems, Ceiling, current_policy, use_case_ceiling, or_now}
use consent_manager.Lifecycle.Narrow.{Approval, Kept, collect, effective, limits_of_policy}
use consent_manager.Lifecycle.Authenticate.{latest_auth_context}
use consent_manager.Lifecycle.Artefacts.{default_validity, originated, with_kept, commit_consent}

-- The subject's approval: schemas/lifecycle.py ApproveRequest.
pub record ApproveRequest : Type 0 where
  pub granted_scopes : Option (List String)
  pub grants : Option (List ConsentGrant)

-- `{g["data_controller"]: g for g in grants}`: a key stands where it came first, with its last value.
unfoldable pub put_grant : RequestedGrant → List RequestedGrant → List RequestedGrant
put_grant g [] = g ∷ []
put_grant g (h ∷ hs) = if h.data_controller == g.data_controller then g ∷ hs else h ∷ put_grant g hs

unfoldable pub by_controller : List RequestedGrant → List RequestedGrant → List RequestedGrant
unfolding put_grant
by_controller [] found = found
by_controller (g ∷ gs) found = by_controller gs (put_grant g found)

unfoldable pub requested_for : String → List RequestedGrant → Option RequestedGrant
requested_for c [] = none
requested_for c (g ∷ gs) = if g.data_controller == c then some g else requested_for c gs

unfoldable pub within_request : ConsentGrant → Option RequestedGrant → Fallible (Unit {0})
within_request g none =
    err (error 400 (text_of ("data_controller '" ∷ g.data_controller ∷ "' was not requested" ∷ [])))
within_request g (some r) =
    raise_if (not (is_subset (to_set g.data_scopes) (to_set r.data_scopes))) (
      error 400
        (text_of ("granted scopes exceed requested scopes for '" ∷ g.data_controller ∷ "'" ∷ [])))

-- Each granted grant is within the requested one.
unfoldable pub check_granted : List RequestedGrant → List ConsentGrant → Fallible (Unit {0})
unfolding within_request requested_for
check_granted requested [] = ok tt
check_granted requested (g ∷ gs) = do
  within_request g (requested_for g.data_controller requested)
  check_granted requested gs

-- `approved.get(controller)`, where the last of equal keys counts
unfoldable pub granted_for : String → List ConsentGrant → List String → List String
granted_for c [] found = found
granted_for c (g ∷ gs) found =
    granted_for c gs (if g.data_controller == c then g.data_scopes else found)

-- A grant without approved scopes is declined.
unfoldable pub approvals : (RequestedGrant → List String) → List RequestedGrant → List Approval
approvals scopes_of [] = []
approvals scopes_of (g ∷ gs) =
    let rest = approvals scopes_of gs in
    if nonempty (scopes_of g) then record { grant = g; scopes = scopes_of g } ∷ rest else rest

-- What the subject approves: by grants, or one list of scopes for every grant. Without either the
-- code's `set(None)` raises.
unfoldable pub approved_by :
    ConsentRequest
    → List RequestedGrant
    → Option (List String)
    → Option (List ConsentGrant)
    → Fallible (List Approval)
approved_by req requested scopes (some grants) = do
  check_granted requested grants
  ok (approvals (λ r. granted_for r.data_controller grants []) requested)
approved_by req requested none none = err unhandled
approved_by req requested (some scopes) none = do
  raise_if (not (is_subset (to_set scopes) (to_set req.requested_scopes)))
      (error 400 "granted scopes exceed requested scopes")
  ok (approvals (λ r. keep (λ s. member s (to_set scopes)) r.data_scopes) requested)

-- `min(default_validity, limit)`
abbrev pub validity_under : Option Duration → Duration
validity_under none = default_validity
validity_under (some limit) = if ltb limit default_validity then limit else default_validity

abbrev pub validity_of : Option Ceiling → Duration
validity_of none = default_validity
validity_of (some ceiling) = validity_under (max_delta ceiling.policy)

-- `req.use_case if ceiling is not None else None`
abbrev pub use_case_of : ConsentRequest → Option Ceiling → Option String
use_case_of req none = none
use_case_of req (some ceiling) = req.use_case

abbrev pub grants_artefact :
    Fresh → Time → ConsentRequest → AuthContext → Option Ceiling → List Kept → ConsentArtefact
grants_artefact fresh now req ctx ceiling kept =
    record (with_kept kept (
      originated fresh req (or_now req.valid_from now)
        (or_now req.valid_until (now + validity_of ceiling)))) {
          auth_context_id = some ctx.id;
          use_case = use_case_of req ceiling;
        }

-- LifecycleService._approve_grants
unfoldable pub approve_grants :
    Systems
    → Fresh
    → Time
    → ConsentRequest
    → AuthContext
    → ApproveRequest
    → List RequestedGrant
    → Fallible ConsentArtefact
approve_grants out fresh now req ctx approval grants = do
  approved ← approved_by req (by_controller grants []) approval.granted_scopes approval.grants
  ceiling ← use_case_ceiling out req
  kept ← collect out req.partner_id ceiling approved
  raise_if (not (nonempty kept)) (error 400 "no granted scope permitted by policy")
  ok (grants_artefact fresh now req ctx ceiling kept)

-- `policy.fetch_type if policy else "oneshot"`
abbrev pub fetch_type_under : Option PmPolicy → String
fetch_type_under none = "oneshot"
fetch_type_under (some policy) = policy.fetch_type

abbrev pub scopes_artefact :
    Fresh → Time → ConsentRequest → AuthContext → Option PmPolicy → List String → ConsentArtefact
scopes_artefact fresh now req ctx policy scopes =
    record (originated fresh req (or_now req.valid_from now)
      (or_now req.valid_until (now + default_validity))) {
        effective_data_scopes = scopes;
        fetch_type = fetch_type_under policy;
        policy = policy_fields_of policy;
        auth_context_id = some ctx.id;
      }

-- A request for the scopes of one controller.
unfoldable pub approve_scopes :
    Systems
    → Fresh
    → Time
    → ConsentRequest
    → AuthContext
    → Option (List String)
    → Fallible ConsentArtefact
approve_scopes out fresh now req ctx none =
    err (error 400 "granted_scopes is required for this request")
approve_scopes out fresh now req ctx (some scopes) = do
  raise_if (not (is_subset (to_set scopes) (to_set req.requested_scopes)))
      (error 400 "granted scopes exceed requested scopes")
  policy ← current_policy out req.partner_id req.controller_id
  raise_if (not (nonempty (effective scopes (limits_of_policy policy).1)))
      (error 400 "no granted scope permitted by policy")
  ok (scopes_artefact fresh now req ctx policy (effective scopes (limits_of_policy policy).1))

unfoldable pub approve_shape :
    Systems
    → Fresh
    → Time
    → ConsentRequest
    → AuthContext
    → ApproveRequest
    → Option (List RequestedGrant)
    → Fallible ConsentArtefact
unfolding approve_grants approve_scopes
approve_shape out fresh now req ctx approval (some grants) =
    approve_grants out fresh now req ctx approval grants
approve_shape out fresh now req ctx approval none =
    approve_scopes out fresh now req ctx approval.granted_scopes

unfoldable pub authenticated_by : Option AuthContext → Fallible AuthContext
authenticated_by none = err (error 412 "authentication required before approval")
authenticated_by (some ctx) = ok ctx

-- `session.get(ConsentRequest, request_id)`, which must be pending
unfoldable pub pending_request : Option ConsentRequest → Fallible ConsentRequest
pending_request none = err (error 404 "consent request not found")
pending_request (some req) = do raise_if (not (is_pending req.status)) (wrong_status req); ok req

abbrev pub approved_request : ConsentRequest → ConsentRequest
approved_request req = record req { status = RequestStatus.approved }

-- LifecycleService.approve. The receipt is built before the flush sets the artefact's created_at.
unfoldable pub approve :
    Systems
    → Signer
    → Fresh
    → Time
    → String
    → ApproveRequest
    → Database
    → Fallible (ConsentArtefact × Database)
unfolding pending_request
approve out signer fresh now request_id approval db = do
  req ← pending_request (get_request request_id db)
  ctx ← authenticated_by (latest_auth_context request_id db)
  a ← approve_shape out fresh now req ctx approval req.grants
  ok (a, commit_consent (approved_request req) a (build_receipt signer fresh.receipt_id none a) db)

-- LifecycleService.deny; the reason is not stored.
unfoldable pub deny : String → Database → Fallible (ConsentRequest × Database)
unfolding pending_request
deny request_id db = do
  req ← pending_request (get_request request_id db)
  ok (
    record req { status = RequestStatus.denied },
    save_request (record req { status = RequestStatus.denied }) db,
  )
