-- ===== src/Assisted/Approve.antt =====
-- AssistedConsentService.approve: the staff's verification makes the consent.
use consent_manager.Base.{
  ◌+◌, String, not, ◌&&◌, Option, none, some, List, [], ◌∷◌, map, ◌==◌, ltb, leb, eqb, text_of, ok,
  err, ◌>>=◌, ◌>>◌, raise_if, if◌then◌else◌,
}
use consent_manager.Models.Status.{
  RequestStatus, RequestMethod, is_pending_verification, evidence_kind_value,
}
use consent_manager.Models.Rows.{
  Time, Duration, RequestedGrant, ConsentRequest, ConsentArtefact, ConsentEvidence, AuthContext,
  Assurance, SubjectAuthentication,
}
use consent_manager.Models.Database.{Database, get_request}
use consent_manager.Config.{Settings}
use consent_manager.Scopes.{nonempty, keep, to_set, sorted}
use consent_manager.Policy.Evaluate.{max_delta, shown}
use consent_manager.Receipts.{Signer, build_receipt}
use consent_manager.Verification.Decide.{Fresh}
use consent_manager.Lifecycle.Errors.{error, not_found, wrong_status, Fallible}
use consent_manager.Lifecycle.UseCases.{
  Systems, Ceiling, use_case_ceiling, or_now, grants_or_none, audience_of,
}
use consent_manager.Lifecycle.Narrow.{Approval, Kept, collect}
use consent_manager.Lifecycle.Artefacts.{default_validity, originated, with_kept, commit_consent}
use consent_manager.Lifecycle.Approve.{use_case_of}
use consent_manager.Assisted.Requests.{visible, authenticated, is_given}

-- Every requested grant, with all of its scopes.
abbrev pub all_of : List RequestedGrant → List Approval
all_of grants = map (λ (g : RequestedGrant). record { grant = g; scopes = g.data_scopes }) grants

-- `min(max_validity, limit)`, where either may be None
abbrev pub tighter : Option Duration → Option Duration → Option Duration
tighter none limit = limit
tighter (some a) none = some a
tighter (some a) (some b) = some (if ltb b a then b else a)

-- The least limit of the policies of the grants that stay.
unfoldable pub max_validity : List Kept → Option Duration
max_validity [] = none
max_validity (k ∷ ks) = tighter (max_delta k.policy) (max_validity ks)

-- `max_validity or _DEFAULT_VALIDITY`: a limit of no time is none.
abbrev pub validity_or_default : Option Duration → Duration
validity_or_default none = default_validity
validity_or_default (some limit) = if eqb limit 0 then default_validity else limit

abbrev pub kinds_of : String → Database → List String
kinds_of request_id db =
    map (λ (e : ConsentEvidence). evidence_kind_value e.kind)
      (keep (λ (e : ConsentEvidence). e.consent_request_id == request_id) db.evidence)

abbrev pub authentication_of : Option AuthContext → Option SubjectAuthentication
authentication_of none = none
authentication_of (some auth) = some (record {
  provider = auth.auth_provider;
  method = auth.auth_method;
  acr = auth.acr;
  authenticated_at = auth.auth_timestamp;
  auth_context_id = auth.id;
})

abbrev pub assurance_of : Time → String → List String → Option AuthContext → Assurance
assurance_of now verified_by kinds auth = record {
  method = RequestMethod.assisted;
  evidence = sorted (to_set kinds);
  verified_by = verified_by;
  verified_at = now;
  subject_authenticated = is_given auth;
  subject_authentication = authentication_of auth;
}

abbrev pub valid_until_of : Time → ConsentRequest → List Kept → Time
valid_until_of now req kept =
    or_now req.valid_until (or_now req.valid_from now + validity_or_default (max_validity kept))

abbrev pub assisted_artefact :
    Fresh → Time → ConsentRequest → Option Ceiling → List Kept → Assurance → ConsentArtefact
assisted_artefact fresh now req ceiling kept assurance =
    record (with_kept kept
      (originated fresh req (or_now req.valid_from now) (valid_until_of now req kept))) {
        created_at = now;
        subject_identifiers = req.subject_identifiers;
        partner_id = audience_of req;
        assurance = some assurance;
        use_case = use_case_of req ceiling;
      }

abbrev no_grant : ConsentRequest → Option Ceiling → String
no_grant req (some ceiling) =
    text_of ("no requested scope is in use case '" ∷ shown req.use_case ∷ "' now" ∷ [])
no_grant req none = "no requested scope is permitted by the partner's current policy"

unfoldable pub approve_checked :
    Settings
    → Systems
    → Fresh
    → Time
    → String
    → String
    → Database
    → ConsentRequest
    → Fallible ConsentArtefact
approve_checked config out fresh now request_id verified_by db req = do
  raise_if (not (is_pending_verification req.status)) (wrong_status req)
  ceiling ← use_case_ceiling out req
  kept ← collect out (audience_of req) ceiling (all_of (grants_or_none req.grants))
  raise_if (not (nonempty kept)) (error 422 (no_grant req ceiling))
  raise_if (config.subject_auth_enabled && not (is_given (authenticated request_id db)))
      (error 409 "the subject has not authenticated with national ID")
  raise_if (leb (valid_until_of now req kept) now)
      (error 409 "the requested validity has already ended")
  ok (
      assisted_artefact fresh now req ceiling kept
        (assurance_of now verified_by (kinds_of request_id db) (authenticated request_id db)))

-- `session.get(ConsentRequest, request_id, with_for_update=True)` and its visibility
unfoldable pub visible_request : Option ConsentRequest → Fallible ConsentRequest
visible_request none = err not_found
visible_request (some req) = if visible none req then ok req else err not_found

abbrev pub verified_request : Time → String → Option String → ConsentRequest → ConsentRequest
verified_request now verified_by note req = record req {
  status = RequestStatus.approved;
  verified_by = some verified_by;
  verified_at = some now;
  verification_note = note;
}

-- AssistedConsentService.approve
unfoldable pub approve :
    Settings
    → Systems
    → Signer
    → Fresh
    → Time
    → String
    → String
    → Option String
    → Database
    → Fallible (ConsentRequest × ConsentArtefact × Database)
unfolding visible_request
approve config out signer fresh now request_id verified_by note db = do
  req ← visible_request (get_request request_id db)
  a ← approve_checked config out fresh now request_id verified_by db req
  let changed = verified_request now verified_by note req
  ok (changed, a, commit_consent changed a (build_receipt signer fresh.receipt_id (some now) a) db)
