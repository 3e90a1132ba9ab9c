-- ===== src/Assisted/Requests.antt =====
-- AssistedConsentService: submit, cancel, reject and the evidence of a request. A row that is read
-- `with_for_update` is locked until the commit, so a call is one step.
use consent_manager.Base.{
  ℕ, suc, String, Bool, true, false, not, ◌&&◌, ◌||◌, Option, none, some, List, [], ◌∷◌, ◌==◌, same,
  eqb, Result, ok, err, ◌>>◌, raise_if, if◌then◌else◌,
}
use consent_manager.Models.Status.{
  RequestStatus, RequestMethod, SubjectAuthStatus, is_pending, is_pending_verification,
  is_signed_form,
}
use consent_manager.Models.Rows.{
  Time, ConsentRequest, ConsentEvidence, SubjectAuthSession, AuthContext,
}
use consent_manager.Models.Database.{Database, get_request, save_request}
use consent_manager.Config.{Settings}
use consent_manager.Lifecycle.Authenticate.{latest_context}
use consent_manager.Lifecycle.Errors.{LifecycleError, error, not_found, wrong_status}
use consent_manager.Scopes.{keep}

abbrev pub is_assisted : Option RequestMethod → Bool
is_assisted (some RequestMethod.assisted) = true
is_assisted _ = false

abbrev pub of_audience : Option String → ConsentRequest → Bool
of_audience none r = true
of_audience (some audience) r = same r.partner_audience (some audience)

-- AssistedConsentService._visible
unfoldable pub visible : Option String → ConsentRequest → Bool
visible audience r = is_assisted r.method && of_audience audience r

-- `session.get(ConsentRequest, request_id, with_for_update=True)` and the check of its visibility
unfoldable pub on_visible :
    Option String
    → (ConsentRequest → Result LifecycleError ConsentRequest)
    → Option ConsentRequest
    → Result LifecycleError ConsentRequest
on_visible audience change none = err not_found
on_visible audience change (some r) = if visible audience r then change r else err not_found

-- The commit of the changed request.
unfoldable pub commit :
    Result LifecycleError ConsentRequest
    → Database
    → Result LifecycleError (ConsentRequest × Database)
commit (err e) db = err e
commit (ok r) db = ok (r, save_request r db)

abbrev pub is_form_of : String → ConsentEvidence → Bool
is_form_of request_id e = e.consent_request_id == request_id && is_signed_form e.kind

unfoldable pub count_kept : List ConsentEvidence → ℕ
count_kept [] = 0
count_kept (e ∷ es) = suc (count_kept es)

-- `select(func.count(...))` of the signed forms
abbrev pub forms : String → Database → ℕ
forms request_id db = count_kept (keep (is_form_of request_id) db.evidence)

abbrev pub is_success : SubjectAuthStatus → Bool
is_success SubjectAuthStatus.success = true
is_success SubjectAuthStatus.pending = false
is_success _ = false

-- A successful session of the request ended with this context.
unfoldable pub has_session : String → AuthContext → List SubjectAuthSession → Bool
has_session request_id c [] = false
has_session request_id c (s ∷ ss) =
    (s.consent_request_id == request_id
      && is_success s.status
      && same s.auth_context_id (some c.id))
    || has_session request_id c ss

-- SubjectAuthService.authenticated
unfoldable pub authenticated : String → Database → Option AuthContext
unfolding latest_context
authenticated request_id db =
    latest_context (keep (λ c. has_session request_id c db.auth_sessions) db.auth_contexts)

abbrev pub is_given {ℓ} : {A : Type ℓ} → Option A → Bool
is_given none = false
is_given (some a) = true

abbrev pub submitted : Time → ConsentRequest → ConsentRequest
submitted now r = record r { status = RequestStatus.pending_verification; submitted_at = some now }

unfoldable pub submit_checked :
    Settings → Time → String → Database → ConsentRequest → Result LifecycleError ConsentRequest
submit_checked config now request_id db r = do
  raise_if (not (is_pending r.status)) (wrong_status r)
  raise_if (eqb (forms request_id db) 0)
      (error 409 "upload the signed consent form before submitting")
  raise_if (config.subject_auth_enabled && not (is_given (authenticated request_id db)))
      (error 409 "the subject must authenticate with national ID before submitting")
  ok (submitted now r)

-- AssistedConsentService.submit
unfoldable pub submit :
    Settings → Time → String → String → Database → Result LifecycleError (ConsentRequest × Database)
submit config now request_id audience db =
    commit
      (on_visible (some audience) (submit_checked config now request_id db)
        (get_request request_id db))
      db

abbrev pub cancelled : ConsentRequest → ConsentRequest
cancelled r = record r { status = RequestStatus.cancelled }

unfoldable pub cancel_checked : ConsentRequest → Result LifecycleError ConsentRequest
cancel_checked r =
    if is_pending r.status || is_pending_verification r.status
    then ok (cancelled r)
    else err (wrong_status r)

-- AssistedConsentService.cancel
unfoldable pub cancel :
    String → String → Database → Result LifecycleError (ConsentRequest × Database)
cancel request_id audience db =
    commit (on_visible (some audience) cancel_checked (get_request request_id db)) db

abbrev pub rejected : Time → String → String → ConsentRequest → ConsentRequest
rejected now verified_by note r = record r {
  status = RequestStatus.rejected;
  verified_by = some verified_by;
  verified_at = some now;
  verification_note = some note;
}

unfoldable pub reject_checked :
    Time → String → String → ConsentRequest → Result LifecycleError ConsentRequest
reject_checked now verified_by note r =
    if is_pending_verification r.status
    then ok (rejected now verified_by note r)
    else err (wrong_status r)

-- AssistedConsentService.reject
unfoldable pub reject :
    Time → String → String → String → Database → Result LifecycleError (ConsentRequest × Database)
reject now request_id verified_by note db =
    commit (on_visible none (reject_checked now verified_by note) (get_request request_id db)) db
