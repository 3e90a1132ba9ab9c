-- ===== src/Assisted/Evidence.antt =====
-- AssistedConsentService.add_evidence after the file is stored, and delete_evidence: the rows of the
-- evidence, which change only while their request is pending.
use consent_manager.Base.{
  String, Bool, not, Option, none, some, List, ◌==◌, leb, Result, ok, err, ◌>>◌, raise_if,
  if◌then◌else◌,
}
use consent_manager.Models.Status.{is_pending}
use consent_manager.Models.Rows.{ConsentRequest, ConsentEvidence}
use consent_manager.Models.Database.{Database, get_request, add}
use consent_manager.Models.Table
use consent_manager.Config.{Settings}
use consent_manager.Scopes.{keep}
use consent_manager.Lifecycle.Errors.{LifecycleError, error, not_found, wrong_status}
use consent_manager.Assisted.Requests.{visible, count_kept}

abbrev pub evidence_key : ConsentEvidence → String
evidence_key e = e.id

abbrev pub is_of : String → ConsentEvidence → Bool
is_of request_id e = e.consent_request_id == request_id

abbrev pub evidence_of : String → Database → List ConsentEvidence
evidence_of request_id db = keep (is_of request_id) db.evidence

-- A request that is gone has no status to read: the call fails. The limit that the last message
-- interpolates is left out of it.
unfoldable pub save_to :
    Settings → ConsentEvidence → Option ConsentRequest → Database → Result LifecycleError Database
save_to config evidence none db = err (error 500 "Internal Server Error")
save_to config evidence (some r) db = do
  raise_if (not (is_pending r.status)) (wrong_status r)
  raise_if
      (leb config.evidence_max_files_per_request
        (count_kept (evidence_of evidence.consent_request_id db)))
      (error 409 "a request holds at most the configured number of files")
  ok (record db { evidence = add evidence db.evidence })

-- The part of add_evidence under the request's lock.
unfoldable pub save_evidence :
    Settings → ConsentEvidence → Database → Result LifecycleError Database
save_evidence config evidence db =
    save_to config evidence (get_request evidence.consent_request_id db) db

unfoldable pub delete_from :
    ConsentRequest
    → String
    → String
    → Option ConsentEvidence
    → Database
    → Result LifecycleError Database
delete_from r request_id evidence_id none db = err not_found
delete_from r request_id evidence_id (some e) db = do
  raise_if (not (e.consent_request_id == request_id)) not_found
  raise_if (not (is_pending r.status)) (wrong_status r)
  ok (record db { evidence = Table.delete evidence_key evidence_id db.evidence })

unfoldable pub delete_of :
    String → String → String → Option ConsentRequest → Database → Result LifecycleError Database
unfolding delete_from
delete_of request_id evidence_id audience none db = err not_found
delete_of request_id evidence_id audience (some r) db =
    if visible (some audience) r
    then delete_from r request_id evidence_id (Table.get evidence_key evidence_id db.evidence) db
    else err not_found

-- AssistedConsentService.delete_evidence. The file itself is deleted after the commit.
unfoldable pub delete_evidence :
    String → String → String → Database → Result LifecycleError Database
unfolding delete_of
delete_evidence request_id evidence_id audience db =
    delete_of request_id evidence_id audience (get_request request_id db) db

-- A call on the evidence of a request.
pub data FileCall : Type 0 where
  upload : ConsentEvidence → FileCall
  removal : String → String → String → FileCall

abbrev pub change_files : Settings → FileCall → Database → Result LifecycleError Database
change_files config (upload evidence) db = save_evidence config evidence db
change_files config (removal request_id evidence_id audience) db =
    delete_evidence request_id evidence_id audience db
