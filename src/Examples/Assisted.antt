-- ===== src/Examples/Assisted.antt =====
-- An officer's request for the example consent.
use consent_manager.Base.{◌≡◌, ◌⊎◌, arith, ◌≤◌, refl, false, none, some, [], ◌∷◌, ok}
use consent_manager.Models.Status.{RequestStatus, RequestMethod, EvidenceKind}
use consent_manager.Models.Rows.{ConsentRequest, ConsentEvidence}
use consent_manager.Models.Table
use consent_manager.Models.Database.{Database, get_request, save_request}
use consent_manager.Scopes.{keep}
use consent_manager.Assisted.Requests.{
  visible, on_visible, commit, count_kept, submitted, submit_checked, submit,
}
use consent_manager.Assisted.Submitted.{HasForm, HasLogin, submit-IsSubmitted}
use consent_manager.Assisted.Evidence.{evidence_of, save_to, save_evidence, upload}
use consent_manager.Assisted.Files.{save_evidence-bound, change_files-frozen}
use consent_manager.Examples.Data.{config, db}

abbrev draft : ConsentRequest
draft = record {
  id = "q1";
  created_at = 900;
  subject_id_type = "national_id";
  subject_id_value = "42";
  controller_id = some "farmers";
  partner_id = "bank-a";
  purpose = record { code = some "loan" };
  requested_scopes = "name" ∷ [];
  grants = none;
  valid_from = none;
  valid_until = none;
  status = RequestStatus.pending;
  subject_identifiers = none;
  method = some RequestMethod.assisted;
  use_case = none;
  created_by = some "officer";
  partner_audience = some "bank-a";
  submitted_at = none;
  verified_by = none;
  verified_at = none;
  verification_note = none;
}

abbrev form : ConsentEvidence
form = record {
  id = "e1";
  consent_request_id = "q1";
  kind = EvidenceKind.signed_form;
  filename = "form.pdf";
  content_type = "application/pdf";
  size_bytes = 10;
  sha256 = "s";
  storage_key = "q1/e1";
  uploaded_by = some "officer";
  uploaded_at = 950;
}

abbrev draft_db : Database
draft_db = record db { requests = draft ∷ []; evidence = form ∷ [] }

abbrev submitted_db : Database
submitted_db = record draft_db { requests = submitted 2000 draft ∷ [] }

submitting : submit config 2000 "q1" "bank-a" draft_db ≡ ok (submitted 2000 draft, submitted_db)
unfolding submit commit on_visible visible submit_checked Table.get Table.save keep count_kept
submitting = refl

submit-IsSubmitted_example :
    (r : ConsentRequest) × (get_request "q1" draft_db ≡ some r)
    × (r.method ≡ some RequestMethod.assisted)
    × (r.partner_audience ≡ some "bank-a")
    × (r.status ≡ RequestStatus.pending)
    × HasForm "q1" draft_db
    × ((config.subject_auth_enabled ≡ false) ⊎ HasLogin "q1" draft_db)
    × (submitted 2000 draft
        ≡ record r { status = RequestStatus.pending_verification; submitted_at = some 2000 })
    × (submitted_db ≡ save_request (submitted 2000 draft) draft_db)
submit-IsSubmitted_example = submit-IsSubmitted config 2000 "q1" "bank-a" draft_db submitting

abbrev two_requests : Database
two_requests = record draft_db {
  requests = draft ∷ record (submitted 2000 draft) { id = "q2" } ∷ [];
}

abbrev uploaded : Database
uploaded = record two_requests { evidence = form ∷ form ∷ [] }

uploading : save_evidence config form two_requests ≡ ok uploaded
unfolding save_evidence save_to Table.get keep count_kept
uploading = refl

save_evidence-bound_example :
    count_kept (evidence_of "q1" uploaded) ≤ config.evidence_max_files_per_request
unfolding keep count_kept
save_evidence-bound_example =
    save_evidence-bound config form two_requests "q1" uploading (ground arith)

change_files-frozen_example : evidence_of "q2" uploaded ≡ evidence_of "q2" two_requests
unfolding Table.get
change_files-frozen_example =
    change_files-frozen config (upload form) "q2" two_requests
      {r = record (submitted 2000 draft) { id = "q2" }} refl refl uploading
