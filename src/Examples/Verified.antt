-- ===== src/Examples/Verified.antt =====
-- An officer's request through the portal: created, submitted, and approved by the staff.
use consent_manager.Base.{◌≡◌, refl, true, none, some, List, [], ◌∷◌, ok, arith}
use consent_manager.Models.Rows.{Time, ConsentRequest, ConsentArtefact}
use consent_manager.Models.Table
use consent_manager.Models.Database.{Database, get_request, add}
use consent_manager.Scopes.{member, keep, to_set, inter, sorted, is_subset}
use consent_manager.Receipts.{build_receipt}
use consent_manager.Policy.Evaluate.{max_delta}
use consent_manager.Duration.{iso_duration_to_timedelta}
use consent_manager.Verification.Partners.{get_verification_material}
use consent_manager.Lifecycle.UseCases.{
  current_policy, use_case_ceiling, has_mark, resolve_grants, within_policy,
}
use consent_manager.Lifecycle.Narrow.{
  Kept, kept_grant, collect, keep_grant, limits_for, limits_of_policy, approved_grants,
}
use consent_manager.Lifecycle.Authenticate.{Methods}
use consent_manager.Lifecycle.Artefacts.{commit_consent}
use consent_manager.Assisted.Requests.{visible, authenticated, submitted}
use consent_manager.Assisted.Identifiers.{given_identifiers}
use consent_manager.Assisted.Create.{
  AssistedRequestCreate, Outside, assisted_request, create_request, create_by_grants,
  check_code_lists, check_entry, check_scope_policies,
}
use consent_manager.Assisted.Created.{IsComplete, IsCreated, create_request-IsCreated}
use consent_manager.Assisted.Approve.{
  approve, approve_checked, visible_request, assisted_artefact, assurance_of, verified_request,
  max_validity,
}
use consent_manager.Assisted.Approved.{IsVerified, IsOfRequest, approve-IsVerified}
use consent_manager.Assisted.Unchanged.{IsWhole, approve-GivesAll}
use consent_manager.Origination.Once.{IsOnce}
use consent_manager.Origination.Calls.{Services, Call, perform, perform_all}
use consent_manager.Origination.Machine.{Next, perform-Next, perform_all-ended_requests}
use consent_manager.Models.Status.{RequestStatus}
use consent_manager.Origination.Kept.{perform-IsOnce, perform_all-IsOnce}
use consent_manager.Examples.Data.{config, policy, empty_db, fresh, signer}
use consent_manager.Examples.Lifecycle.{systems, requested_grant, row, body, approval, db}

abbrev outside : Outside
outside = record { systems = systems; code_list = λ kind. none }

abbrev entry : AssistedRequestCreate
entry = record {
  subject_id = record { type = "national_id"; value = "42" };
  subject_identifiers = [];
  purpose = some (record { code = some "loan" });
  grants = some (record { data_controller = "farmers"; data_scopes = "name" ∷ "land" ∷ [] } ∷ []);
  valid_from = none;
  valid_until = some 9000;
  use_case = none;
}

abbrev drafted : ConsentRequest
drafted =
    assisted_request row "bank-a" "officer" entry (requested_grant ∷ [])
      (record { code = some "loan" }) none

abbrev drafted_db : Database
drafted_db = record empty_db { requests = drafted ∷ [] }

drafting :
    create_request config outside 1000 row "bank-a" "officer" entry empty_db
    ≡ ok (drafted, drafted_db)
unfolding create_request create_by_grants check_code_lists check_entry check_scope_policies
    resolve_grants current_policy get_verification_material within_policy is_subset member to_set
    keep given_identifiers max_delta iso_duration_to_timedelta
drafting = refl

create_request-IsCreated_example :
    IsComplete config 1000 entry
    × IsCreated config systems 1000 row "bank-a" "officer" entry drafted
    × (drafted_db ≡ record empty_db { requests = add drafted empty_db.requests })
create_request-IsCreated_example =
    create_request-IsCreated config outside 1000 row "bank-a" "officer" entry empty_db drafting

abbrev waiting : ConsentRequest
waiting = submitted 1500 drafted

abbrev waiting_db : Database
waiting_db = record empty_db { requests = waiting ∷ [] }

abbrev all_kept : List Kept
all_kept =
    kept_grant (record { grant = requested_grant; scopes = "name" ∷ "land" ∷ [] }) policy
      (to_set policy.allowed_data_scopes)
    ∷ []

abbrev verified : ConsentRequest
verified = verified_request 2000 "staff" none waiting

abbrev consent : ConsentArtefact
consent = assisted_artefact fresh 2000 waiting none all_kept (assurance_of 2000 "staff" [] none)

abbrev verified_db : Database
verified_db =
    commit_consent verified consent (build_receipt signer fresh.receipt_id (some 2000) consent)
      waiting_db

verifying :
    approve config systems signer fresh 2000 "q1" "staff" none waiting_db
    ≡ ok (verified, consent, verified_db)
unfolding approve visible_request visible approve_checked authenticated Table.get use_case_ceiling
    has_mark collect limits_for limits_of_policy current_policy get_verification_material keep_grant
    member to_set inter keep sorted max_validity
verifying = refl

approve-IsVerified_example :
    (r : ConsentRequest) × (get_request "q1" waiting_db ≡ some r)
    × (visible none r ≡ true)
    × IsVerified config systems 2000 "q1" waiting_db r consent
    × IsOfRequest r consent
    × (verified ≡ verified_request 2000 "staff" none r)
    × (verified_db
        ≡ commit_consent verified consent
            (build_receipt signer fresh.receipt_id (some 2000) consent)
            waiting_db)
approve-IsVerified_example =
    approve-IsVerified config systems signer fresh 2000 "q1" "staff" none waiting_db verifying

approve-GivesAll_example :
    (a : ConsentArtefact) × (db' : Database) × (approve config systems signer fresh 2000 "q1"
        "staff" none waiting_db
      ≡ ok (verified, a, db'))
    × ((kept : List Kept) × (a.grants ≡ some (approved_grants kept))
        × IsWhole ((requested_grant, policy) ∷ []) kept)
unfolding Table.get visible current_policy get_verification_material is_subset member to_set
    authenticated
approve-GivesAll_example =
    approve-GivesAll config systems fresh 2000 "q1" "staff" waiting_db waiting
      ((requested_grant, policy) ∷ []) {until = 9000} signer none refl refl refl refl
      ((refl, refl, refl, refl), tt) (refl, tt) refl refl refl (ground arith)

abbrev services : Services
services = record {
  config = config;
  out = outside;
  signer = signer;
  tokens = record {
    decode_id_token = λ token. ok (
      record {
        subject_id_value = some "42";
        sub = none;
        iss = none;
        amr = Methods.absent;
        acr = none;
      },
      true,
    );
    hash_token = λ token. token;
  };
}

abbrev calls : List (Time × Call)
calls =
    (1000, Call.create row body)
    ∷ (1500, Call.authenticate "x1" 1500 "q1" "t")
    ∷ (2000, Call.approve fresh "q1" approval)
    ∷ (2500, Call.approve fresh "q1" approval)
    ∷ []

perform-IsOnce_example : IsOnce (perform services 2000 (Call.approve fresh "q1" approval) db)
perform-IsOnce_example = perform-IsOnce services 2000 (Call.approve fresh "q1" approval) db (tt, tt)

perform_all-IsOnce_example : IsOnce (perform_all services calls empty_db)
perform_all-IsOnce_example = perform_all-IsOnce services calls empty_db (tt, tt)

perform-Next_example :
    Next 2000
      (Call.approve_assisted fresh "q1" "staff" none)
      "q1"
      waiting
      (perform services 2000 (Call.approve_assisted fresh "q1" "staff" none) waiting_db)
unfolding Table.get
perform-Next_example =
    perform-Next services 2000 "q1" waiting_db {r = waiting} refl
      (Call.approve_assisted fresh "q1" "staff" none)

abbrev ended : ConsentRequest
ended = record waiting { status = RequestStatus.cancelled }

abbrev late_calls : List (Time × Call)
late_calls =
    (3000, Call.approve_assisted fresh "q1" "staff" none)
    ∷ (3100, Call.deny "q1")
    ∷ (3200, Call.approve fresh "q1" approval)
    ∷ []

perform_all-ended_requests_example :
    get_request "q1" (perform_all services late_calls (record empty_db { requests = ended ∷ [] }))
    ≡ some ended
unfolding Table.get
perform_all-ended_requests_example =
    perform_all-ended_requests services late_calls "q1" (record empty_db { requests = ended ∷ [] })
      {r = ended} refl (λ e. cc e) (λ e. cc e)
