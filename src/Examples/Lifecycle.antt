-- ===== src/Examples/Lifecycle.antt =====
-- A bank's requests over the API and through its officer, created and approved.
use consent_manager.Base.{◌≡◌, refl, true, none, some, List, [], ◌∷◌, ok}
use consent_manager.Models.Status.{is_pending}
use consent_manager.Models.Rows.{ConsentRequest, ConsentArtefact, AuthContext, RequestedGrant}
use consent_manager.Models.Table
use consent_manager.Models.Database.{Database, get_request, add}
use consent_manager.Scopes.{member, keep, to_set, inter, sorted, is_subset, union_of}
use consent_manager.Receipts.{build_receipt}
use consent_manager.Verification.Partners.{get_verification_material}
use consent_manager.Composite.Records.{PublishedUseCase}
use consent_manager.Composite.Client.{failed, answer, get_use_case}
use consent_manager.Composite.Source
use consent_manager.Composite.Source.{get_use_case-Kept, use_case_source}
use consent_manager.Lifecycle.UseCases.{
  Systems, current_policy, use_case_ceiling, resolve_grants, within_policy, resolved_grant,
}
use consent_manager.Lifecycle.Create.{
  ConsentRequestCreate, NewRow, new_request, create_request, requested, scope_request,
}
use consent_manager.Lifecycle.Created.{IsRequested, create_request-IsRequested}
use consent_manager.Lifecycle.Narrow.{
  Kept, kept_grant, collect, keep_grant, limits_for, limits_of_policy,
}
use consent_manager.Lifecycle.Authenticate.{latest_context, latest_auth_context}
use consent_manager.Lifecycle.Artefacts.{commit_consent}
use consent_manager.Lifecycle.Approve.{
  ApproveRequest, approve, pending_request, authenticated_by, approve_shape, approve_grants,
  approved_by, approvals, check_granted, by_controller, put_grant, approved_request, granted_for,
  requested_for, within_request, grants_artefact,
}
use consent_manager.Lifecycle.Shapes.{IsOfRequest, IsWithin}
use consent_manager.Lifecycle.Approved.{approve-IsWithin}
use consent_manager.Examples.Data.{config, source, empty_db, fresh, signer, policy}

abbrev pub systems : Systems
systems = record {
  policies = source;
  use_cases = use_case_source config (λ ref. none) (λ ref. tt) 0 (λ ref. failed);
}

abbrev pub body : ConsentRequestCreate
body = record {
  subject_id = record { type = "national_id"; value = "42" };
  partner_id = "bank-a";
  purpose = some (record { code = some "loan" });
  data_controller = none;
  requested_scopes = none;
  grants = some (record { data_controller = "farmers"; data_scopes = "name" ∷ "land" ∷ [] } ∷ []);
  valid_from = none;
  valid_until = none;
  use_case = none;
}

abbrev pub row : NewRow
row = record { id = "q1"; created_at = 900 }

abbrev pub requested_grant : RequestedGrant
requested_grant =
    resolved_grant policy
      (record { data_controller = "farmers"; data_scopes = "name" ∷ "land" ∷ [] })

abbrev pub req : ConsentRequest
req = record (new_request row body (record { code = some "loan" })) {
  controller_id = some "farmers";
  requested_scopes = "land" ∷ "name" ∷ [];
  grants = some (requested_grant ∷ []);
}

abbrev pub created_db : Database
created_db = record empty_db { requests = req ∷ [] }

creating : create_request config systems 1000 row body empty_db ≡ ok (req, created_db)
unfolding create_request requested scope_request resolve_grants current_policy
    get_verification_material within_policy is_subset member to_set union_of sorted
creating = refl

create_request-IsRequested_example :
    IsRequested config systems 1000 row body none req
    × (created_db ≡ record empty_db { requests = add req empty_db.requests })
create_request-IsRequested_example =
    create_request-IsRequested config systems 1000 row body empty_db creating

abbrev pub ctx : AuthContext
ctx = record {
  id = "x1";
  created_at = 1500;
  consent_request_id = "q1";
  auth_provider = none;
  auth_method = none;
  auth_timestamp = some 1500;
  issuer = none;
  id_token_hash = "h";
  token_validated = true;
  acr = none;
}

abbrev pub db : Database
db = record created_db { auth_contexts = ctx ∷ [] }

-- The subject approves the name only.
abbrev pub approval : ApproveRequest
approval = record {
  granted_scopes = none;
  grants = some (record { data_controller = "farmers"; data_scopes = "name" ∷ [] } ∷ []);
}

abbrev pub kept : List Kept
kept =
    kept_grant (record { grant = requested_grant; scopes = "name" ∷ [] }) policy
      (to_set policy.allowed_data_scopes)
    ∷ []

abbrev pub approved : ConsentArtefact
approved = grants_artefact fresh 2000 req ctx none kept

abbrev pub approved_db : Database
approved_db =
    commit_consent (approved_request req) approved
      (build_receipt signer fresh.receipt_id none approved) db

approving : approve systems signer fresh 2000 "q1" approval db ≡ ok (approved, approved_db)
unfolding approve pending_request authenticated_by latest_auth_context latest_context keep Table.get
    approve_shape approve_grants approved_by by_controller put_grant check_granted within_request
    requested_for granted_for approvals use_case_ceiling collect limits_for limits_of_policy
    current_policy get_verification_material keep_grant is_subset member to_set inter sorted
approving = refl

approve-IsWithin_example :
    (r : ConsentRequest) × (c : AuthContext) × (get_request "q1" db ≡ some r)
    × (is_pending r.status ≡ true)
    × (latest_auth_context "q1" db ≡ some c)
    × IsOfRequest r c approved
    × IsWithin systems r approval r.grants approved
    × (approved_db
        ≡ commit_consent
            (approved_request r)
            approved
            (build_receipt signer fresh.receipt_id none approved)
            db)
approve-IsWithin_example = approve-IsWithin systems signer fresh 2000 "q1" approval db approving

-- A use case that is published with its scopes.
abbrev loan_profile : PublishedUseCase
loan_profile = record {
  use_case = "loan-profile@1";
  title = none;
  description = none;
  purpose = some "loan";
  consent_scopes = record { controller = "farmers"; required = "name" ∷ []; optional = [] } ∷ [];
  consent_grants_needed = "farmers" ∷ [];
  subject_id_types = [];
}

get_use_case-Kept_example :
    Source.Kept "loan-profile@1"
      (get_use_case config "loan-profile@1" none 10 (answer 200 (some loan_profile)))
get_use_case-Kept_example =
    get_use_case-Kept config "loan-profile@1" none 10 (answer 200 (some loan_profile)) tt
