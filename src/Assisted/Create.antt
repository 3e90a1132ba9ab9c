-- ===== src/Assisted/Create.antt =====
-- AssistedConsentService.create_request, and the checks of its body (schemas/portal.py).
use consent_manager.Base.{
  String, Bool, true, false, not, ◌&&◌, ◌||◌, Option, none, some, List, [], ◌∷◌, map, truthy,
  or_empty, leb, has_text, text_of, ok, err, ◌>>=◌, ◌>>◌, raise_if, if◌then◌else◌,
}
use consent_manager.Models.Status.{RequestStatus, RequestMethod}
use consent_manager.Models.Rows.{
  Time, Purpose, SubjectId, ConsentGrant, RequestedGrant, ConsentRequest,
}
use consent_manager.Models.Database.{Database}
use consent_manager.Config.{Settings, consent_by_use_case}
use consent_manager.Scopes.{member, nonempty, to_set, sorted}
use consent_manager.Policy.Records.{PmPolicy, is_none, distinct_controllers}
use consent_manager.Policy.Evaluate.{allowed_by}
use consent_manager.Lifecycle.Errors.{error, Fallible}
use consent_manager.Lifecycle.UseCases.{Systems, resolve_use_case, resolve_grants, exceeds, joined}
use consent_manager.Lifecycle.Create.{
  NewRow, only_controller, all_scopes, grants_in, code_of, purpose_or_empty, stored,
  all_have_scopes,
}
use consent_manager.Assisted.Identifiers.{
  strip_text, given_identifiers, missing_types, identifiers_or_none,
}

-- AssistedRequestCreate; the two entries of `validity` are fields.
pub record AssistedRequestCreate : Type 0 where
  pub subject_id : SubjectId
  pub subject_identifiers : List SubjectId
  pub purpose : Option Purpose
  pub grants : Option (List ConsentGrant)
  pub valid_from : Option Time
  pub valid_until : Option Time
  pub use_case : Option String

-- A Master Data code list, as far as it is read.
pub record CodeList : Type 0 where
  pub list_code : String
  pub codes : List String

-- `code_list(kind)` of the Master Data client is None where the list is not loaded.
pub record Outside : Type 0 where
  pub systems : Systems
  pub code_list : String → Option CodeList

all_identified : List SubjectId → Bool
all_identified [] = true
all_identified (i ∷ is) =
    has_text (strip_text i.type) && has_text (strip_text i.value) && all_identified is

distinct_types : List SubjectId → Bool
unfolding all_identified
distinct_types [] = true
distinct_types (i ∷ is) =
    not (member (strip_text i.type) (map (λ (j : SubjectId). strip_text j.type) is))
    && distinct_types is

purposed : AssistedRequestCreate → Option (List ConsentGrant) → Bool
purposed body none = truthy body.use_case
purposed body (some grants) =
    not (is_none body.purpose) && distinct_controllers grants && all_have_scopes grants

ordered : Option Time → Option Time → Bool
ordered (some from_time) (some until) = not (leb until from_time)
ordered _ _ = true

-- AssistedRequestCreate._subject_present and _check: whether the validators accept the body
unfoldable pub valid_body : AssistedRequestCreate → Bool
unfolding all_identified distinct_types purposed ordered
valid_body body =
    has_text (strip_text body.subject_id.type)
    && has_text (strip_text body.subject_id.value)
    && all_identified body.subject_identifiers
    && distinct_types body.subject_identifiers
    && not (
        member body.subject_id.type
          (map (λ (j : SubjectId). strip_text j.type) body.subject_identifiers))
    && purposed body body.grants
    && ordered body.valid_from body.valid_until

in_code_list : String → String → Option CodeList → Fallible (Unit {0})
in_code_list what value none = ok tt
in_code_list what value (some codes) = raise_if (not (member value codes.codes)) (
    error 400 (
      text_of (
        "unknown "
        ∷ what
        ∷ " '"
        ∷ value
        ∷ "': not in Master Data list "
        ∷ codes.list_code
        ∷ " (one of "
        ∷ joined (sorted (to_set codes.codes))
        ∷ ")"
        ∷ [])))

purpose_in_list : Outside → Option Purpose → Fallible (Unit {0})
unfolding in_code_list
purpose_in_list out none = ok tt
purpose_in_list out (some purpose) =
    in_code_list "purpose" (or_empty purpose.code) (out.code_list "purposes")

-- AssistedConsentService._check_code_lists
unfoldable pub check_code_lists : Settings → Outside → AssistedRequestCreate → Fallible (Unit {0})
unfolding in_code_list purpose_in_list
check_code_lists config out body = do
  in_code_list "subject ID type" body.subject_id.type (out.code_list "subject_id_types")
  if consent_by_use_case config then ok tt else purpose_in_list out body.purpose

-- AssistedConsentService._check_scope_policies
unfoldable pub check_scope_policies :
    AssistedRequestCreate → Time → List (RequestedGrant × PmPolicy) → Fallible (Unit {0})
check_scope_policies body now [] = ok tt
check_scope_policies body now ((grant, policy) ∷ rest) = do
  raise_if (not (allowed_by policy.allowed_purposes (code_of body.purpose))) (
      error 422
        (text_of ("purpose_not_allowed for data_controller '" ∷ grant.data_controller ∷ "'" ∷ [])))
  raise_if (not (allowed_by policy.allowed_subject_id_types (some body.subject_id.type))) (
      error 422
        (text_of ("subject_not_allowed for data_controller '" ∷ grant.data_controller ∷ "'" ∷ [])))
  raise_if (exceeds policy body.valid_from body.valid_until now) (
      error 422 (
        text_of
          ("validity_exceeds_policy for data_controller '" ∷ grant.data_controller ∷ "'" ∷ [])))
  check_scope_policies body now rest

abbrev pub has_ended : Option Time → Time → Bool
has_ended none now = false
has_ended (some until) now = leb until now

-- ConsentRequest(...); `grants`, `purpose` and `use_case` are what was resolved.
abbrev pub assisted_request :
    NewRow
    → String
    → String
    → AssistedRequestCreate
    → List RequestedGrant
    → Purpose
    → Option String
    → ConsentRequest
assisted_request row audience username body grants purpose use_case = record {
  id = row.id;
  created_at = row.created_at;
  subject_id_type = body.subject_id.type;
  subject_id_value = body.subject_id.value;
  controller_id = only_controller grants;
  partner_id = audience;
  purpose = purpose;
  requested_scopes = all_scopes grants;
  grants = some grants;
  valid_from = body.valid_from;
  valid_until = body.valid_until;
  status = RequestStatus.pending;
  subject_identifiers = identifiers_or_none (given_identifiers body.subject_identifiers []);
  method = some RequestMethod.assisted;
  use_case = use_case;
  created_by = some username;
  partner_audience = some audience;
  submitted_at = none;
  verified_by = none;
  verified_at = none;
  verification_note = none;
}

-- What both ways check between the resolution of grants and that of the use case.
unfoldable pub check_entry : Settings → Time → AssistedRequestCreate → Fallible (Unit {0})
check_entry config now body = do
  let missing =
      missing_types config.subject_required_identifiers
        (given_identifiers body.subject_identifiers [])
  raise_if (nonempty missing)
      (error 422 (text_of ("the subject's " ∷ joined missing ∷ " is required" ∷ [])))
  raise_if (has_ended body.valid_until now) (error 422 "validity.valid_until is in the past")

-- At the Exchange: for a use case.
unfoldable pub create_by_use_case :
    Settings
    → Outside
    → Time
    → NewRow
    → String
    → String
    → AssistedRequestCreate
    → Fallible ConsentRequest
create_by_use_case config out now row audience username body = do
  raise_if (not (is_none body.grants) || not (truthy body.use_case)) (
      error 400
        "at the Exchange, consents are made for a use case: send 'use_case' (name@major) without grants, data_controller or requested_scopes")
  check_code_lists config out body
  check_entry config now body
  (u, policy, grants) ←
      resolve_use_case out.systems now audience (or_empty body.use_case) body.subject_id.type
        (code_of body.purpose) body.valid_from body.valid_until
  ok (assisted_request row audience username body grants (record { code = u.purpose }) (some u.ref))

-- Elsewhere: for grants; the use case is a label.
unfoldable pub create_by_grants :
    Settings
    → Outside
    → Time
    → NewRow
    → String
    → String
    → AssistedRequestCreate
    → Option (List ConsentGrant)
    → Fallible ConsentRequest
create_by_grants config out now row audience username body none =
    err (error 422 "'grants' is required")
create_by_grants config out now row audience username body (some grants) = do
  check_code_lists config out body
  resolved ← resolve_grants out.systems audience grants
  check_entry config now body
  check_scope_policies body now resolved
  ok (
      assisted_request row audience username body (grants_in resolved)
        (purpose_or_empty body.purpose) body.use_case)

-- AssistedConsentService.create_request
unfoldable pub create_request :
    Settings
    → Outside
    → Time
    → NewRow
    → String
    → String
    → AssistedRequestCreate
    → Database
    → Fallible (ConsentRequest × Database)
create_request config out now row audience username body db =
    stored
      (if consent_by_use_case config
        then create_by_use_case config out now row audience username body
        else create_by_grants config out now row audience username body body.grants)
      db
