-- ===== src/Lifecycle/Create.antt =====
-- LifecycleService.create_request, and the shape of its body (schemas/lifecycle.py).
use consent_manager.Base.{
  String, Bool, true, false, not, ◌&&◌, Option, none, some, List, [], ◌∷◌, map, truthy, or_empty,
  ok, ◌>>=◌, ◌>>◌, raise_if, if◌then◌else◌,
}
use consent_manager.Models.Status.{RequestStatus}
use consent_manager.Models.Rows.{
  Time, Purpose, SubjectId, ConsentGrant, RequestedGrant, ConsentRequest,
}
use consent_manager.Models.Database.{Database, add}
use consent_manager.Config.{Settings, consent_by_use_case}
use consent_manager.Scopes.{nonempty, to_set, sorted, union_of}
use consent_manager.Policy.Records.{PmPolicy, is_none, distinct_controllers}
use consent_manager.Lifecycle.Errors.{error, Fallible}
use consent_manager.Lifecycle.UseCases.{Systems, resolve_use_case, resolve_grants}

-- ConsentRequestCreate; the two entries of `validity` are fields.
pub record ConsentRequestCreate : Type 0 where
  pub subject_id : SubjectId
  pub partner_id : String
  pub purpose : Option Purpose
  pub data_controller : Option String
  pub requested_scopes : Option (List String)
  pub grants : Option (List ConsentGrant)
  pub valid_from : Option Time
  pub valid_until : Option Time
  pub use_case : Option String

unfoldable pub all_have_scopes : List ConsentGrant → Bool
all_have_scopes [] = true
all_have_scopes (g ∷ gs) = nonempty g.data_scopes && all_have_scopes gs

grants_or_scopes : ConsentRequestCreate → Option (List ConsentGrant) → Option (List String) → Bool
unfolding all_have_scopes distinct_controllers
grants_or_scopes body none none = false
grants_or_scopes body none (some scopes) = truthy body.data_controller
grants_or_scopes body (some grants) none =
    is_none body.data_controller && distinct_controllers grants && all_have_scopes grants
grants_or_scopes body (some grants) (some scopes) = false

-- ConsentRequestCreate._one_shape: whether the validator accepts the body
unfoldable pub one_shape : ConsentRequestCreate → Bool
unfolding grants_or_scopes is_none
one_shape body =
    if is_none body.use_case
    then not (is_none body.purpose) && grants_or_scopes body body.grants body.requested_scopes
    else is_none body.grants && is_none body.requested_scopes && is_none body.data_controller

-- The row's new id and its created_at.
pub record NewRow : Type 0 where
  pub id : String
  pub created_at : Time

-- `grants[0]["data_controller"] if len(grants) == 1 else None`
abbrev pub only_controller : List RequestedGrant → Option String
only_controller [] = none
only_controller (g ∷ []) = some g.data_controller
only_controller (g ∷ h ∷ gs) = none

-- `sorted({s for g in grants for s in g["data_scopes"]})`
abbrev pub all_scopes : List RequestedGrant → List String
all_scopes gs = sorted (to_set (union_of (map (λ (g : RequestedGrant). g.data_scopes) gs)))

-- ConsentRequest(...) with the columns that every created request has.
abbrev pub new_request : NewRow → ConsentRequestCreate → Purpose → ConsentRequest
new_request row body purpose = record {
  id = row.id;
  created_at = row.created_at;
  subject_id_type = body.subject_id.type;
  subject_id_value = body.subject_id.value;
  controller_id = none;
  partner_id = body.partner_id;
  purpose = purpose;
  requested_scopes = [];
  grants = none;
  valid_from = body.valid_from;
  valid_until = body.valid_until;
  status = RequestStatus.pending;
  subject_identifiers = none;
  method = none;
  use_case = none;
  created_by = none;
  partner_audience = none;
  submitted_at = none;
  verified_by = none;
  verified_at = none;
  verification_note = none;
}

-- The request for the scopes of one controller, or for grants.
abbrev pub purpose_or_empty : Option Purpose → Purpose
purpose_or_empty none = record { code = none }
purpose_or_empty (some purpose) = purpose

abbrev pub scopes_or_empty : Option (List String) → List String
scopes_or_empty none = []
scopes_or_empty (some scopes) = scopes

-- What is resolved: the grants, or the one controller with its scopes.
abbrev pub requested_grants : ConsentRequestCreate → Option (List ConsentGrant) → List ConsentGrant
requested_grants body (some grants) = grants
requested_grants body none =
    record {
      data_controller = or_empty body.data_controller;
      data_scopes = scopes_or_empty body.requested_scopes;
    }
    ∷ []

abbrev pub with_grants :
    Option (List ConsentGrant)
    → ConsentRequestCreate
    → List RequestedGrant
    → ConsentRequest
    → ConsentRequest
with_grants (some given) body grants req = record req {
  grants = some grants;
  requested_scopes = all_scopes grants;
  controller_id = only_controller grants;
}
with_grants none body grants req = record req {
  requested_scopes = scopes_or_empty body.requested_scopes;
  controller_id = body.data_controller;
}

abbrev pub grants_in : List (RequestedGrant × PmPolicy) → List RequestedGrant
grants_in resolved = map (λ (r : RequestedGrant × PmPolicy). r.0) resolved

unfoldable pub scope_request : Systems → NewRow → ConsentRequestCreate → Fallible ConsentRequest
scope_request out row body = do
  resolved ← resolve_grants out body.partner_id (requested_grants body body.grants)
  ok (
      with_grants body.grants body (grants_in resolved)
        (new_request row body (purpose_or_empty body.purpose)))

abbrev pub code_of : Option Purpose → Option String
code_of none = none
code_of (some purpose) = purpose.code

-- LifecycleService._create_use_case_request; `now` is the service's clock.
unfoldable pub use_case_request :
    Settings → Systems → Time → NewRow → ConsentRequestCreate → String → Fallible ConsentRequest
use_case_request config out now row body ref = do
  raise_if (not (consent_by_use_case config))
      (error 422 "use_case is for the exchange role: give the grants instead")
  (u, policy, grants) ←
      resolve_use_case out now body.partner_id ref body.subject_id.type (code_of body.purpose)
        body.valid_from body.valid_until
  ok (record (new_request row body (record { code = u.purpose })) {
    controller_id = only_controller grants;
    requested_scopes = all_scopes grants;
    grants = some grants;
    use_case = some u.ref;
  })

unfoldable pub requested :
    Settings
    → Systems
    → Time
    → NewRow
    → ConsentRequestCreate
    → Option String
    → Fallible ConsentRequest
requested config out now row body none = do
  raise_if (consent_by_use_case config) (
      error 400
        "at the Exchange, consents are made for a use case: send 'use_case' (name@major) without grants, data_controller or requested_scopes")
  scope_request out row body
requested config out now row body (some ref) = use_case_request config out now row body ref

abbrev pub stored : Fallible ConsentRequest → Database → Fallible (ConsentRequest × Database)
stored call db = do req ← call; ok (req, record db { requests = add req db.requests })

-- LifecycleService.create_request
unfoldable pub create_request :
    Settings
    → Systems
    → Time
    → NewRow
    → ConsentRequestCreate
    → Database
    → Fallible (ConsentRequest × Database)
unfolding requested
create_request config out now row body db =
    stored (requested config out now row body body.use_case) db
