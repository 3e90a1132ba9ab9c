-- ===== src/Lifecycle/UseCases.antt =====
-- LifecycleService: the partner's policies, and consent by use case.
use consent_manager.Base.{
  String, Bool, false, not, ◌&&◌, ◌||◌, Option, none, some, List, [], ◌∷◌, map, same, truthy,
  or_empty, has_text, text_of, ok, err, ◌>>=◌, ◌>>◌, raise_if, if◌then◌else◌,
}
use consent_manager.Models.Rows.{Time, ConsentGrant, RequestedGrant, ConsentRequest}
use consent_manager.Duration.{codes}
use consent_manager.Scopes.{nonempty, is_subset, to_set}
use consent_manager.Policy.Records.{PmPolicy, Material, policy_fields}
use consent_manager.Policy.Evaluate.{allowed_by, max_delta, longer_than}
use consent_manager.Verification.Partners.{
  Answer, unavailable, answered, PolicySource, get_verification_material,
}
use consent_manager.Composite.Records.{UseCase, UseCaseGrant}
use consent_manager.Composite.Client.{Reading, published}
use consent_manager.Composite.Source.{UseCaseSource}
use consent_manager.Composite.Reference.{is_use_case_ref}
use consent_manager.Lifecycle.Errors.{error, Fallible}

-- The two systems that the service asks.
pub record Systems : Type 0 where
  pub policies : PolicySource
  pub use_cases : UseCaseSource

policy_of : Answer Material → Fallible (Option PmPolicy)
policy_of unavailable =
    err (error 503 "the partner's policy could not be read from Partner Management")
policy_of (answered none) = ok none
policy_of (answered (some material)) = ok (some material.policy)

-- LifecycleService.current_policy
unfoldable pub current_policy : Systems → String → Option String → Fallible (Option PmPolicy)
unfolding policy_of
current_policy out audience controller =
    policy_of (get_verification_material out.policies audience controller none)

-- LifecycleService.use_case_policy
unfoldable pub use_case_policy : Systems → String → String → Fallible (Option PmPolicy)
unfolding policy_of
use_case_policy out audience ref =
    policy_of (get_verification_material out.policies audience none (some ref))

-- `", ".join(...)`
pub joined : List String → String
joined [] = ""
joined (x ∷ []) = x
joined (x ∷ y ∷ rest) = text_of (x ∷ ", " ∷ joined (y ∷ rest) ∷ [])

unfoldable pub consentable : String → UseCase → Fallible UseCase
unfolding joined
consentable ref u = do
  raise_if (nonempty u.unscoped_controllers || not (nonempty u.grants)) (
      error 422 (
        text_of (
          "use case '"
          ∷ ref
          ∷ "' does not name the scopes it needs from "
          ∷ (if nonempty u.unscoped_controllers
              then joined u.unscoped_controllers
              else "any registry")
          ∷ ": a consent cannot be made for it"
          ∷ [])))
  raise_if (not (truthy u.purpose)) (
      error 422
        (text_of ("use case '" ∷ ref ∷ "' names no purpose: a consent cannot be made for it" ∷ [])))
  ok u

unfoldable pub usable : String → Reading → Fallible UseCase
unfolding consentable
usable ref Reading.unavailable = err (
    error 503 (
      text_of (
        "the Composite could not be reached to read use case '" ∷ ref
        ∷ "'; a consent by use case cannot be made now" ∷ [])))
usable ref (published none) =
    err (error 422 (text_of ("use case '" ∷ ref ∷ "' is not published on the Composite" ∷ [])))
usable ref (published (some u)) = consentable ref u

-- LifecycleService.read_use_case
unfoldable pub read_use_case : Systems → String → Fallible UseCase
unfolding usable
read_use_case out ref = usable ref (out.use_cases.read ref)

unfoldable pub granted_policy : String → Option PmPolicy → Fallible PmPolicy
granted_policy ref (some policy) = ok policy
granted_policy ref none = err (
    error 422 (
      text_of (
        "use_case_not_granted: use case '" ∷ ref
        ∷ "' is not granted to the partner in Partner Management" ∷ [])))

-- LifecycleService.granted_use_case
unfoldable pub granted_use_case : Systems → String → String → Fallible (PmPolicy × UseCase)
unfolding granted_policy
granted_use_case out audience ref = do
  raise_if (not (has_text ref) || not (is_use_case_ref (codes ref)))
      (error 422 "use_case must be name@major, e.g. loan-profile@1")
  answer ← use_case_policy out audience ref
  policy ← granted_policy ref answer
  u ← read_use_case out ref
  ok (policy, u)

-- A grant made by use case, with the mark that approval reads.
abbrev pub marked_grant : PmPolicy → UseCase → UseCaseGrant → RequestedGrant
marked_grant policy u g = record {
  data_controller = g.data_controller;
  data_scopes = g.data_scopes;
  policy = policy_fields policy;
  use_case = some u.ref;
}

-- `valid_from or now`
abbrev pub or_now : Option Time → Time → Time
or_now none now = now
or_now (some t) now = t

-- `valid_until is not None and ... > limit`
abbrev pub exceeds : PmPolicy → Option Time → Option Time → Time → Bool
exceeds policy valid_from none now = false
exceeds policy valid_from (some until) now =
    longer_than (max_delta policy) (or_now valid_from now) until

-- LifecycleService.resolve_use_case
unfoldable pub resolve_use_case :
    Systems
    → Time
    → String
    → String
    → String
    → Option String
    → Option Time
    → Option Time
    → Fallible (UseCase × PmPolicy × List RequestedGrant)
resolve_use_case out now audience ref subject_id_type purpose_code valid_from valid_until = do
  (policy, u) ← granted_use_case out audience ref
  raise_if (truthy purpose_code && not (same purpose_code u.purpose)) (
      error 422 (
        text_of (
          "purpose '"
          ∷ or_empty purpose_code
          ∷ "' is not the purpose of use case '"
          ∷ ref
          ∷ "' ('"
          ∷ or_empty u.purpose
          ∷ "')"
          ∷ [])))
  raise_if (not (allowed_by policy.allowed_purposes u.purpose)) (
      error 422 (
        text_of
          ("purpose_not_allowed: '" ∷ or_empty u.purpose ∷ "' by the use case's policy" ∷ [])))
  raise_if (not (allowed_by policy.allowed_subject_id_types (some subject_id_type))) (
      error 422
        (text_of ("subject_not_allowed: '" ∷ subject_id_type ∷ "' by the use case's policy" ∷ [])))
  raise_if (exceeds policy valid_from valid_until now)
      (error 422 "validity_exceeds_policy: by the use case's policy")
  ok (u, policy, map (marked_grant policy u) u.grants)

-- The use case's scopes for each controller, as its policy stands.
pub record Ceiling : Type 0 where
  pub policy : PmPolicy
  pub grants : List UseCaseGrant

unfoldable pub has_mark : Option String → List RequestedGrant → Bool
has_mark use_case [] = false
has_mark use_case (g ∷ gs) = same g.use_case use_case || has_mark use_case gs

abbrev pub grants_or_none : Option (List RequestedGrant) → List RequestedGrant
grants_or_none none = []
grants_or_none (some gs) = gs

-- `req.partner_audience or req.partner_id`
abbrev pub audience_of : ConsentRequest → String
audience_of req =
    if truthy req.partner_audience then or_empty req.partner_audience else req.partner_id

-- The request was made by use case.
abbrev pub by_use_case : ConsentRequest → Bool
by_use_case req = truthy req.use_case && has_mark req.use_case (grants_or_none req.grants)

abbrev pub ceiling_from : Fallible (PmPolicy × UseCase) → Fallible (Option Ceiling)
ceiling_from call = do (policy, u) ← call; ok (some (record { policy = policy; grants = u.grants }))

-- LifecycleService.use_case_ceiling
unfoldable pub use_case_ceiling : Systems → ConsentRequest → Fallible (Option Ceiling)
use_case_ceiling out req =
    if by_use_case req
    then ceiling_from (granted_use_case out (audience_of req) (or_empty req.use_case))
    else ok none

abbrev pub resolved_grant : PmPolicy → ConsentGrant → RequestedGrant
resolved_grant policy g = record {
  data_controller = g.data_controller;
  data_scopes = g.data_scopes;
  policy = policy_fields policy;
  use_case = none;
}

unfoldable pub within_policy : ConsentGrant → Option PmPolicy → Fallible (RequestedGrant × PmPolicy)
within_policy g none = err (
    error 422 (
      text_of (
        "no active policy in Partner Management for data_controller '" ∷ g.data_controller ∷ "'"
        ∷ [])))
within_policy g (some policy) =
    if is_subset (to_set g.data_scopes) (to_set policy.allowed_data_scopes)
    then ok (resolved_grant policy g, policy)
    else err (
        error 422
          (text_of ("scope_exceeds_policy for data_controller '" ∷ g.data_controller ∷ "'" ∷ [])))

-- LifecycleService.resolve_grants
unfoldable pub resolve_grants :
    Systems → String → List ConsentGrant → Fallible (List (RequestedGrant × PmPolicy))
unfolding within_policy
resolve_grants out audience [] = ok []
resolve_grants out audience (g ∷ gs) = do
  answer ← current_policy out audience (some g.data_controller)
  resolved ← within_policy g answer
  rest ← resolve_grants out audience gs
  ok (resolved ∷ rest)
