-- ===== src/Composite/Records.antt =====
-- UseCase and from_composite. A dict is a list of entries, one for each key.
use consent_manager.Base.{
  String, not, ◌||◌, Option, none, some, List, [], ◌∷◌, ◌++◌, map, ◌==◌, if◌then◌else◌,
}
use consent_manager.Scopes.{member, nonempty, keep, to_set, sorted}

pub record UseCaseGrant : Type 0 where
  pub data_controller : String
  pub data_scopes : List String
  pub required_scopes : List String
  pub optional_scopes : List String

-- Title and description are only shown.
pub record UseCase : Type 0 where
  pub ref : String
  pub title : Option String
  pub description : Option String
  pub purpose : Option String
  pub grants : List UseCaseGrant
  pub unscoped_controllers : List String
  pub subject_id_types : List String

pub record ScopeEntry : Type 0 where
  pub controller : String
  pub required : List String
  pub optional : List String

-- The body of the Composite's answer, with `or` taken: a missing list is empty, a missing text None.
pub record PublishedUseCase : Type 0 where
  pub use_case : String
  pub title : Option String
  pub description : Option String
  pub purpose : Option String
  pub consent_scopes : List ScopeEntry
  pub consent_grants_needed : List String
  pub subject_id_types : List String

-- `xs - ys`
unfoldable pub minus : List String → List String → List String
unfolding keep
minus xs ys = keep (λ x. not (member x ys)) xs

-- `scopes[controller] or {}`
unfoldable pub entry_of : String → List ScopeEntry → Option ScopeEntry
entry_of c [] = none
entry_of c (e ∷ es) = if e.controller == c then some e else entry_of c es

abbrev pub required_of : ScopeEntry → List String
required_of e = sorted (to_set e.required)

abbrev pub optional_of : ScopeEntry → List String
optional_of e = sorted (minus (to_set e.optional) (to_set (required_of e)))

abbrev pub grant_of : String → ScopeEntry → UseCaseGrant
grant_of c e = record {
  data_controller = c;
  data_scopes = sorted (to_set (required_of e ++ optional_of e));
  required_scopes = required_of e;
  optional_scopes = optional_of e;
}

-- An entry without scopes makes no grant.
unfoldable pub add_grant : String → Option ScopeEntry → List UseCaseGrant → List UseCaseGrant
add_grant c none rest = rest
add_grant c (some e) rest =
    if nonempty (required_of e) || nonempty (optional_of e) then grant_of c e ∷ rest else rest

unfoldable pub grants_of : List ScopeEntry → List String → List UseCaseGrant
unfolding add_grant entry_of
grants_of scopes [] = []
grants_of scopes (c ∷ cs) = add_grant c (entry_of c scopes) (grants_of scopes cs)

abbrev pub controllers_of : List UseCaseGrant → List String
controllers_of gs = map (λ (g : UseCaseGrant). g.data_controller) gs

-- UseCase.from_composite
unfoldable pub from_composite : PublishedUseCase → UseCase
unfolding grants_of minus
from_composite body =
    let grants =
      grants_of body.consent_scopes
        (sorted (map (λ (e : ScopeEntry). e.controller) body.consent_scopes)) in
    record {
      ref = body.use_case;
      title = body.title;
      description = body.description;
      purpose = body.purpose;
      grants = grants;
      unscoped_controllers =
          sorted (minus (to_set body.consent_grants_needed) (to_set (controllers_of grants)));
      subject_id_types = body.subject_id_types;
    }
