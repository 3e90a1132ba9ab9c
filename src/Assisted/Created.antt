-- ===== src/Assisted/Created.antt =====
-- What a created assisted request is, and that nothing of it is lost while the policies stay as they
-- are.
use consent_manager.Base.{
  String, true, false, not, ◌||◌, Option, none, some, List, [], ◌∷◌, ◌≡◌, ◌⊎◌, refl, sym, truthy,
  or_empty, ok, raise_if-ok, ok-injective, bind-ok, Bool-cases, arith, inl, inr,
}
use consent_manager.Models.Rows.{Time, ConsentGrant, RequestedGrant, ConsentRequest}
use consent_manager.Models.Table
use consent_manager.Models.Database.{Database, add}
use consent_manager.Config.{Settings, consent_by_use_case}
use consent_manager.Scopes.{nonempty}
use consent_manager.Policy.Records.{PmPolicy, is_none}
use consent_manager.Policy.Evaluate.{allowed_by}
use consent_manager.Composite.Records.{UseCase}
use consent_manager.Lifecycle.UseCases.{Systems, resolve_use_case, resolve_grants, exceeds}
use consent_manager.Lifecycle.Create.{NewRow, grants_in, code_of, purpose_or_empty}
use consent_manager.Lifecycle.Created.{stored-ok}
use consent_manager.Lifecycle.Resolved.{
  IsResolved, Asked, resolve_grants-IsResolved, IsResolvedUseCase, resolve_use_case-ok,
}
use consent_manager.Assisted.Identifiers.{given_identifiers, missing_types}
use consent_manager.Assisted.Create.{
  AssistedRequestCreate, Outside, assisted_request, has_ended, check_entry, check_code_lists,
  check_scope_policies, create_by_use_case, create_by_grants, create_request,
}

-- The policies of the grants allow the purpose, the subject's ID type and the validity.
abbrev pub Allows : AssistedRequestCreate → Time → RequestedGrant × PmPolicy → Type 0
Allows body now (g, policy) =
    (allowed_by policy.allowed_purposes (code_of body.purpose) ≡ true)
    × (allowed_by policy.allowed_subject_id_types (some body.subject_id.type) ≡ true)
    × (exceeds policy body.valid_from body.valid_until now ≡ false)

check_scope_policies-Allows :
    (body : AssistedRequestCreate) (now : Time) (resolved : List (RequestedGrant × PmPolicy))
    → check_scope_policies body now resolved ≡ ok tt
    → Table.All (Allows body now) resolved
unfolding check_scope_policies
check_scope_policies-Allows body now [] h = tt
check_scope_policies-Allows body now ((g, policy) ∷ rest) h =
    let (purposed, h1) =
      raise_if-ok (not (allowed_by policy.allowed_purposes (code_of body.purpose))) _ _ h in
    let (typed, h2) =
      raise_if-ok (not (allowed_by policy.allowed_subject_id_types (some body.subject_id.type))) _ _
        h1 in
    let (short, h3) = raise_if-ok (exceeds policy body.valid_from body.valid_until now) _ _ h2 in
    ((ground arith, ground arith, short), check_scope_policies-Allows body now rest h3)

-- The required identifiers are there, and the validity has not ended.
abbrev pub IsComplete : Settings → Time → AssistedRequestCreate → Type 0
IsComplete config now body =
    (nonempty (
        missing_types config.subject_required_identifiers
          (given_identifiers body.subject_identifiers []))
      ≡ false)
    × (has_ended body.valid_until now ≡ false)

check_entry-IsComplete :
    (config : Settings) (now : Time) (body : AssistedRequestCreate)
    → check_entry config now body ≡ ok tt
    → IsComplete config now body
unfolding check_entry
check_entry-IsComplete config now body h =
    let (present, h1) =
      raise_if-ok
        (nonempty (
          missing_types config.subject_required_identifiers
            (given_identifiers body.subject_identifiers [])))
        _ _ h in
    (present, ground arith)

-- A request by grants: each within the partner's current policy.
abbrev pub IsByGrants :
    Systems
    → Time
    → NewRow
    → String
    → String
    → AssistedRequestCreate
    → List ConsentGrant
    → ConsentRequest
    → Type 0
IsByGrants out now row audience username body grants r =
    (resolved : List (RequestedGrant × PmPolicy)) × Table.All (IsResolved out audience) resolved
    × Asked grants resolved
    × Table.All (Allows body now) resolved
    × (r
        ≡ assisted_request row audience username body (grants_in resolved)
            (purpose_or_empty body.purpose) body.use_case)

create_by_grants-IsByGrants :
    (config : Settings) (out : Outside) (now : Time) (row : NewRow) (audience username : String)
    (body : AssistedRequestCreate) (grants : Option (List ConsentGrant)) {r : ConsentRequest}
    → create_by_grants config out now row audience username body grants ≡ ok r
    → (given : List ConsentGrant) × (grants ≡ some given)
      × IsComplete config now body
      × IsByGrants out.systems now row audience username body given r
unfolding create_by_grants
create_by_grants-IsByGrants config out now row audience username body none h = cc
create_by_grants-IsByGrants config out now row audience username body (some given) h =
    let (_, listed, h1) = bind-ok (check_code_lists config out body) _ h in
    let (resolved, found, h2) = bind-ok (resolve_grants out.systems audience given) _ h1 in
    let (_, entered, h3) = bind-ok (check_entry config now body) _ h2 in
    let (_, allowed, made) = bind-ok (check_scope_policies body now resolved) _ h3 in
    let (within, own) =
      resolve_grants-IsResolved out.systems audience given {rs = resolved} found in
    (
      given,
      refl,
      check_entry-IsComplete config now body entered,
      (
        resolved,
        within,
        own,
        check_scope_policies-Allows body now resolved allowed,
        sym (ok-injective made),
      ),
    )

-- A request at the Exchange: for a use case.
abbrev pub IsByUseCase :
    Systems → Time → NewRow → String → String → AssistedRequestCreate → ConsentRequest → Type 0
IsByUseCase out now row audience username body r =
    (u : UseCase) × (policy : PmPolicy) × (grants : List RequestedGrant) × IsResolvedUseCase out
      audience now (or_empty body.use_case) body.subject_id.type (code_of body.purpose)
      body.valid_from body.valid_until u policy grants
    × (r
        ≡ assisted_request row audience username body grants (record { code = u.purpose })
            (some u.ref))

create_by_use_case-IsByUseCase :
    (config : Settings) (out : Outside) (now : Time) (row : NewRow) (audience username : String)
    (body : AssistedRequestCreate) {r : ConsentRequest}
    → create_by_use_case config out now row audience username body ≡ ok r
    → (is_none body.grants ≡ true)
      × IsComplete config now body
      × IsByUseCase out.systems now row audience username body r
unfolding create_by_use_case
create_by_use_case-IsByUseCase config out now row audience username body h =
    let (named, h1) = raise_if-ok (not (is_none body.grants) || not (truthy body.use_case)) _ _ h in
    let (_, listed, h2) = bind-ok (check_code_lists config out body) _ h1 in
    let (_, entered, h3) = bind-ok (check_entry config now body) _ h2 in
    let ((u, policy, grants), found, made) =
      bind-ok
        (resolve_use_case out.systems now audience (or_empty body.use_case) body.subject_id.type
          (code_of body.purpose) body.valid_from body.valid_until)
        _ h3 in
    (
      ground arith,
      check_entry-IsComplete config now body entered,
      (
        u,
        policy,
        grants,
        resolve_use_case-ok out.systems audience now (or_empty body.use_case) body.subject_id.type
            (code_of body.purpose) body.valid_from body.valid_until {u = u} {policy = policy}
            {grants = grants} found,
        sym (ok-injective made),
      ),
    )

abbrev pub IsCreated :
    Settings
    → Systems
    → Time
    → NewRow
    → String
    → String
    → AssistedRequestCreate
    → ConsentRequest
    → Type 0
IsCreated config out now row audience username body r =
    ((consent_by_use_case config ≡ true)
      × (is_none body.grants ≡ true)
      × IsByUseCase out now row audience username body r)
    ⊎ ((consent_by_use_case config ≡ false)
        × ((given : List ConsentGrant) × (body.grants ≡ some given)
            × IsByGrants out now row audience username body given r))

-- An assisted request is created with the identifiers that are required, a validity that has not ended,
-- and only within what the partner is granted at that time: at the Exchange for a use case whose policy
-- allows its purpose, the subject's ID type and the validity; elsewhere for grants, each within a
-- current policy that allows these too. One row is stored.
pub create_request-IsCreated :
    (config : Settings) (out : Outside) (now : Time) (row : NewRow) (audience username : String)
    (body : AssistedRequestCreate) (db : Database) {r : ConsentRequest} {db' : Database}
    → create_request config out now row audience username body db ≡ ok (r, db')
    → IsComplete config now body
      × IsCreated config out.systems now row audience username body r
      × (db' ≡ record db { requests = add r db.requests })
unfolding create_request
create_request-IsCreated config out now row audience username body db {r} h =
    elim (Bool-cases (consent_by_use_case config)) [
      | inl exchange ↦
          let (made, saved) =
            stored-ok (create_by_use_case config out now row audience username body) db {r = r}
              (rw exchange at h) in
          let (bare, complete, own) =
            create_by_use_case-IsByUseCase config out now row audience username body made in
          (complete, inl (exchange, bare, own), saved)
      | inr elsewhere ↦
          let (made, saved) =
            stored-ok (create_by_grants config out now row audience username body body.grants) db
              {r = r} (rw elsewhere at h) in
          let (given, e, complete, own) =
            create_by_grants-IsByGrants config out now row audience username body body.grants
              made in
          (complete, inr (elsewhere, (given, e, own)), saved)
    ]
