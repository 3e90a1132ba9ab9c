-- ===== src/Lifecycle/Created.antt =====
-- What a created request is: LifecycleService.create_request.
use consent_manager.Base.{
  String, true, false, not, Option, none, some, List, ◌≡◌, sym, ok, err, raise_if-ok, ok-injective,
  Result-cases, arith, inl, inr,
}
use consent_manager.Models.Rows.{Time, RequestedGrant, ConsentRequest}
use consent_manager.Models.Table
use consent_manager.Models.Database.{Database, add}
use consent_manager.Config.{Settings, consent_by_use_case}
use consent_manager.Policy.Records.{PmPolicy}
use consent_manager.Composite.Records.{UseCase}
use consent_manager.Lifecycle.Errors.{Fallible}
use consent_manager.Lifecycle.UseCases.{Systems, resolve_use_case, resolve_grants}
use consent_manager.Lifecycle.Create.{
  ConsentRequestCreate, NewRow, requested_grants, with_grants, grants_in, new_request,
  purpose_or_empty, code_of, only_controller, all_scopes, scope_request, use_case_request,
  requested, stored, create_request,
}
use consent_manager.Lifecycle.Resolved.{
  IsResolved, Asked, resolve_grants-IsResolved, IsResolvedUseCase, resolve_use_case-ok,
}

pub stored-ok :
    (call : Fallible ConsentRequest) (db : Database) {r : ConsentRequest} {db' : Database}
    → stored call db ≡ ok (r, db')
    → (call ≡ ok r) × (db' ≡ record db { requests = add r db.requests })
stored-ok (err e) db h = cc
stored-ok (ok req) db h = (cc, cc)

-- A request for scopes: each grant that it names is within the partner's current policy.
abbrev pub IsScopeRequest : Systems → NewRow → ConsentRequestCreate → ConsentRequest → Type 0
IsScopeRequest out row body r =
    (resolved : List (RequestedGrant × PmPolicy)) × Table.All (IsResolved out body.partner_id)
      resolved
    × Asked (requested_grants body body.grants) resolved
    × (r
        ≡ with_grants body.grants body (grants_in resolved)
            (new_request row body (purpose_or_empty body.purpose)))

-- A request for a use case: the grants and the purpose are the use case's.
abbrev pub IsUseCaseRequest :
    Systems → Time → NewRow → ConsentRequestCreate → String → ConsentRequest → Type 0
IsUseCaseRequest out now row body ref r =
    (u : UseCase) × (policy : PmPolicy) × (grants : List RequestedGrant) × IsResolvedUseCase out
      body.partner_id now ref body.subject_id.type (code_of body.purpose) body.valid_from
      body.valid_until u policy grants
    × (r ≡ record (new_request row body (record { code = u.purpose })) {
      controller_id = only_controller grants;
      requested_scopes = all_scopes grants;
      grants = some grants;
      use_case = some u.ref;
    })

scope_request-ok :
    (out : Systems) (row : NewRow) (body : ConsentRequestCreate) {r : ConsentRequest}
    → scope_request out row body ≡ ok r
    → IsScopeRequest out row body r
unfolding scope_request
scope_request-ok out row body h =
    let asked = requested_grants body body.grants in
    elim (Result-cases (resolve_grants out body.partner_id asked)) [
      | inr (e, failed) ↦ absurd (cc (rw failed at h))
      | inl (resolved, found) ↦
          let (within, own) =
            resolve_grants-IsResolved out body.partner_id asked {rs = resolved} found in
          (resolved, within, own, sym (ok-injective (rw found at h)))
    ]

use_case_request-ok :
    (config : Settings) (out : Systems) (now : Time) (row : NewRow) (body : ConsentRequestCreate)
    (ref : String) {r : ConsentRequest}
    → use_case_request config out now row body ref ≡ ok r
    → (consent_by_use_case config ≡ true) × IsUseCaseRequest out now row body ref r
unfolding use_case_request
use_case_request-ok config out now row body ref h =
    let (exchange, h1) = raise_if-ok (not (consent_by_use_case config)) _ _ h in
    let call =
      resolve_use_case out now body.partner_id ref body.subject_id.type (code_of body.purpose)
        body.valid_from body.valid_until in
    elim (Result-cases call) [
      | inr (e, failed) ↦ absurd (cc (rw failed at h1))
      | inl ((u, policy, grants), found) ↦ (
        ground arith,
        (
          u,
          policy,
          grants,
          resolve_use_case-ok out body.partner_id now ref body.subject_id.type
              (code_of body.purpose) body.valid_from body.valid_until {u = u} {policy = policy}
              {grants = grants} found,
          sym (ok-injective (rw found at h1)),
        ),
      )
    ]

abbrev pub IsRequested :
    Settings
    → Systems
    → Time
    → NewRow
    → ConsentRequestCreate
    → Option String
    → ConsentRequest
    → Type 0
IsRequested config out now row body none r =
    (consent_by_use_case config ≡ false) × IsScopeRequest out row body r
IsRequested config out now row body (some ref) r =
    (consent_by_use_case config ≡ true) × IsUseCaseRequest out now row body ref r

requested-IsRequested :
    (config : Settings) (out : Systems) (now : Time) (row : NewRow) (body : ConsentRequestCreate)
    (use_case : Option String) {r : ConsentRequest}
    → requested config out now row body use_case ≡ ok r
    → IsRequested config out now row body use_case r
unfolding requested
requested-IsRequested config out now row body none h =
    let (elsewhere, h1) = raise_if-ok (consent_by_use_case config) _ _ h in
    (elsewhere, scope_request-ok out row body h1)
requested-IsRequested config out now row body (some ref) h =
    use_case_request-ok config out now row body ref h

-- A request is created only within what the partner is granted at that time. Outside the exchange role
-- it names no use case, and each of its grants is within the partner's current policy for that
-- controller. In the exchange role it names a use case that the partner is granted and the Composite
-- publishes with scopes and a purpose; the use case's policy allows the purpose, the subject's ID type
-- and the validity, and grants and purpose are the use case's. One row is stored.
pub create_request-IsRequested :
    (config : Settings) (out : Systems) (now : Time) (row : NewRow) (body : ConsentRequestCreate)
    (db : Database) {r : ConsentRequest} {db' : Database}
    → create_request config out now row body db ≡ ok (r, db')
    → IsRequested config out now row body body.use_case r
      × (db' ≡ record db { requests = add r db.requests })
unfolding create_request
create_request-IsRequested config out now row body db {r} h =
    let (made, saved) = stored-ok (requested config out now row body body.use_case) db {r = r} h in
    (requested-IsRequested config out now row body body.use_case made, saved)
