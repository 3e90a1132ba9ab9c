-- ===== src/Stored/Grants.antt =====
-- The grants of a stored consent (_stored_grants), and each grant narrowed to the partner's current
-- policy.
use Prim.Native.String.{compare}
use Prim.Native.Nat.{Ordering}
use consent_manager.Base.{
  String, Bool, true, false, ◌&&◌, Option, none, some, List, [], ◌∷◌, map, ◌==◌, same, truthy,
  or_empty, ltb, if◌then◌else◌,
}
use consent_manager.Models.Status.{is_embedded, is_active}
use consent_manager.Models.Rows.{Time, ConsentArtefact, ApprovedGrant}
use consent_manager.Models.Database.{Database}
use consent_manager.Scopes.{keep, nonempty, inter, to_set, sorted}
use consent_manager.Policy.Records.{PmPolicy, Material}
use consent_manager.Policy.Evaluate.{narrow}
use consent_manager.Verification.Partners.{
  Answer, unavailable, answered, PolicySource, get_verification_material,
}

-- A grant with the artefact that it is recorded on.
pub record RecordedGrant : Type 0 where
  pub data_controller : Option String
  pub effective_data_scopes : List String
  pub consent_id : String

abbrev pub own_grant : ConsentArtefact → RecordedGrant
own_grant a = record {
  data_controller = a.controller_id;
  effective_data_scopes = a.effective_data_scopes;
  consent_id = a.id;
}

originated_grant : String → ApprovedGrant → RecordedGrant
originated_grant consent_id g = record {
  data_controller = some g.data_controller;
  effective_data_scopes = g.effective_data_scopes;
  consent_id = consent_id;
}

-- `artefact.grants or [...]`
originated_grants : ConsentArtefact → Option (List ApprovedGrant) → List RecordedGrant
unfolding originated_grant
originated_grants a (some (g ∷ gs)) = map (originated_grant a.id) (g ∷ gs)
originated_grants a _ = own_grant a ∷ []

-- The artefacts of a partner-signed consent, one for each controller.
abbrev pub is_sibling : ConsentArtefact → Time → ConsentArtefact → Bool
is_sibling a now b =
    same b.object_jti a.object_jti
    && b.partner_id == a.partner_id
    && same b.use_case a.use_case
    && is_embedded b.source
    && is_active b.status
    && ltb now b.valid_until

not_after : ConsentArtefact → ConsentArtefact → Bool
not_after a b = elim (compare (or_empty a.controller_id) (or_empty b.controller_id)) [
  | Ordering.gt ↦ false
  | _ ↦ true
]

insert_by_controller : ConsentArtefact → List ConsentArtefact → List ConsentArtefact
unfolding not_after
insert_by_controller a [] = a ∷ []
insert_by_controller a (b ∷ bs) =
    if not_after a b then a ∷ b ∷ bs else b ∷ insert_by_controller a bs

by_controller : List ConsentArtefact → List ConsentArtefact
unfolding insert_by_controller
by_controller [] = []
by_controller (a ∷ rows) = insert_by_controller a (by_controller rows)

-- VerificationService._stored_grants
unfoldable pub stored_grants : ConsentArtefact → Time → Database → List RecordedGrant
unfolding originated_grants by_controller
stored_grants a now db =
    if is_embedded a.source
    then map own_grant (by_controller (keep (is_sibling a now) db.artefacts))
    else originated_grants a a.grants

-- What `granted` keeps for a controller.
pub record Narrowed : Type 0 where
  pub data_controller : String
  pub scopes : List String
  pub policy : PmPolicy
  pub consent_id : String

-- `granted[controller] = ...`
unfoldable pub put : Narrowed → List Narrowed → List Narrowed
put new [] = new ∷ []
put new (n ∷ ns) = if n.data_controller == new.data_controller then new ∷ ns else n ∷ put new ns

abbrev pub narrowed_scopes : RecordedGrant → List String → Option (List String) → List String
narrowed_scopes g allowed wanted =
    narrow wanted (inter (to_set g.effective_data_scopes) (to_set allowed))

unfoldable pub put_narrowed :
    RecordedGrant
    → String
    → PmPolicy
    → List String
    → Option (List String)
    → List Narrowed
    → List Narrowed
put_narrowed g controller policy allowed wanted granted =
    let effective = narrowed_scopes g allowed wanted in
    if nonempty effective
    then put
        (record {
          data_controller = controller;
          scopes = sorted effective;
          policy = policy;
          consent_id = g.consent_id;
        })
        granted
    else granted

-- One grant under the policy of its controller; None is PolicyUnavailable.
unfoldable pub under_policy :
    RecordedGrant
    → String
    → Option (List String)
    → List Narrowed
    → Answer Material
    → Option (List Narrowed)
under_policy g controller wanted granted unavailable = none
under_policy g controller wanted granted (answered none) = some granted
under_policy g controller wanted granted (answered (some material)) =
    some
      (put_narrowed g controller material.policy material.policy.allowed_data_scopes wanted granted)

-- The policy is the use case's in use-case mode, and None outside it.
unfoldable pub narrow_grant :
    PolicySource
    → String
    → Option PmPolicy
    → Option (List String)
    → RecordedGrant
    → List Narrowed
    → Option (List Narrowed)
unfolding under_policy
narrow_grant source audience (some policy) wanted g granted =
    if truthy g.data_controller
    then some
        (put_narrowed g (or_empty g.data_controller) policy g.effective_data_scopes wanted granted)
    else some granted
narrow_grant source audience none wanted g granted =
    if truthy g.data_controller
    then under_policy g (or_empty g.data_controller) wanted granted
        (get_verification_material source audience g.data_controller none)
    else some granted

-- `for g in stored: ...`
unfoldable pub narrow_grants :
    PolicySource
    → String
    → Option PmPolicy
    → Option (List String)
    → List RecordedGrant
    → List Narrowed
    → Option (List Narrowed)
narrow_grants source audience mode wanted [] granted = some granted
narrow_grants source audience mode wanted (g ∷ gs) granted =
    elim (narrow_grant source audience mode wanted g granted) [
      | none ↦ none
      | some next ↦ narrow_grants source audience mode wanted gs next
    ]
