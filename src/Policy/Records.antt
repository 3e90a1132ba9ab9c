-- ===== src/Policy/Records.antt =====
-- A partner's policy (pm_policy_client.py: PmPolicy), the partner it is for (partner_service.py:
-- PartnerRef), the consent claims and the request context (schemas/verification.py).
use consent_manager.Base.{
  ℕ, String, Bool, true, false, not, ◌&&◌, ◌||◌, Option, none, some, List, [], ◌∷◌, ◌==◌, truthy,
  or_empty, text_of, if◌then◌else◌,
}
use consent_manager.Models.Rows.{Time, Purpose, SubjectId, PolicyFields, ConsentGrant}
use consent_manager.Scopes.{nonempty}

pub record PmPolicy : Type 0 where
  pub partner_id : String
  pub data_controller : Option String
  pub version : ℕ
  pub use_case : Option String
  pub allowed_data_scopes : List String
  pub allowed_purposes : List String
  pub allowed_subject_id_types : List String
  pub allowed_signing_algs : List String
  pub max_validity_duration : Option String
  pub fetch_type : String
  pub id : Option String
  pub allow_partner_consents : Bool

-- A use-case policy names a use case, or no data controller.
abbrev pub is_use_case : PmPolicy → Bool
is_use_case policy = truthy policy.use_case || not (truthy policy.data_controller)

-- PmPolicy.ref: the policy's key in Partner Management, as kind:key.
pub policy_ref : PmPolicy → String
policy_ref policy =
    if truthy policy.use_case
    then text_of ("use_case:" ∷ or_empty policy.use_case ∷ [])
    else text_of ("data_controller:" ∷ or_empty policy.data_controller ∷ [])

-- `policy_fields(None)`
abbrev pub no_policy_fields : PolicyFields
no_policy_fields = record { policy_version = none; policy_id = none; policy_ref = none }

abbrev pub policy_fields : PmPolicy → PolicyFields
policy_fields policy = record {
  policy_version = some policy.version;
  policy_id = policy.id;
  policy_ref = some (policy_ref policy);
}

-- policy_fields, of a policy or None
abbrev pub policy_fields_of : Option PmPolicy → PolicyFields
policy_fields_of none = no_policy_fields
policy_fields_of (some policy) = policy_fields policy

pub record PartnerRef : Type 0 where
  pub audience : String
  pub controller_id : Option String
  pub partner_mgmt_id : String
  pub use_case : Option String

-- PartnerService.get_verification_material's answer
pub record Material : Type 0 where
  pub partner : PartnerRef
  pub policy : PmPolicy

pub record ConsentObject : Type 0 where
  pub jti : String
  pub subject_id : SubjectId
  pub aud : String
  pub purpose : Purpose
  pub grants : Option (List ConsentGrant)
  pub data_controller : Option String
  pub data_scopes : Option (List String)
  pub fetch_type : String
  pub valid_from : Time
  pub valid_until : Time
  pub issued_at : Time

abbrev pub has_grants : ConsentObject → Bool
has_grants obj = elim obj.grants [ none ↦ false | some _ ↦ true ]

-- `next((g for g in grants if g.data_controller == c), None)`
pub find_grant : String → List ConsentGrant → Option ConsentGrant
find_grant c [] = none
find_grant c (g ∷ gs) = if g.data_controller == c then some g else find_grant c gs

legacy_grant : String → Option String → Option (List String) → Option ConsentGrant
legacy_grant c (some own) (some scopes) =
    if own == c then some (record { data_controller = own; data_scopes = scopes }) else none
legacy_grant c _ _ = none

grant_in : String → ConsentObject → Option (List ConsentGrant) → Option ConsentGrant
unfolding legacy_grant find_grant
grant_in c obj (some grants) = find_grant c grants
grant_in c obj none = legacy_grant c obj.data_controller obj.data_scopes

-- ConsentObject.grant_for
unfoldable pub grant_for : String → ConsentObject → Option ConsentGrant
unfolding grant_in
grant_for c obj = grant_in c obj obj.grants

unfoldable pub distinct_controllers : List ConsentGrant → Bool
distinct_controllers [] = true
distinct_controllers (g ∷ gs) = elim (find_grant g.data_controller gs) [
  | none ↦ distinct_controllers gs
  | some _ ↦ false
]

unfoldable pub is_none {ℓ} : {A : Type ℓ} → Option A → Bool
is_none none = true
is_none (some _) = false

unfoldable pub shape : Option (List ConsentGrant) → ConsentObject → Bool
shape (some grants) obj =
    is_none obj.data_controller
    && is_none obj.data_scopes
    && nonempty grants
    && distinct_controllers grants
shape none obj = not (is_none obj.data_controller) && not (is_none obj.data_scopes)

-- ConsentObject._one_shape: whether the validator accepts the claims
unfoldable pub one_shape : ConsentObject → Bool
unfolding shape distinct_controllers find_grant is_none
one_shape obj = shape obj.grants obj

pub record RequestContext : Type 0 where
  pub requested_scopes : Option (List String)
  pub subject_id : Option SubjectId
  pub use_case : Option String
  pub purpose : Option String

-- `bool(context.requested_scopes)` with its value
abbrev pub requested : Option (List String) → Option (List String)
requested none = none
requested (some []) = none
requested (some (s ∷ ss)) = some (s ∷ ss)
