-- ===== src/Verification/Partners.antt =====
-- services/partner_service.py over its policy source. PolicySource is what PmPolicyClient gives:
-- the partner's active policy for a data controller or a use case, or that Partner Management cannot
-- be read (PolicyUnavailable).
use consent_manager.Base.{
  String, Option, none, some, ◌≡◌, has_text, truthy, or_empty, if◌then◌else◌,
}
use consent_manager.Policy.Records.{PmPolicy, Material}

pub data Answer {ℓ} (A : Type ℓ) : Type ℓ where
  unavailable : Answer A
  answered : Option A → Answer A

-- The laws: an answer is for what was asked.
pub record PolicySource : Type 0 where
  pub get_policy : String → Option String → Answer PmPolicy
  pub get_use_case_policy : String → String → Answer PmPolicy
  pub pm_partner_id : String → String
  pub for_controller :
      (audience c : String) {p : PmPolicy}
      → get_policy audience (some c) ≡ answered (some p)
      → p.data_controller ≡ some c
  pub for_use_case :
      (audience u : String) {p : PmPolicy}
      → get_use_case_policy audience u ≡ answered (some p)
      → p.use_case ≡ some u

abbrev pub when_text : Option String → Option String
when_text none = none
when_text (some s) = if has_text s then some s else none

with_partner :
    PolicySource → String → Option String → Option String → Answer PmPolicy → Answer Material
with_partner source audience controller use_case unavailable = unavailable
with_partner source audience controller use_case (answered none) = answered none
with_partner source audience controller use_case (answered (some policy)) = answered (
    some (record {
      partner = record {
        audience = audience;
        controller_id = if truthy use_case then none else when_text controller;
        partner_mgmt_id = source.pm_partner_id audience;
        use_case = when_text use_case;
      };
      policy = policy;
    }))

-- PartnerService.get_verification_material
unfoldable pub get_verification_material :
    PolicySource → String → Option String → Option String → Answer Material
unfolding with_partner
get_verification_material source audience controller use_case =
    if has_text audience
    then with_partner source audience controller use_case (
        if truthy use_case
        then source.get_use_case_policy audience (or_empty use_case)
        else source.get_policy audience controller)
    else answered none
