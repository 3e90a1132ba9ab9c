-- ===== src/Examples/Stored.antt =====
-- The stored example consent, found by lookup.
use consent_manager.Base.{◌≡◌, refl, false, none, some}
use consent_manager.Models.Rows.{permit}
use consent_manager.Verification.Request.{ValidateRequest, use_case_mode, subject_mismatch}
use consent_manager.Verification.Partners.{get_verification_material}
use consent_manager.Policy.Records.{RequestContext}
use consent_manager.Scopes.{keep, member, inter, to_set, sorted}
use consent_manager.Stored.Grants.{
  stored_grants, narrow_grants, narrow_grant, under_policy, put_narrowed, put,
}
use consent_manager.Stored.Checks.{check_state, check_parties, select_stored, mode_policy}
use consent_manager.Stored.Permit.{Outside, permit_stored, receipts_for}
use consent_manager.Stored.Validate.{
  granted, answer_stored, validate_row, refused_presenter, found_or_read, validate_stored,
  all_granted,
}
use consent_manager.Stored.Lookup.{
  LookupKey, is_candidate, first_in_order, first_of, look_up, key_of, lookup_key, with_consent,
  answer_found, answer_lookup, validate_lookup, serves_key, has_identifier,
}
use consent_manager.Stored.Sound.{RestsOn, validate_stored-permit}
use consent_manager.Stored.First.{Answers, look_up-Answers}
use consent_manager.Stored.Found.{IsKey, IsFound, validate_lookup-permit}
use consent_manager.Examples.Data.{config, source, artefact, db, request}

abbrev out : Outside
out = record {
  policies = source;
  hash_text = λ s. s;
  sign_jws = λ claims. claims.jti;
  jtis = λ controller. controller;
}

abbrev context : RequestContext
context = record {
  requested_scopes = none;
  subject_id = some (record { type = "national_id"; value = "42" });
  use_case = none;
  purpose = none;
}

abbrev asking : ValidateRequest
asking = record request {
  consent_jws = none;
  partner_id = some "bank-a";
  request_context = some context;
}

abbrev wanted : LookupKey
wanted = record {
  partner = "bank-a";
  subject = record { type = "national_id"; value = "42" };
  key = "farmers";
  by_use_case = false;
}

look_up-Answers_example : Answers wanted 2000 db.artefacts (some artefact)
unfolding look_up keep first_in_order first_of is_candidate serves_key has_identifier
look_up-Answers_example = look_up-Answers wanted 2000 db

stored_permitted :
    (validate_stored config out
      (with_consent asking wanted artefact)
      (some artefact)
      2000
      db).0.decision
    ≡ permit
unfolding validate_stored refused_presenter found_or_read validate_row answer_stored granted
    check_state check_parties subject_mismatch select_stored stored_grants keep mode_policy
    use_case_mode narrow_grants narrow_grant under_policy get_verification_material put_narrowed put
    member inter to_set sorted permit_stored receipts_for all_granted
stored_permitted = refl

validate_stored-permit_example :
    RestsOn config out
      (with_consent asking wanted artefact)
      (some artefact)
      2000
      db
      (validate_stored config out (with_consent asking wanted artefact) (some artefact) 2000 db).0
unfolding found_or_read
validate_stored-permit_example =
    validate_stored-permit config out (with_consent asking wanted artefact) 2000 db (some artefact)
      stored_permitted

lookup_permitted : (validate_lookup config out asking 2000 db).0.decision ≡ permit
unfolding validate_lookup answer_lookup answer_found lookup_key key_of look_up first_in_order
    first_of is_candidate serves_key has_identifier validate_stored refused_presenter found_or_read
    validate_row answer_stored granted check_state check_parties subject_mismatch select_stored
    stored_grants keep mode_policy use_case_mode narrow_grants narrow_grant under_policy
    get_verification_material put_narrowed put member inter to_set sorted permit_stored receipts_for
    all_granted
lookup_permitted = refl

validate_lookup-permit_example :
    (k : LookupKey) × IsKey config asking k
    × IsFound config out asking 2000 db k (validate_lookup config out asking 2000 db).0
validate_lookup-permit_example = validate_lookup-permit config out asking 2000 db lookup_permitted
