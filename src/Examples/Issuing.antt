-- ===== src/Examples/Issuing.antt =====
-- Tokens for the example consent, asked for by a configured presenter.
use consent_manager.Base.{◌≡◌, refl, true, none, some, [], ◌∷◌, Option}
use consent_manager.Models.Rows.{permit}
use consent_manager.Models.Database.{Database}
use consent_manager.Config.{Settings}
use consent_manager.Policy.Records.{ConsentObject, one_shape}
use consent_manager.Policy.Evaluate.{evaluate, effective_of, max_delta}
use consent_manager.Duration.{iso_duration_to_timedelta}
use consent_manager.Scopes.{member, inter, to_set, sorted}
use consent_manager.Verification.Request.{
  ValidateRequest, Decision, use_case_mode, subject_mismatch, deny_with,
}
use consent_manager.Verification.Jws.{decode_jws, consent_object}
use consent_manager.Verification.Decide.{existing_artefact, permit_consent}
use consent_manager.Verification.Embedded.{vet, select_grant}
use consent_manager.Verification.Partners.{get_verification_material}
use consent_manager.Verification.Validate.{
  undecodable, validate_claims, validate_object, settle, decide, first_time,
}
use consent_manager.Exchange.Tokens.{issuing_refusal, permit_of, issue}
use consent_manager.Issuing.Dispatch.{Service, validate_jws, validate_decoded}
use consent_manager.Issuing.Tokens.{
  Issuer, validate_each, controllers_of, consent_in, validate_and_issue, permits_of, issue_permits,
  shared, with_tokens, issue_decided, issue_object, unless_refused,
}
use consent_manager.Issuing.Asked.{MayIssue}
use consent_manager.Issuing.Issued.{IsConsent, IsVouched, validate_and_issue-permit}
use consent_manager.Examples.Accepted.{claims, issuers}
use consent_manager.Examples.Data.{config, libraries, request, fresh, empty_db}

abbrev exchange : Settings
exchange = record config { receipt_issuer = "exchange"; receipt_presenters = "gateway" ∷ [] }

abbrev asked : ValidateRequest
asked = record request { partner_id = some "gateway"; issue_receipts = true }

abbrev service : Service ConsentObject
service = record {
  config = exchange;
  lib = libraries;
  issuers = issuers;
  token_claims = λ payload. claims;
}

abbrev issuing : Issuer
issuing = record { sign_jws = λ token. token.jti; jtis = λ c. c; fresh = λ c. fresh }

or_refused : Option (Decision × Database) → Decision × Database
or_refused none = deny_with undecodable 0 "" empty_db
or_refused (some answer) = answer

abbrev answer : Decision × Database
answer = or_refused (validate_and_issue service issuing 2000 asked empty_db)

issued :
    (validate_and_issue service issuing 2000 asked empty_db ≡ some (answer.0, answer.1))
    × (answer.0.decision ≡ permit)
unfolding or_refused validate_and_issue unless_refused issue_object issue_decided with_tokens
    permits_of issue_permits shared issue issuing_refusal permit_of consent_in controllers_of
    validate_each validate_jws validate_decoded validate_claims decode_jws consent_object
    validate_object settle decide first_time vet select_grant use_case_mode subject_mismatch
    get_verification_material existing_artefact permit_consent evaluate effective_of max_delta
    iso_duration_to_timedelta inter to_set sorted member one_shape
issued = (refl, refl)

validate_and_issue-permit_example :
    MayIssue exchange asked
    × ((obj : ConsentObject) × IsConsent service issuing 2000 asked obj
        × IsVouched service issuing 2000 asked obj empty_db answer.0)
validate_and_issue-permit_example =
    validate_and_issue-permit service issuing 2000 asked empty_db issued.0 issued.1
