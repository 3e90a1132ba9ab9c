-- ===== src/Examples/Accepted.antt =====
-- A token of the exchange, at the farmer registry.
use consent_manager.Base.{◌≡◌, refl, true, none, some, [], ◌∷◌}
use consent_manager.Models.Rows.{permit}
use consent_manager.Scopes.{member, to_set, inter}
use consent_manager.Policy.Evaluate.{evaluate, effective_of, max_delta}
use consent_manager.Duration.{iso_duration_to_timedelta}
use consent_manager.Verification.Request.{ValidateRequest, subject_mismatch}
use consent_manager.Verification.Partners.{get_verification_material}
use consent_manager.Verification.Jws.{JwsHeader}
use consent_manager.Verification.Decide.{commit_permit, permit_consent, existing_artefact}
use consent_manager.Accepted.Issuers.{trusted_issuer, find_issuer}
use consent_manager.Accepted.Tokens.{
  TokenClaims, Issuers, Accepted, accept, check_issuer, check_use, check_status, read_token,
  issuer_or_refusal, key_or_refusal, token_or_refusal, active_or_refusal, material_or_refusal,
  same_folded,
}
use consent_manager.Accepted.Vouched.{Vouched}
use consent_manager.Accepted.Decide.{validate_receipt, settle_token, decide_token, decide_first}
use consent_manager.Accepted.Sound.{IsBased, validate_receipt-permit}
use consent_manager.Examples.Data.{config, source, signer, fresh, empty_db, request}

abbrev pub claims : TokenClaims
claims = record {
  iss = some "exchange";
  jti = some "t1";
  sub = some (record { type = "national_id"; value = "42" });
  scopes = some ("name" ∷ "income" ∷ []);
  presenter = some "bank-a";
  aud = some "farmers";
  purpose = some "loan";
  exp = some 5000;
  nbf = some 1000;
  iat = none;
  consent_issued_at = none;
  consent_exp = some 9000;
}

abbrev pub issuers : Issuers
issuers = record {
  issuer_key = λ trusted kid. some (record { kid = kid; pem = "pem"; alg = "EdDSA" });
  remote_status = λ trusted jti. some "active";
  verify_jws = λ jws pem alg. true;
  policies = source;
}

abbrev presented : ValidateRequest
presented = record request { partner_id = some "bank-a" }

abbrev header : JwsHeader
header = record { typ = some "consent-token+jwt"; alg = some "EdDSA"; kid = some "k" }

token_permitted :
    (validate_receipt signer
      (λ d. d)
      presented
      claims
      fresh
      2000
      "h"
      empty_db
      config
      issuers
      header).0.decision
    ≡ permit
unfolding validate_receipt settle_token decide_token decide_first accept check_issuer check_use
    check_status read_token issuer_or_refusal key_or_refusal token_or_refusal active_or_refusal
    material_or_refusal same_folded trusted_issuer find_issuer subject_mismatch
    get_verification_material existing_artefact permit_consent commit_permit evaluate member
    effective_of inter to_set max_delta iso_duration_to_timedelta
token_permitted = refl

validate_receipt-permit_example :
    (a : Accepted) × Vouched config issuers presented claims header 2000 a
    × IsBased presented claims 2000 empty_db a
validate_receipt-permit_example =
    validate_receipt-permit signer (λ d. d) presented claims fresh 2000 "h" empty_db config issuers
      header token_permitted
