-- ===== src/Accepted/Decide.antt =====
-- VerificationService._validate_receipt from the accepted token to the committed decision.
use consent_manager.Base.{
  String, Bool, not, ◌||◌, Option, none, some, ◌==◌, or_empty, ltb, Result, ok, err, if◌then◌else◌,
}
use consent_manager.Models.Status.{ReasonCode, ArtefactSource}
use consent_manager.Models.Rows.{Time, ConsentArtefact, ConsentGrant}
use consent_manager.Models.Database.{Database}
use consent_manager.Config.{Settings}
use consent_manager.Receipts.{Signer}
use consent_manager.Policy.Records.{ConsentObject}
use consent_manager.Policy.Evaluate.{evaluate, PolicyResult}
use consent_manager.Verification.Request.{ValidateRequest, Decision, Refusal, deny_with}
use consent_manager.Verification.Jws.{JwsHeader}
use consent_manager.Verification.Decide.{
  Fresh, PermitOptions, existing_artefact, decision_from_artefact, permit_consent,
}
use consent_manager.Accepted.Tokens.{
  Token, TokenClaims, Issuers, Accepted, about, refuse_token, accept,
}

-- `min(exp, consent_exp)`
abbrev pub token_end : Token → Time
token_end token = if ltb token.consent_exp token.exp then token.consent_exp else token.exp

-- ConsentObject(...) of the token's claims: the legacy shape, which its validator accepts.
abbrev pub token_consent : TokenClaims → Token → String → ConsentObject
token_consent claims token controller = record {
  jti = token.jti;
  subject_id = token.sub;
  aud = token.presenter;
  purpose = record { code = claims.purpose };
  grants = none;
  data_controller = some controller;
  data_scopes = some token.scopes;
  fetch_type = "oneshot";
  valid_from = token.consent_issued_at;
  valid_until = token.consent_exp;
  issued_at = token.consent_issued_at;
}

-- `obj.grant_for(controller)`
abbrev pub token_grant : Token → String → ConsentGrant
token_grant token controller = record { data_controller = controller; data_scopes = token.scopes }

-- `partner_id=partner.audience, **log`
abbrev pub of_partner : ValidateRequest → TokenClaims → Accepted → Refusal → Refusal
of_partner parsed claims a r = record (about parsed claims r) {
  partner_id = some a.material.partner.audience;
}

abbrev pub token_options : Accepted → PermitOptions
token_options a = record {
  source = ArtefactSource.receipt;
  valid_until = some (token_end a.token);
  receipt_jti = some a.token.jti;
  receipt_issuer = some a.trusted.issuer;
  use_case = none;
}

-- The jti was used for another consent: another partner or subject.
abbrev pub other_consent : ConsentArtefact → Accepted → Bool
other_consent existing a =
    not (existing.partner_id == a.material.partner.audience)
    || not (existing.subject_id_value == a.token.sub.value)

unfoldable pub refused_policy : PolicyResult → Refusal
refused_policy result = record {
  reason = result.reason;
  detail = result.detail;
  partner_id = none;
  jti = none;
  data_controller = none;
  receipt_jti = none;
  receipt_issuer = none;
  consent_id = none;
  policy = none;
}

module _ (signer : Signer) (meanwhile : Database → Database) (parsed : ValidateRequest)
    (claims : TokenClaims) (fresh : Fresh) (now : Time) (ctx_hash : String) (db : Database) where
  -- A first presentation: the presenter's policy decides. `meanwhile` is what other requests commit
  -- before this one's commit.
  unfoldable pub decide_first : Accepted → Decision × Database
  unfolding refused_policy
  decide_first a =
      let controller = or_empty parsed.data_controller in
      let obj = token_consent claims a.token controller in
      let result =
        evaluate now a.material obj parsed.request_context
          (some (token_grant a.token controller)) in
      if not result.permit
      then deny_with
          (record (of_partner parsed claims a (refused_policy result)) {
            policy = some a.material.policy;
          })
          now ctx_hash db
      else permit_consent signer fresh obj (token_grant a.token controller) a.material.partner
          result (token_options a) now ctx_hash (meanwhile db)

  unfoldable pub decide_token : Accepted → Option ConsentArtefact → Decision × Database
  unfolding decide_first
  decide_token a none = decide_first a
  decide_token a (some existing) =
      if other_consent existing a
      then deny_with
          (of_partner parsed claims a (
            refuse_token parsed claims ReasonCode.replay
              "receipt jti already used for a different consent"))
          now ctx_hash db
      else (decision_from_artefact existing now, db)

  unfoldable pub settle_token : Result Refusal Accepted → Decision × Database
  unfolding decide_token
  settle_token (err r) = deny_with r now ctx_hash db
  settle_token (ok a) =
      decide_token a (existing_artefact a.token.jti (or_empty parsed.data_controller) db)

  -- VerificationService._validate_receipt
  unfoldable pub validate_receipt : Settings → Issuers → JwsHeader → Decision × Database
  unfolding settle_token
  validate_receipt config out header = settle_token (accept config out parsed claims header now)
