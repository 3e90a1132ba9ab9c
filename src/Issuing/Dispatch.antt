-- ===== src/Issuing/Dispatch.antt =====
-- VerificationService.validate on a consent_jws: a partner's consent, or another Consent Manager's token.
use consent_manager.Base.{
  String, Bool, false, ◌||◌, Option, none, some, ◌==◌, or_empty, if◌then◌else◌,
}
use consent_manager.Models.Rows.{Time}
use consent_manager.Models.Database.{Database}
use consent_manager.Config.{Settings}
use consent_manager.Verification.Request.{ValidateRequest, Decision, deny_with}
use consent_manager.Verification.Jws.{JwsHeader, Libraries, decode_jws}
use consent_manager.Verification.Decide.{Fresh}
use consent_manager.Verification.Validate.{undecodable, validate_claims}
use consent_manager.Accepted.Tokens.{TokenClaims, Issuers}
use consent_manager.Accepted.Decide.{validate_receipt}

-- `header.get("typ") in TOKEN_TYPS`
abbrev pub is_token : Option String → Bool
is_token none = false
is_token (some typ) = typ == "consent-token+jwt" || typ == "consent-receipt+jwt"

-- The libraries, the issuers, and the token claims that a payload has.
pub record Service (P : Type 0) : Type 0 where
  pub config : Settings
  pub lib : Libraries P
  pub issuers : Issuers
  pub token_claims : P → TokenClaims

module _ {P : Type 0} (s : Service P) (now : Time) (parsed : ValidateRequest) (fresh : Fresh) where
  unfoldable pub validate_decoded : Option (P × JwsHeader) → Database → Decision × Database
  validate_decoded none db =
      deny_with undecodable now (s.lib.hash_text (or_empty parsed.consent_jws)) db
  validate_decoded (some (claims, header)) db =
      if is_token header.typ
      then validate_receipt s.lib.signer s.lib.meanwhile parsed (s.token_claims claims) fresh now
          (s.lib.hash_text (or_empty parsed.consent_jws)) db s.config s.issuers header
      else validate_claims s.config s.lib parsed claims header fresh now db

  -- VerificationService.validate with a consent_jws and without issue_receipts
  unfoldable pub validate_jws : Database → Decision × Database
  unfolding validate_decoded
  validate_jws db = validate_decoded (decode_jws s.lib (or_empty parsed.consent_jws)) db
