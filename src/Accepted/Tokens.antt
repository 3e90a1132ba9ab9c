-- ===== src/Accepted/Tokens.antt =====
-- The checks of _validate_receipt before the stored decision is looked up.
use consent_manager.Base.{
  ℕ, ◌+◌, String, Bool, true, false, not, ◌&&◌, ◌||◌, Option, none, some, List, [], ◌∷◌, ◌==◌, same,
  truthy, or_empty, has_text, ltb, leb, eqb, text_of, Result, ok, err, ◌>>=◌, ◌>>◌, raise_if,
  if◌then◌else◌,
}
use consent_manager.Models.Status.{ReasonCode}
use consent_manager.Models.Rows.{Time, SubjectId}
use consent_manager.Config.{Settings, TrustedReceiptIssuer, seconds}
use consent_manager.Duration.{codes}
use consent_manager.Scopes.{nonempty}
use consent_manager.Policy.Records.{Material}
use consent_manager.Policy.Evaluate.{shown}
use consent_manager.Verification.Request.{
  ValidateRequest, Refusal, refusal, subject_mismatch, subject_of,
}
use consent_manager.Verification.Partners.{
  Answer, unavailable, answered, PolicySource, get_verification_material,
}
use consent_manager.Verification.Jws.{JwsHeader}
use consent_manager.Accepted.Issuers.{Key, trusted_issuer}

-- The claims of a consent token, a claim of another type than the issuer writes taken as missing. The
-- times are those that to_datetime reads.
pub record TokenClaims : Type 0 where
  pub iss : Option String
  pub jti : Option String
  pub sub : Option SubjectId
  pub scopes : Option (List String)
  pub presenter : Option String
  pub aud : Option String
  pub purpose : Option String
  pub exp : Option Time
  pub nbf : Option Time
  pub iat : Option Time
  pub consent_issued_at : Option Time
  pub consent_exp : Option Time

-- What the check takes from elsewhere: the issuer's key and the token's status as the exchange service
-- finds them, PyJWS's verification of a JWS with a PEM and an algorithm (false also where it raises),
-- and the partner service's policies.
pub record Issuers : Type 0 where
  pub issuer_key : TrustedReceiptIssuer → Option String → Option Key
  pub remote_status : TrustedReceiptIssuer → String → Option String
  pub verify_jws : String → String → String → Bool
  pub policies : PolicySource

-- The claims that must be there, read.
pub record Token : Type 0 where
  pub jti : String
  pub sub : SubjectId
  pub scopes : List String
  pub presenter : String
  pub exp : Time
  pub nbf : Time
  pub consent_issued_at : Time
  pub consent_exp : Time

-- `**log`
abbrev pub about : ValidateRequest → TokenClaims → Refusal → Refusal
about parsed claims r = record r {
  jti = claims.jti;
  data_controller = parsed.data_controller;
  receipt_jti = claims.jti;
  receipt_issuer = claims.iss;
}

abbrev pub refuse_token : ValidateRequest → TokenClaims → ReasonCode → String → Refusal
refuse_token parsed claims reason detail = about parsed claims (refusal reason detail)

unfoldable pub issuer_or_refusal :
    ValidateRequest
    → TokenClaims
    → Option TrustedReceiptIssuer
    → Result Refusal TrustedReceiptIssuer
issuer_or_refusal parsed claims (some trusted) = ok trusted
issuer_or_refusal parsed claims none = err (
    refuse_token parsed claims ReasonCode.receipt_issuer_not_trusted
      (text_of ("receipt issuer '" ∷ shown claims.iss ∷ "' is not trusted" ∷ [])))

unfoldable pub key_or_refusal : ValidateRequest → TokenClaims → Option Key → Result Refusal Key
key_or_refusal parsed claims (some key) = ok key
key_or_refusal parsed claims none = err (
    refuse_token parsed claims ReasonCode.receipt_invalid
      "no key for the receipt's kid in the issuer's JWKS")

-- 1. The issuer and the signature.
unfoldable pub check_issuer :
    Settings
    → Issuers
    → ValidateRequest
    → TokenClaims
    → JwsHeader
    → Result Refusal TrustedReceiptIssuer
unfolding issuer_or_refusal key_or_refusal
check_issuer config out parsed claims header = do
  raise_if (not (nonempty config.trusted_receipt_issuers)) (
      refuse_token parsed claims ReasonCode.receipt_issuer_not_trusted
        "consent receipts are not accepted: no trusted receipt issuers configured")
  trusted ← issuer_or_refusal parsed claims (trusted_issuer config claims.iss)
  key ← key_or_refusal parsed claims (out.issuer_key trusted header.kid)
  raise_if (not (same header.alg (some key.alg))) (
      refuse_token parsed claims ReasonCode.receipt_invalid
        "receipt alg does not match the issuer key")
  raise_if (not (out.verify_jws (or_empty parsed.consent_jws) key.pem key.alg))
      (refuse_token parsed claims ReasonCode.receipt_invalid "receipt signature did not verify")
  ok trusted

-- `to_datetime(a) or b`
abbrev or_else {ℓ} : {A : Type ℓ} → Option A → Option A → Option A
or_else none b = b
or_else (some a) b = some a

token_of :
    TokenClaims
    → Option String
    → Option SubjectId
    → Option (List String)
    → Option String
    → Option Time
    → Option Time
    → Option Token
token_of claims (some jti) (some sub) (some scopes) (some presenter) (some exp) (some nbf) =
    if has_text jti && has_text sub.type && has_text sub.value && has_text presenter
    then some (record {
      jti = jti;
      sub = sub;
      scopes = scopes;
      presenter = presenter;
      exp = exp;
      nbf = nbf;
      consent_issued_at = elim claims.consent_issued_at [ none ↦ nbf | some t ↦ t ];
      consent_exp = elim claims.consent_exp [ none ↦ exp | some t ↦ t ];
    })
    else none
token_of claims _ _ _ _ _ _ = none

-- The required claims: None where one is missing.
unfoldable pub read_token : TokenClaims → Option Token
unfolding token_of
read_token claims =
    token_of claims claims.jti claims.sub claims.scopes claims.presenter claims.exp
      (or_else claims.nbf claims.iat)

unfoldable pub token_or_refusal :
    ValidateRequest → TokenClaims → Option Token → Result Refusal Token
token_or_refusal parsed claims (some token) = ok token
token_or_refusal parsed claims none =
    err (refuse_token parsed claims ReasonCode.receipt_invalid "receipt is missing required claims")

-- 2. The audience, the presenter, the time and the subject.
unfoldable pub check_use :
    ValidateRequest → TokenClaims → TrustedReceiptIssuer → Time → Result Refusal Token
unfolding token_or_refusal
check_use parsed claims trusted now = do
  token ← token_or_refusal parsed claims (read_token claims)
  raise_if (not (truthy parsed.data_controller)) (
      refuse_token parsed claims ReasonCode.malformed_object
        "data_controller is required for a consent receipt")
  raise_if (not (same claims.aud parsed.data_controller)) (
      refuse_token parsed claims ReasonCode.audience_mismatch (
        text_of (
          "receipt is for '"
          ∷ shown claims.aud
          ∷ "', not '"
          ∷ or_empty parsed.data_controller
          ∷ "'"
          ∷ [])))
  raise_if
      ((has_text trusted.presenter && not (token.presenter == trusted.presenter))
        || not (same (some token.presenter) parsed.partner_id))
      (refuse_token parsed claims ReasonCode.presenter_mismatch (
        text_of (
          "receipt presenter '"
          ∷ token.presenter
          ∷ "' is not the caller '"
          ∷ shown parsed.partner_id
          ∷ "'"
          ∷ [])))
  raise_if (ltb (now + seconds 30) token.nbf)
      (refuse_token parsed claims ReasonCode.expired "receipt not yet valid")
  raise_if (leb token.exp now) (refuse_token parsed claims ReasonCode.expired "receipt expired")
  raise_if
      (subject_mismatch (subject_of parsed.request_context) token.sub.type token.sub.value none)
      (refuse_token parsed claims ReasonCode.subject_mismatch
        "request_context.subject_id does not match the receipt subject")
  ok token

abbrev lower : ℕ → ℕ
lower c = if leb b'A' c && leb c b'Z' then c + 32 else c

unfoldable pub same_folded : List ℕ → List ℕ → Bool
same_folded [] [] = true
same_folded (c ∷ cs) (d ∷ ds) = eqb (lower c) d && same_folded cs ds
same_folded _ _ = false

-- `(receipt_status_check or "never").lower() == "always"`
abbrev pub always : Settings → Bool
always config = same_folded (codes config.receipt_status_check) (codes "always")

pub status_reason : String → ReasonCode
status_reason status =
    if status == "revoked"
    then ReasonCode.revoked
    else if status == "expired"
    then ReasonCode.expired
    else ReasonCode.receipt_invalid

unfoldable pub active_or_refusal :
    ValidateRequest → TokenClaims → Option String → Result Refusal (Unit {0})
unfolding status_reason
active_or_refusal parsed claims none = err (
    refuse_token parsed claims ReasonCode.receipt_status_unavailable
      "receipt status could not be checked at the issuer")
active_or_refusal parsed claims (some status) = raise_if (not (status == "active")) (
    refuse_token parsed claims (status_reason status)
      (text_of ("receipt status at the issuer: " ∷ status ∷ [])))

-- 3. The status at the issuer, where it is asked for.
unfoldable pub check_status :
    Settings
    → Issuers
    → ValidateRequest
    → TokenClaims
    → TrustedReceiptIssuer
    → Token
    → Result Refusal (Unit {0})
unfolding active_or_refusal
check_status config out parsed claims trusted token =
    if always config
    then active_or_refusal parsed claims (out.remote_status trusted token.jti)
    else ok tt

unfoldable pub material_or_refusal :
    ValidateRequest → TokenClaims → Token → Answer Material → Result Refusal Material
material_or_refusal parsed claims token unavailable = err (
    refuse_token parsed claims ReasonCode.policy_unavailable
      "the presenter's policy could not be read from Partner Management")
material_or_refusal parsed claims token (answered none) = err (
    refuse_token parsed claims ReasonCode.unknown_partner (
      text_of (
        "presenter '"
        ∷ token.presenter
        ∷ "' has no active policy for data_controller '"
        ∷ or_empty parsed.data_controller
        ∷ "' in Partner Management"
        ∷ [])))
material_or_refusal parsed claims token (answered (some material)) = ok material

-- What a token that passed the checks comes with.
pub record Accepted : Type 0 where
  pub trusted : TrustedReceiptIssuer
  pub token : Token
  pub material : Material

-- The checks in their order, the presenter's standing policy last.
unfoldable pub accept :
    Settings → Issuers → ValidateRequest → TokenClaims → JwsHeader → Time → Result Refusal Accepted
unfolding material_or_refusal
accept config out parsed claims header now = do
  trusted ← check_issuer config out parsed claims header
  token ← check_use parsed claims trusted now
  check_status config out parsed claims trusted token
  material ←
      material_or_refusal parsed claims token
        (get_verification_material out.policies token.presenter parsed.data_controller none)
  ok (record { trusted = trusted; token = token; material = material })
