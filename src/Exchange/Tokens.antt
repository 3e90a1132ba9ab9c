-- ===== src/Exchange/Tokens.antt =====
-- ExchangeService: issuing a consent token for a permit, and the token's status at its issuer. Signing
-- the claims is CryptoService's; the token's id is an argument.
use consent_manager.Base.{
  ℕ, ◌+◌, ◌/◌, String, not, ◌||◌, Option, none, some, List, [], ◌∷◌, ltb, leb, truthy, or_empty,
  text_of, if◌then◌else◌,
}
use consent_manager.Models.Status.{is_revoked, is_expired}
use consent_manager.Models.Rows.{Time, Purpose, SubjectId, ConsentArtefact, IssuedReceipt}
use consent_manager.Models.Database.{Database, get_artefact, add}
use consent_manager.Models.Table
use consent_manager.Config.{Settings, seconds, consent_by_use_case}
use consent_manager.Scopes.{member}
use consent_manager.Verification.Request.{Decision}

-- What `issue` reads of the partner's consent.
pub record TokenSource : Type 0 where
  pub aud : String
  pub purpose : Purpose
  pub issued_at : Time

pub record TokenClaims : Type 0 where
  pub iss : String
  pub jti : String
  pub consent_id : String
  pub aud : String
  pub presenter : String
  pub partner : String
  pub sub : SubjectId
  pub purpose : Option String
  pub scopes : List String
  pub consent_issued_at : Time
  pub consent_exp : ℕ
  pub iat : ℕ
  pub nbf : ℕ
  pub exp : ℕ

-- ExchangeService.issuing_refusal
unfoldable pub issuing_refusal : Settings → Option String → Option String
issuing_refusal config presenter =
    if not (consent_by_use_case config)
    then some "receipt issuing is not enabled on this Consent Manager"
    else if not (truthy presenter)
    then some "issue_receipts needs partner_id (the caller that presents the receipts)"
    else if not (member (or_empty presenter) config.receipt_presenters)
    then some (text_of ("'" ∷ or_empty presenter ∷ "' is not a configured receipt presenter" ∷ []))
    else none

abbrev pub earlier : Time → Time → Time
earlier a b = if ltb b a then b else a

-- `int(moment.timestamp())`, counted as Time is
abbrev pub timestamp : Time → ℕ
timestamp moment = moment / 1000000

-- When a token ends: with its consent, or after the token's own lifetime.
abbrev pub token_end : Settings → Time → Time → Time
token_end config valid_until now = earlier valid_until (now + seconds config.receipt_ttl_seconds)

-- The fields of a decision that a token needs; a permit for one controller has them all.
pub record Permit : Type 0 where
  pub consent_id : String
  pub data_controller : String
  pub subject_id : SubjectId
  pub scopes : List String
  pub valid_until : Time

unfoldable pub scopes_or_none : Option (List String) → List String
scopes_or_none none = []
scopes_or_none (some scopes) = scopes

unfoldable pub permit_fields :
    Option String
    → Option String
    → Option SubjectId
    → Option (List String)
    → Option Time
    → Option Permit
unfolding scopes_or_none
permit_fields (some consent_id) (some data_controller) (some subject) scopes (some valid_until) =
    some (record {
      consent_id = consent_id;
      data_controller = data_controller;
      subject_id = subject;
      scopes = scopes_or_none scopes;
      valid_until = valid_until;
    })
permit_fields _ _ _ _ _ = none

-- None where the decision lacks a field, on which `issue` raises.
unfoldable pub permit_of : Decision → Option Permit
unfolding permit_fields
permit_of d =
    permit_fields d.consent_id d.data_controller d.subject_id d.effective_data_scopes d.valid_until

abbrev pub token_claims : Settings → TokenSource → Permit → String → String → Time → TokenClaims
token_claims config consent p presenter jti now = record {
  iss = config.receipt_issuer;
  jti = jti;
  consent_id = p.consent_id;
  aud = p.data_controller;
  presenter = presenter;
  partner = consent.aud;
  sub = p.subject_id;
  purpose = consent.purpose.code;
  scopes = p.scopes;
  consent_issued_at = consent.issued_at;
  consent_exp = timestamp p.valid_until;
  iat = timestamp now;
  nbf = timestamp now;
  exp = timestamp (token_end config p.valid_until now);
}

abbrev pub token_row : Settings → TokenSource → Permit → String → String → Time → IssuedReceipt
token_row config consent p presenter jti now = record {
  id = jti;
  consent_id = p.consent_id;
  data_controller = p.data_controller;
  presenter = presenter;
  partner = consent.aud;
  expires_at = token_end config p.valid_until now;
}

-- ExchangeService.issue
unfoldable pub issue :
    Settings → TokenSource → Permit → String → String → Time → Database → TokenClaims × Database
issue config consent p presenter jti now db = (
  token_claims config consent p presenter jti now,
  record db { issued = add (token_row config consent p presenter jti now) db.issued },
)

pub data TokenStatus : Type 0 where
  token_active token_revoked token_expired : TokenStatus

abbrev pub token_key : IssuedReceipt → String
token_key r = r.id

unfoldable pub status_of_token : Time → IssuedReceipt → Option ConsentArtefact → TokenStatus
status_of_token now token none = token_revoked
status_of_token now token (some artefact) =
    if is_revoked artefact.status
    then token_revoked
    else if leb token.expires_at now || is_expired artefact.status || ltb artefact.valid_until now
    then token_expired
    else token_active

unfoldable pub status_of_issued : Time → Option IssuedReceipt → Database → Option TokenStatus
unfolding status_of_token
status_of_issued now none db = none
status_of_issued now (some token) db =
    some (status_of_token now token (get_artefact token.consent_id db))

-- ExchangeService.receipt_status; the answer repeats the jti and the time.
unfoldable pub receipt_status : String → Time → Database → Option TokenStatus
unfolding status_of_issued
receipt_status jti now db = status_of_issued now (Table.get token_key jti db.issued) db
