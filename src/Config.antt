-- ===== src/Config.antt =====
-- The settings of config.py that the modelled services read. Seconds stay seconds; `seconds` gives
-- the duration.
use consent_manager.Base.{ℕ, ◌*◌, String, Bool, List, ◌&&◌}
use consent_manager.Models.Rows.{Duration}
use consent_manager.Base.{has_text}
use consent_manager.Scopes.{nonempty}

-- config.py: TrustedReceiptIssuer
pub record TrustedReceiptIssuer : Type 0 where
  pub issuer : String
  pub jwks_url : String
  pub presenter : String
  pub status_url : String

pub record Settings : Type 0 where
  pub replay_freshness_window_sec : ℕ
  pub receipt_issuer : String
  pub receipt_presenters : List String
  pub receipt_ttl_seconds : ℕ
  pub trusted_receipt_issuers : List TrustedReceiptIssuer
  pub receipt_status_check : String
  pub receipt_status_cache_ttl_seconds : ℕ
  pub receipt_jwks_cache_ttl_seconds : ℕ
  pub receipt_jwks_refresh_cooldown_seconds : ℕ
  pub partner_policy_cache_ttl_seconds : ℕ
  pub partner_policy_hard_ttl_seconds : ℕ
  pub partner_policy_negative_ttl_seconds : ℕ
  pub composite_use_case_cache_ttl_seconds : ℕ
  pub subject_required_identifiers : List String
  pub evidence_max_files_per_request : ℕ
  pub subject_auth_enabled : Bool
  pub subject_auth_id_types : List String
  pub subject_auth_session_ttl_seconds : ℕ
  pub subject_auth_http_timeout_seconds : ℕ
  pub subject_auth_provider_name : String
  pub subject_auth_subject_claim : String

abbrev pub seconds : ℕ → Duration
seconds n = n * 1000000

-- composite_client.py: consent_by_use_case, the exchange role
abbrev pub consent_by_use_case : Settings → Bool
consent_by_use_case config = has_text config.receipt_issuer && nonempty config.receipt_presenters
