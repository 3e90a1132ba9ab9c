-- ===== src/Accepted/Issuers.antt =====
-- ExchangeService.trusted_issuer, issuer_key and remote_status for one issuer, with their caches. A
-- time is a reading of the monotonic clock in seconds.
use consent_manager.Base.{
  ℕ, ◌-◌, String, Bool, true, false, not, ◌&&◌, ◌||◌, Option, none, some, List, [], ◌∷◌, ◌==◌, same,
  has_text, ltb, leb, if◌then◌else◌,
}
use consent_manager.Config.{Settings, TrustedReceiptIssuer}

unfoldable pub find_issuer : String → List TrustedReceiptIssuer → Option TrustedReceiptIssuer
find_issuer iss [] = none
find_issuer iss (t ∷ ts) = if has_text iss && t.issuer == iss then some t else find_issuer iss ts

-- ExchangeService.trusted_issuer; None for a claim that is no text
unfoldable pub trusted_issuer : Settings → Option String → Option TrustedReceiptIssuer
unfolding find_issuer
trusted_issuer config none = none
trusted_issuer config (some iss) = find_issuer iss config.trusted_receipt_issuers

-- A key of a JWKS: PEM and algorithm, by key id (None is the id of a key without one).
pub record Key : Type 0 where
  pub kid : Option String
  pub pem : String
  pub alg : String

pub record Keys : Type 0 where
  pub fetched_at : ℕ
  pub keys : List Key

-- `keys.get(kid)`; the dict has the last key of an id.
unfoldable pub key_of : Option String → List Key → Option Key → Option Key
key_of kid [] found = found
key_of kid (k ∷ ks) found = key_of kid ks (if same k.kid kid then some k else found)

unfoldable pub is_found : Option Key → Bool
is_found none = false
is_found (some k) = true

-- Whether the issuer's JWKS is fetched: without keys, with old ones, or for an unknown id when the
-- last fetch has cooled down.
unfoldable pub fetches : Settings → Option Keys → Option String → ℕ → Bool
unfolding key_of is_found
fetches config none kid now = true
fetches config (some entry) kid now =
    leb config.receipt_jwks_cache_ttl_seconds (now - entry.fetched_at)
    || (not (is_found (key_of kid entry.keys none))
        && leb config.receipt_jwks_refresh_cooldown_seconds (now - entry.fetched_at))

-- A failed fetch keeps the entry.
unfoldable pub refreshed : ℕ → Option (List Key) → Option Keys → Option Keys
refreshed now none entry = entry
refreshed now (some keys) entry = some (record { fetched_at = now; keys = keys })

abbrev pub key_in : Option String → Option Keys → Option Key
key_in kid none = none
key_in kid (some entry) = key_of kid entry.keys none

-- ExchangeService.issuer_key: the key, and the cache after the call. `reply` is what a fetch would
-- give, None where it fails.
unfoldable pub issuer_key :
    Settings → Option Keys → Option String → ℕ → Option (List Key) → Option Key × Option Keys
unfolding fetches refreshed key_of
issuer_key config entry kid now reply =
    let after = if fetches config entry kid now then refreshed now reply entry else entry in
    (key_in kid after, after)

-- An answer to the status request: none (no URL, or it failed), a 404, or the `status` of the body.
pub data StatusReply : Type 0 where
  failed unknown : StatusReply
  body : Option String → StatusReply

pub record CachedStatus : Type 0 where
  pub fetched_at : ℕ
  pub status : Option String

abbrev pub keep_status : ℕ → Option String → Option String × Option CachedStatus
keep_status now status = (status, some (record { fetched_at = now; status = status }))

unfoldable pub read_status :
    ℕ → Option CachedStatus → StatusReply → Option String × Option CachedStatus
read_status now cached failed = (none, cached)
read_status now cached unknown = keep_status now (some "unknown")
read_status now cached (body status) = keep_status now status

-- ExchangeService.remote_status for one token. The pruning of old entries is left out: it drops only
-- those that the test of the age refuses.
unfoldable pub remote_status :
    Settings → Option CachedStatus → ℕ → StatusReply → Option String × Option CachedStatus
unfolding read_status
remote_status config none now reply = read_status now none reply
remote_status config (some c) now reply =
    if ltb (now - c.fetched_at) config.receipt_status_cache_ttl_seconds
    then (c.status, some c)
    else read_status now (some c) reply
