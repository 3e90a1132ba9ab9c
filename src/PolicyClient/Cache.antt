-- ===== src/PolicyClient/Cache.antt =====
-- PmPolicyClient's cache for one key (partner and data controller, use case or all). A time is a
-- reading of the monotonic clock in seconds plus 1, so that the code's -1.0 is 0. The lock of a key
-- makes its calls one after the other; the cache of another key is another entry.
use consent_manager.Base.{
  ℕ, ◌-◌, Bool, true, ◌||◌, Option, none, some, List, [], ◌∷◌, ltb, leb, if◌then◌else◌,
}
use consent_manager.Config.{Settings}
use consent_manager.Policy.Records.{PmPolicy}

pub record Entry : Type 0 where
  pub value : Option (List PmPolicy)
  pub fetched_at : ℕ
  pub last_attempt : ℕ
  pub ttl : ℕ

-- What a request to Partner Management comes to: no usable answer (no URL, no connection, another
-- status than 200 or 404, a bad body), a 404, or the policies with the answer's max-age.
pub data Reply : Type 0 where
  failed not_found : Reply
  policies : List PmPolicy → Option ℕ → Reply

-- What a caller gets: PolicyUnavailable or a list of policies.
pub data Served : Type 0 where
  unavailable : Served
  served : List PmPolicy → Served

-- PmPolicyClient._ttl. The cache TTL of the settings is a natural number, so it is at least 0.
abbrev pub soft_ttl : Settings → Option ℕ → ℕ
soft_ttl config none = config.partner_policy_cache_ttl_seconds
soft_ttl config (some max_age) =
    if ltb max_age config.partner_policy_cache_ttl_seconds
    then max_age
    else config.partner_policy_cache_ttl_seconds

-- PmPolicyClient._needs_fetch
unfoldable pub needs_fetch : Settings → Entry → ℕ → Bool
needs_fetch config entry now =
    if ltb entry.fetched_at entry.last_attempt
    then leb config.partner_policy_negative_ttl_seconds (now - entry.last_attempt)
    else leb entry.ttl (now - entry.fetched_at)

unfoldable pub serve_value : Bool → Option (List PmPolicy) → Served
serve_value true (some value) = served value
serve_value _ _ = unavailable

-- PmPolicyClient._serve
unfoldable pub serve : Settings → Entry → ℕ → Served
unfolding serve_value
serve config entry now =
    serve_value
      (leb entry.last_attempt entry.fetched_at
        || ltb (now - entry.fetched_at) config.partner_policy_hard_ttl_seconds)
      entry.value

-- Nothing to fall back on.
abbrev pub fail_closed : ℕ → Served × Entry
fail_closed now =
    (unavailable, record { value = none; fetched_at = 0; last_attempt = now; ttl = 0 })

unfoldable pub fall_back : Settings → Entry → Option (List PmPolicy) → ℕ → Served × Entry
fall_back config prev none now = fail_closed now
fall_back config prev (some value) now =
    if ltb (now - prev.fetched_at) config.partner_policy_hard_ttl_seconds
    then (served value, record prev { last_attempt = now })
    else fail_closed now

-- PmPolicyClient._on_error
unfoldable pub on_error : Settings → Option Entry → ℕ → Served × Entry
unfolding fall_back
on_error config none now = fail_closed now
on_error config (some prev) now = fall_back config prev prev.value now

abbrev pub answer_at : ℕ → List PmPolicy → ℕ → Served × Entry
answer_at now value ttl =
    (served value, record { value = some value; fetched_at = now; last_attempt = now; ttl = ttl })

-- PmPolicyClient._fetch
unfoldable pub fetch : Settings → Option Entry → ℕ → Reply → Served × Entry
unfolding on_error
fetch config prev now failed = on_error config prev now
fetch config prev now not_found = answer_at now [] config.partner_policy_negative_ttl_seconds
fetch config prev now (policies value max_age) = answer_at now value (soft_ttl config max_age)

-- PmPolicyClient._get: `reply` is what Partner Management would answer now.
unfoldable pub get : Settings → Option Entry → ℕ → Reply → Served × Entry
unfolding needs_fetch serve fetch
get config none now reply = fetch config none now reply
get config (some entry) now reply =
    if needs_fetch config entry now
    then fetch config (some entry) now reply
    else (serve config entry now, entry)

-- The entry of a key after calls, the latest first, from an empty cache.
unfoldable pub get_all : Settings → List (ℕ × Reply) → Option Entry
get_all config [] = none
get_all config ((now, reply) ∷ earlier) = some (get config (get_all config earlier) now reply).1
