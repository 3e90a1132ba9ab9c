-- ===== src/PolicyClient/Staleness.antt =====
-- How old an answer of the policy client can be.
use mathlib.Core.Path.{subst}
use consent_manager.Base.{
  ℕ, ◌+◌, ◌-◌, ◌≤◌, ◌<◌, Bool, true, false, Option, none, some, List, [], ◌∷◌, ◌≡◌, refl, ◌||◌, ◌⊎◌,
  inl, Bool-cases, inr, arith, ltb, leb,
}
use consent_manager.Config.{Settings}
use consent_manager.Policy.Records.{PmPolicy}
use consent_manager.PolicyClient.Cache.{
  Entry, Reply, failed, not_found, policies, Served, unavailable, served, soft_ttl, needs_fetch,
  serve, serve_value, fall_back, fail_closed, answer_at, on_error, fetch, get, get_all,
}

-- The list that a reply of Partner Management stands for.
abbrev pub gives : Reply → Option (List PmPolicy)
gives failed = none
gives not_found = some []
gives (policies value max_age) = some value

-- Partner Management gave the list at that time, in one of the calls.
pub data Gave (value : List PmPolicy) (t : ℕ) : List (ℕ × Reply) → Type 0 where
  here :
      {reply : Reply} {calls : List (ℕ × Reply)}
      → gives reply ≡ some value
      → Gave value t ((t, reply) ∷ calls)
  there :
      {call : ℕ × Reply} {calls : List (ℕ × Reply)}
      → Gave value t calls
      → Gave value t (call ∷ calls)

-- The list given at `t` may still be served at `now`: it is new, or one of the settings' lifetimes is
-- not over.
abbrev pub IsRecent : Settings → ℕ → ℕ → Type 0
IsRecent config t now =
    (now ≤ t)
    ⊎ (now < t + config.partner_policy_cache_ttl_seconds)
    ⊎ (now < t + config.partner_policy_negative_ttl_seconds)
    ⊎ (now < t + config.partner_policy_hard_ttl_seconds)

-- What an entry holds was given when it says, and its soft TTL is one of the settings'.
abbrev IsGenuine : Settings → List (ℕ × Reply) → Option Entry → Type 0
IsGenuine config calls none = Unit
IsGenuine config calls (some entry) =
    ((value : List PmPolicy) → entry.value ≡ some value → Gave value entry.fetched_at calls)
    × ((entry.ttl ≤ config.partner_policy_cache_ttl_seconds)
        ⊎ (entry.ttl ≤ config.partner_policy_negative_ttl_seconds))

-- An answer is a list given in one of the calls, recently.
abbrev IsBacked : Settings → List (ℕ × Reply) → ℕ → Served → Type 0
IsBacked config calls now unavailable = Unit
IsBacked config calls now (served value) = (t : ℕ) × Gave value t calls × IsRecent config t now

abbrev Kept : Settings → List (ℕ × Reply) → ℕ → Served × Entry → Type 0
Kept config calls now (answer, entry) =
    IsBacked config calls now answer × IsGenuine config calls (some entry)

fail_closed-Kept :
    (config : Settings) (calls : List (ℕ × Reply)) (now : ℕ)
    → Kept config calls now (fail_closed now)
fail_closed-Kept config calls now = (tt, ((λ value e. cc), inl (ground arith)))

-- An entry stays genuine when another call follows.
later-IsGenuine :
    (config : Settings) (calls : List (ℕ × Reply)) (call : ℕ × Reply) (entry : Entry) (now : ℕ)
    → IsGenuine config calls (some entry)
    → IsGenuine config (call ∷ calls) (some (record entry { last_attempt = now }))
later-IsGenuine config calls call entry now g = (λ value e. there (g.0 value e), g.1)

fall_back-Kept :
    (config : Settings) (prev : Entry) (value : Option (List PmPolicy)) (now : ℕ)
    (earlier : List (ℕ × Reply)) (call : ℕ × Reply)
    → prev.value ≡ value
    → IsGenuine config earlier (some prev)
    → Kept config (call ∷ earlier) now (fall_back config prev value now)
unfolding fall_back
fall_back-Kept config prev none now earlier call e g = fail_closed-Kept config (call ∷ earlier) now
fall_back-Kept config prev (some value) now earlier call e g =
    elim (Bool-cases (ltb (now - prev.fetched_at) config.partner_policy_hard_ttl_seconds)) [
      | inl young ↦ rw young (
        (prev.fetched_at, there (g.0 value e), inr (inr (inr (ground arith)))),
        later-IsGenuine config earlier call prev now g,
      )
      | inr old ↦ rw old (fail_closed-Kept config (call ∷ earlier) now)
    ]

on_error-Kept :
    (config : Settings) (prev : Option Entry) (now : ℕ) (earlier : List (ℕ × Reply))
    (call : ℕ × Reply)
    → IsGenuine config earlier prev
    → Kept config (call ∷ earlier) now (on_error config prev now)
unfolding on_error
on_error-Kept config none now earlier call g = fail_closed-Kept config (call ∷ earlier) now
on_error-Kept config (some prev) now earlier call g =
    fall_back-Kept config prev prev.value now earlier call refl g

-- The entry that an answer makes.
answer_at-Kept :
    (config : Settings) (now : ℕ) (earlier : List (ℕ × Reply)) (reply : Reply)
    (value : List PmPolicy) (ttl : ℕ)
    → gives reply ≡ some value
    → (ttl ≤ config.partner_policy_cache_ttl_seconds)
      ⊎ (ttl ≤ config.partner_policy_negative_ttl_seconds)
    → Kept config ((now, reply) ∷ earlier) now (answer_at now value ttl)
answer_at-Kept config now earlier reply value ttl e short =
    ((now, here e, inl (ground arith)), (λ v h. here (cc (e, h)), short))

soft_ttl-short :
    (config : Settings) (max_age : Option ℕ)
    → soft_ttl config max_age ≤ config.partner_policy_cache_ttl_seconds
soft_ttl-short config none = ground arith
soft_ttl-short config (some max_age) = ground arith

fetch-Kept :
    (config : Settings) (prev : Option Entry) (now : ℕ) (earlier : List (ℕ × Reply)) (reply : Reply)
    → IsGenuine config earlier prev
    → Kept config ((now, reply) ∷ earlier) now (fetch config prev now reply)
unfolding fetch
fetch-Kept config prev now earlier failed g = on_error-Kept config prev now earlier (now, failed) g
fetch-Kept config prev now earlier not_found g =
    answer_at-Kept config now earlier not_found [] _ refl (inr (ground arith))
fetch-Kept config prev now earlier (policies value max_age) g =
    answer_at-Kept config now earlier (policies value max_age) value _ refl
      (inl (soft_ttl-short config max_age))

serve_value-IsBacked :
    (config : Settings) (calls : List (ℕ × Reply)) (entry : Entry) (now : ℕ) (allowed : Bool)
    (value : Option (List PmPolicy))
    → entry.value ≡ value
    → IsGenuine config calls (some entry)
    → (allowed ≡ true → IsRecent config entry.fetched_at now)
    → IsBacked config calls now (serve_value allowed value)
unfolding serve_value
serve_value-IsBacked config calls entry now false value e g recent = tt
serve_value-IsBacked config calls entry now true none e g recent = tt
serve_value-IsBacked config calls entry now true (some value) e g recent =
    (entry.fetched_at, g.0 value e, recent refl)

-- An entry that needs no fetch serves what is recent.
fresh-IsRecent :
    (config : Settings) (entry : Entry) (now : ℕ)
    → (entry.ttl ≤ config.partner_policy_cache_ttl_seconds)
      ⊎ (entry.ttl ≤ config.partner_policy_negative_ttl_seconds)
    → needs_fetch config entry now ≡ false
    → (leb entry.last_attempt entry.fetched_at
        || ltb (now - entry.fetched_at) config.partner_policy_hard_ttl_seconds)
      ≡ true
    → IsRecent config entry.fetched_at now
unfolding needs_fetch
fresh-IsRecent config entry now (inl short) quiet h = ground arith
fresh-IsRecent config entry now (inr short) quiet h = ground arith

get-Kept :
    (config : Settings) (prev : Option Entry) (now : ℕ) (earlier : List (ℕ × Reply)) (reply : Reply)
    → IsGenuine config earlier prev
    → Kept config ((now, reply) ∷ earlier) now (get config prev now reply)
unfolding get serve
get-Kept config none now earlier reply g = fetch-Kept config none now earlier reply g
get-Kept config (some entry) now earlier reply g =
    elim (Bool-cases (needs_fetch config entry now)) [
      | inl due ↦ rw due (fetch-Kept config (some entry) now earlier reply g)
      | inr quiet ↦
          let later = later-IsGenuine config earlier (now, reply) entry entry.last_attempt g in
          rw quiet (
            serve_value-IsBacked config ((now, reply) ∷ earlier) entry now _ entry.value refl later
                (fresh-IsRecent config entry now g.1 quiet),
            later,
          )
    ]

get_all-IsGenuine :
    (config : Settings) (calls : List (ℕ × Reply)) → IsGenuine config calls (get_all config calls)
unfolding get_all
get_all-IsGenuine config [] = tt
get_all-IsGenuine config ((now, reply) ∷ earlier) =
    (get-Kept config (get_all config earlier) now earlier reply
      (get_all-IsGenuine config earlier)).1

-- Whatever calls came before, a list that the client serves is one that Partner Management gave, now or
-- in an earlier call for the same key, and no longer ago than the cache TTL, the negative TTL or the
-- hard TTL of the settings.
pub get-IsRecent :
    (config : Settings) (earlier : List (ℕ × Reply)) (now : ℕ) (reply : Reply)
    (value : List PmPolicy)
    → (get config (get_all config earlier) now reply).0 ≡ served value
    → (t : ℕ) × Gave value t ((now, reply) ∷ earlier) × IsRecent config t now
get-IsRecent config earlier now reply value h =
    subst (IsBacked config ((now, reply) ∷ earlier) now) h
      (get-Kept config (get_all config earlier) now earlier reply
        (get_all-IsGenuine config earlier)).0

fall_back-rests :
    (config : Settings) (prev : Entry) (value : Option (List PmPolicy)) (now later : ℕ)
    → 0 < now
    → prev.fetched_at < now
    → now ≤ later
    → later < now + config.partner_policy_negative_ttl_seconds
    → needs_fetch config (fall_back config prev value now).1 later ≡ false
unfolding fall_back needs_fetch
fall_back-rests config prev none now later begun past after soon = ground arith
fall_back-rests config prev (some value) now later begun past after soon = ground arith

-- After a failed request the client asks Partner Management again only when the negative TTL is over,
-- whether or not it had an answer to fall back on.
pub on_error-rests :
    (config : Settings) (prev : Option Entry) (now later : ℕ)
    → 0 < now
    → ((entry : Entry) → prev ≡ some entry → entry.fetched_at < now)
    → now ≤ later
    → later < now + config.partner_policy_negative_ttl_seconds
    → needs_fetch config (on_error config prev now).1 later ≡ false
unfolding on_error needs_fetch
on_error-rests config none now later begun past after soon = ground arith
on_error-rests config (some prev) now later begun past after soon =
    fall_back-rests config prev prev.value now later begun (past prev refl) after soon
