-- ===== src/Composite/Client.antt =====
-- CompositeClient.get_use_case for one reference: its cache, and the answers of the Composite.
use consent_manager.Base.{ℕ, ◌-◌, String, ◌||◌, Option, none, some, ◌==◌, ltb, eqb, if◌then◌else◌}
use consent_manager.Config.{Settings}
use consent_manager.Composite.Records.{UseCase, PublishedUseCase, from_composite}

-- What a read comes to: CompositeUnavailable, or what is published under the reference.
pub data Reading : Type 0 where
  unavailable : Reading
  published : Option UseCase → Reading

-- An answer to the request: none (no URL, or the request failed), or a status with the body, if that
-- is what it should be.
pub data Reply : Type 0 where
  failed : Reply
  answer : ℕ → Option PublishedUseCase → Reply

pub record Cached : Type 0 where
  pub fetched_at : ℕ
  pub use_case : Option UseCase

-- Another major than the one asked for is not this use case.
abbrev pub if_asked : String → UseCase → Option UseCase
if_asked ref u = if u.ref == ref then some u else none

unfoldable pub read_body : String → Option PublishedUseCase → Reading
read_body ref none = unavailable
read_body ref (some body) = published (if_asked ref (from_composite body))

unfoldable pub read_reply : String → Reply → Reading
unfolding read_body
read_reply ref failed = unavailable
read_reply ref (answer status body) =
    if eqb status 400 || eqb status 404
    then published none
    else if eqb status 200
    then read_body ref body
    else unavailable

-- The answer is kept; a failure leaves the cache as it was.
unfoldable pub store : ℕ → Option Cached → Reading → Reading × Option Cached
store now before unavailable = (unavailable, before)
store now before (published u) = (published u, some (record { fetched_at = now; use_case = u }))

-- CompositeClient.get_use_case; `reply` is what the Composite would answer now.
unfoldable pub get_use_case :
    Settings → String → Option Cached → ℕ → Reply → Reading × Option Cached
unfolding store
get_use_case config ref none now reply = store now none (read_reply ref reply)
get_use_case config ref (some c) now reply =
    if ltb (now - c.fetched_at) config.composite_use_case_cache_ttl_seconds
    then (published c.use_case, some c)
    else store now (some c) (read_reply ref reply)
