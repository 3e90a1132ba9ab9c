-- ===== src/Composite/Source.antt =====
-- The use cases that the lifecycle services read: an interface, and the CompositeClient that fills it.
use consent_manager.Base.{
  ℕ, ◌-◌, String, ◌||◌, Option, none, some, ◌==◌, ◌≡◌, inl, inr, ltb, eqb, eq-true, Bool-cases,
}
use consent_manager.Config.{Settings}
use consent_manager.Composite.Records.{UseCase, PublishedUseCase, from_composite}
use consent_manager.Composite.Client.{
  Reading, unavailable, published, Reply, failed, answer, Cached, if_asked, read_body, read_reply,
  store, get_use_case,
}

-- The law: what is published under a reference has that reference.
pub record UseCaseSource : Type 0 where
  pub read : String → Reading
  pub for_ref : (ref : String) {u : UseCase} → read ref ≡ published (some u) → u.ref ≡ ref

abbrev pub IsOf : String → Option UseCase → Type 0
IsOf ref none = Unit
IsOf ref (some u) = u.ref ≡ ref

abbrev pub ReadsOf : String → Reading → Type 0
ReadsOf ref unavailable = Unit
ReadsOf ref (published u) = IsOf ref u

abbrev pub CachedOf : String → Option Cached → Type 0
CachedOf ref none = Unit
CachedOf ref (some c) = IsOf ref c.use_case

if_asked-IsOf : (ref : String) (u : UseCase) → IsOf ref (if_asked ref u)
if_asked-IsOf ref u = elim (Bool-cases (u.ref == ref)) [
  | inl e ↦ rw e (eq-true u.ref ref e)
  | inr d ↦ rw d tt
]

read_body-ReadsOf :
    (ref : String) (body : Option PublishedUseCase) → ReadsOf ref (read_body ref body)
unfolding read_body
read_body-ReadsOf ref none = tt
read_body-ReadsOf ref (some body) = if_asked-IsOf ref (from_composite body)

read_reply-ReadsOf : (ref : String) (reply : Reply) → ReadsOf ref (read_reply ref reply)
unfolding read_reply
read_reply-ReadsOf ref failed = tt
read_reply-ReadsOf ref (answer status body) = elim (Bool-cases (eqb status 400 || eqb status 404)) [
  | inl missing ↦ rw missing tt
  | inr other ↦ elim (Bool-cases (eqb status 200)) [
    | inl fine ↦ rw (other, fine) (read_body-ReadsOf ref body)
    | inr odd ↦ rw (other, odd) tt
  ]
]

abbrev pub Kept : String → Reading × Option Cached → Type 0
Kept ref (reading, cached) = ReadsOf ref reading × CachedOf ref cached

store-Kept :
    (ref : String) (now : ℕ) (before : Option Cached) (reading : Reading)
    → CachedOf ref before
    → ReadsOf ref reading
    → Kept ref (store now before reading)
unfolding store
store-Kept ref now before unavailable b r = (tt, b)
store-Kept ref now before (published u) b r = (r, r)

-- Whatever the Composite answers, what the client returns for a reference and what it keeps in its
-- cache is a use case of that reference, if the cache had one of that reference before.
pub get_use_case-Kept :
    (config : Settings) (ref : String) (cached : Option Cached) (now : ℕ) (reply : Reply)
    → CachedOf ref cached
    → Kept ref (get_use_case config ref cached now reply)
unfolding get_use_case
get_use_case-Kept config ref none now reply c =
    store-Kept ref now none (read_reply ref reply) tt (read_reply-ReadsOf ref reply)
get_use_case-Kept config ref (some c) now reply own =
    elim (Bool-cases (ltb (now - c.fetched_at) config.composite_use_case_cache_ttl_seconds)) [
      | inl young ↦ rw young (own, own)
      | inr old ↦
          rw old
            (store-Kept ref now (some c) (read_reply ref reply) own (read_reply-ReadsOf ref reply))
    ]

pub ReadsOf-published :
    (ref : String) (reading : Reading) {u : UseCase}
    → ReadsOf ref reading
    → reading ≡ published (some u)
    → u.ref ≡ ref
ReadsOf-published ref unavailable r e = cc
ReadsOf-published ref (published none) r e = cc
ReadsOf-published ref (published (some v)) r e = cc (r, e)

-- The client with what its cache holds and what the Composite would answer.
unfoldable pub use_case_source :
    (config : Settings) (cache : String → Option Cached)
    → ((ref : String) → CachedOf ref (cache ref))
    → ℕ
    → (String → Reply)
    → UseCaseSource
use_case_source config cache own now replies = record {
  read = λ ref. (get_use_case config ref (cache ref) now (replies ref)).0;
  for_ref = λ ref {u} e.
      ReadsOf-published ref (get_use_case config ref (cache ref) now (replies ref)).0 {u = u}
        (get_use_case-Kept config ref (cache ref) now (replies ref) (own ref)).0 e;
}
