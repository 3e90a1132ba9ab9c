-- ===== src/Caches/Ttl.antt =====
-- TTLCache. A time is a reading of the monotonic clock; the lock makes each call one step.
use consent_manager.Base.{
  ℕ, ◌+◌, String, Option, none, some, List, [], ◌∷◌, ◌==◌, leb, if◌then◌else◌,
}

pub record Entry {ℓ} (A : Type ℓ) : Type ℓ where
  pub key : String
  pub expires_at : ℕ
  pub value : A

module _ {ℓ} {A : Type ℓ} where
  -- `_store.get(key)`
  unfoldable pub find : String → List (Entry A) → Option (Entry A)
  find k [] = none
  find k (e ∷ es) = if e.key == k then some e else find k es

  -- `_store.pop(key, None)`; a key has one entry
  unfoldable pub pop : String → List (Entry A) → List (Entry A)
  pop k [] = []
  pop k (e ∷ es) = let rest = pop k es in if e.key == k then rest else e ∷ rest

  unfoldable pub serve : String → ℕ → Option (Entry A) → List (Entry A) → Option A × List (Entry A)
  serve k now none store = (none, store)
  serve k now (some e) store =
      if leb e.expires_at now then (none, pop k store) else (some e.value, store)

  -- TTLCache.get
  unfoldable pub get : String → ℕ → List (Entry A) → Option A × List (Entry A)
  unfolding serve find
  get k now store = serve k now (find k store) store

  -- TTLCache.set, invalidate and clear
  unfoldable pub set : ℕ → String → A → ℕ → List (Entry A) → List (Entry A)
  unfolding pop
  set ttl k value now store =
      record { key = k; expires_at = now + ttl; value = value } ∷ pop k store

  unfoldable pub invalidate : String → List (Entry A) → List (Entry A)
  unfolding pop
  invalidate k store = pop k store

  abbrev pub clear : List (Entry A) → List (Entry A)
  clear store = []
