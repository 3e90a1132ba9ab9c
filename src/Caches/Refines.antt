-- ===== src/Caches/Refines.antt =====
-- TTLCache as what its history says: the last value that was set, until its time is over.
use consent_manager.Base.{
  ℕ, ◌+◌, ◌≤◌, String, true, false, Option, none, some, List, [], ◌∷◌, ◌==◌, ◌≡◌, refl, leb, arith,
  inl, inr, Bool-cases, eq_iff, eq-true, ap, if◌then◌else◌,
}
use consent_manager.Caches.Ttl.{Entry, find, pop, serve, get, set, invalidate, clear}

-- A call on the cache, with its time where it reads the clock.
pub data Call {ℓ} (A : Type ℓ) : Type ℓ where
  gets : String → ℕ → Call A
  sets : String → A → ℕ → Call A
  invalidates : String → Call A
  clears : Call A

module _ {ℓ} {A : Type ℓ} (ttl : ℕ) where
  -- The store after calls, the latest first.
  unfoldable pub run : List (Call A) → List (Entry A)
  run [] = []
  run (gets k now ∷ earlier) = (get k now (run earlier)).1
  run (sets k value now ∷ earlier) = set ttl k value now (run earlier)
  run (invalidates k ∷ earlier) = invalidate k (run earlier)
  run (clears ∷ earlier) = clear (run earlier)

  -- The specification: a value lasts from its set until its TTL is over, unless it is replaced,
  -- invalidated or cleared. A read changes nothing.
  unfoldable pub lasting : String → ℕ → List (Call A) → Option A
  lasting k now [] = none
  lasting k now (gets j t ∷ earlier) = lasting k now earlier
  lasting k now (sets j value t ∷ earlier) =
      let rest = lasting k now earlier in
      if j == k then if leb (t + ttl) now then none else some value else rest
  lasting k now (invalidates j ∷ earlier) =
      let rest = lasting k now earlier in if j == k then none else rest
  lasting k now (clears ∷ earlier) = none

  -- No call is later than a time, and the calls are in the order of time.
  abbrev pub IsOrdered : ℕ → List (Call A) → Type 0
  IsOrdered now [] = Unit
  IsOrdered now (gets k t ∷ earlier) = (t ≤ now) × IsOrdered t earlier
  IsOrdered now (sets k value t ∷ earlier) = (t ≤ now) × IsOrdered t earlier
  IsOrdered now (invalidates k ∷ earlier) = IsOrdered now earlier
  IsOrdered now (clears ∷ earlier) = IsOrdered now earlier

  -- What an entry serves at a time.
  abbrev served : ℕ → Option (Entry A) → Option A
  served now none = none
  served now (some e) = if leb e.expires_at now then none else some e.value

  find-pop_self : (k : String) (store : List (Entry A)) → find k (pop k store) ≡ none
  unfolding find pop
  find-pop_self k [] = refl
  find-pop_self k (e ∷ es) = elim (Bool-cases (e.key == k)) [
    | inl own ↦ rw own (find-pop_self k es)
    | inr other ↦ rw (other, other) (find-pop_self k es)
  ]

  find-pop_ne :
      (j k : String) (store : List (Entry A))
      → (j == k) ≡ false
      → find k (pop j store) ≡ find k store
  unfolding find pop
  find-pop_ne j k [] apart = refl
  find-pop_ne j k (e ∷ es) apart = elim (Bool-cases (e.key == j)) [
    | inl own ↦
        let other : (e.key == k) ≡ false =
          ground (arith, eq_iff e.key j, eq_iff e.key k, eq_iff j k) in
        rw (own, other) (find-pop_ne j k es apart)
    | inr apart_from_j ↦ elim (Bool-cases (e.key == k)) [
      | inl found ↦ rw (apart_from_j, found) refl
      | inr on ↦ rw (apart_from_j, on) (find-pop_ne j k es apart)
    ]
  ]

  later-IsOrdered :
      (t now : ℕ) (calls : List (Call A)) → t ≤ now → IsOrdered t calls → IsOrdered now calls
  later-IsOrdered t now [] after h = tt
  later-IsOrdered t now (gets k u ∷ earlier) after h = (ground arith, h.1)
  later-IsOrdered t now (sets k value u ∷ earlier) after h = (ground arith, h.1)
  later-IsOrdered t now (invalidates k ∷ earlier) after h = later-IsOrdered t now earlier after h
  later-IsOrdered t now (clears ∷ earlier) after h = later-IsOrdered t now earlier after h

  -- A read of one key changes nothing of what is served from then on: it drops an entry whose time is
  -- over.
  get-served :
      (j k : String) (t now : ℕ) (store : List (Entry A)) (found : Option (Entry A))
      → find j store ≡ found
      → t ≤ now
      → served now (find k (serve j t found store).1) ≡ served now (find k store)
  unfolding serve
  get-served j k t now store none e after = refl
  get-served j k t now store (some entry) e after = elim (Bool-cases (leb entry.expires_at t)) [
    | inr lasts ↦ rw lasts refl
    | inl over ↦ elim (Bool-cases (j == k)) [
      | inr apart ↦ rw over (ap (served now) (find-pop_ne j k store apart))
      | inl same_key ↦
          let is_over : leb entry.expires_at now ≡ true = ground arith in
          let here : find k store ≡ some entry =
            cc (e, ap (λ x. find x store) (eq-true j k same_key)) in
          let gone : find k (pop j store) ≡ none =
            cc (find-pop_self j store, ap (λ x. find x (pop j store)) (eq-true j k same_key)) in
          rw (over, here, gone, is_over) refl
    ]
  ]

  pop-served :
      (j k : String) (now : ℕ) (store : List (Entry A)) (rest : Option A)
      → served now (find k store) ≡ rest
      → served now (find k (pop j store)) ≡ (if j == k then none else rest)
  pop-served j k now store rest h = elim (Bool-cases (j == k)) [
    | inl same_key ↦
        let gone : find k (pop j store) ≡ none =
          cc (find-pop_self j store, ap (λ x. find x (pop j store)) (eq-true j k same_key)) in
        rw (same_key, gone) refl
    | inr apart ↦ rw apart (cc (ap (served now) (find-pop_ne j k store apart), h))
  ]

  get-value :
      (k : String) (now : ℕ) (store : List (Entry A)) (found : Option (Entry A))
      → (serve k now found store).0 ≡ served now found
  unfolding serve
  get-value k now store none = refl
  get-value k now store (some e) = elim (Bool-cases (leb e.expires_at now)) [
    | inl over ↦ rw over refl
    | inr lasts ↦ rw lasts refl
  ]

  run-served :
      (k : String) (now : ℕ) (calls : List (Call A))
      → IsOrdered now calls
      → served now (find k (run calls)) ≡ lasting k now calls
  unfolding run lasting get set invalidate
  run-served k now [] h = refl
  run-served k now (gets j t ∷ earlier) h =
      let store = run earlier in
      let before = run-served k now earlier (later-IsOrdered t now earlier h.0 h.1) in
      cc (get-served j k t now store (find j store) refl h.0, before)
  run-served k now (sets j value t ∷ earlier) h =
      let before = run-served k now earlier (later-IsOrdered t now earlier h.0 h.1) in
      let popped = pop-served j k now (run earlier) (lasting k now earlier) before in
      elim (Bool-cases (j == k)) [
        | inl own ↦ rw own refl
        | inr other ↦ rw other (rw other at popped)
      ]
  run-served k now (invalidates j ∷ earlier) h =
      pop-served j k now (run earlier) (lasting k now earlier) (run-served k now earlier h)
  run-served k now (clears ∷ earlier) h = refl

  -- Whatever calls were made, in the order of time, a read gives the value that was set last under the
  -- key, if its TTL is not over and no call has invalidated or cleared it since, and else none: the
  -- reads, which drop entries, are not seen.
  pub get-lasting :
      (k : String) (now : ℕ) (calls : List (Call A))
      → IsOrdered now calls
      → (get k now (run calls)).0 ≡ lasting k now calls
  unfolding get
  get-lasting k now calls h =
      cc (get-value k now (run calls) (find k (run calls)), run-served k now calls h)
