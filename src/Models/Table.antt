-- ===== src/Models/Table.antt =====
-- A table of rows with a text primary key: `session.get`, `session.add` and the write-back of a
-- changed row at commit.
use mathlib.Core.List.{Memᴰ}
use mathlib.Core.Option
use consent_manager.Base.{
  map, String, false, Option, none, some, List, [], ◌∷◌, ◌++◌, ◌==◌, ◌≡◌, refl, inl, inr,
  Bool-cases, arith, eq_iff, eq_refl, if◌then◌else◌,
}

module _ {ℓ} {A : Type ℓ} (key : A → String) where
  -- `session.get(Model, id)`
  unfoldable pub get : String → List A → Option A
  get k [] = none
  get k (row ∷ rows) = if key row == k then some row else get k rows

  -- The commit of a changed row: the row of that key is replaced.
  unfoldable pub save : A → List A → List A
  save new [] = []
  save new (row ∷ rows) = if key row == key new then new ∷ rows else row ∷ save new rows

  -- `session.delete(row)`
  unfoldable pub delete : String → List A → List A
  delete k [] = []
  delete k (row ∷ rows) = if key row == k then rows else row ∷ delete k rows

  pub key-get : (k : String) (rows : List A) {found : A} → get k rows ≡ some found → key found ≡ k
  unfolding get
  key-get k [] h = cc
  key-get k (row ∷ rows) {found} h =
      ground (arith, eq_iff (key row) k, key-get k rows {found = found})

  -- A read of the key that was written finds the new row, if the table had that key.
  pub get-save_self :
      (new : A) (rows : List A) {old : A}
      → get (key new) rows ≡ some old
      → get (key new) (save new rows) ≡ some new
  unfolding get save
  get-save_self new [] h = cc
  get-save_self new (row ∷ rows) {old} h = elim (Bool-cases (key row == key new)) [
    | inl e ↦ rw (e, eq_refl)
    | inr d ↦ rw d (rw d (get-save_self new rows {old = old} (rw d at h)))
  ]

  -- A row that was found and written back is read back under the key that it was found by.
  pub get-save_found :
      (k : String) (old new : A) (rows : List A)
      → get k rows ≡ some old
      → key new ≡ key old
      → get k (save new rows) ≡ some new
  get-save_found k old new rows h e =
      let found = key-get k rows h in
      cc (get-save_self new rows {old = old} (cc (h, e, found)), e, found)

  -- A read of another key does not see the write.
  pub get-save_ne :
      (new : A) (k : String) (rows : List A)
      → (key new == k) ≡ false
      → get k (save new rows) ≡ get k rows
  unfolding get save
  get-save_ne new k [] h = refl
  get-save_ne new k (row ∷ rows) h = ground (
    arith,
    eq_iff (key row) (key new),
    eq_iff (key new) k,
    eq_iff (key row) k,
    get-save_ne new k rows,
  )

-- Every row satisfies a property.
module _ {ℓ κ} {A : Type ℓ} (P : A → Type κ) where
  abbrev pub All : List A → Type κ
  All [] = Unit
  All (row ∷ rows) = P row × All rows

  pub All-append : (xs ys : List A) → All xs → All ys → All (xs ++ ys)
  All-append [] ys hx hy = hy
  All-append (x ∷ xs) ys hx hy = (hx.0, All-append xs ys hx.1 hy)

  pub All-save :
      (key : A → String) (new : A) (rows : List A) → P new → All rows → All (save key new rows)
  unfolding save
  All-save key new [] p h = tt
  All-save key new (row ∷ rows) p h = ground (arith, All-save key new rows p h.1)

  pub All-get :
      (key : A → String) (k : String) (rows : List A) {found : A}
      → All rows
      → get key k rows ≡ some found
      → P found
  unfolding get
  All-get key k [] h e = cc
  All-get key k (row ∷ rows) {found} h e = ground (arith, All-get key k rows {found = found} h.1)

-- What holds of every member holds of the list.
pub All-of {ℓ κ} :
    {A : Type ℓ} (P : A → Type κ) (xs : List A) → ((x : A) → Memᴰ x xs → P x) → All P xs
All-of P [] each = tt
All-of P (x ∷ xs) each = (each x (Memᴰ.head refl), All-of P xs (λ y m. each y (Memᴰ.tail m)))

-- A change of every row that keeps the keys: a read finds the changed row.
pub get-map {ℓ} :
    {A : Type ℓ} (key : A → String) (f : A → A)
    → ((row : A) → key (f row) ≡ key row)
    → (k : String) (rows : List A) → get key k (map f rows) ≡ Option.map f (get key k rows)
unfolding get
get-map key f same_key k [] = refl
get-map key f same_key k (row ∷ rows) = elim (Bool-cases (key row == k)) [
  | inl e ↦ rw (same_key, e)
  | inr d ↦ rw (same_key, d) (get-map key f same_key k rows)
]
