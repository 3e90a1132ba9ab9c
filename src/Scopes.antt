-- ===== src/Scopes.antt =====
-- Lists of scopes and codes as the services use them: `in`, `set(...)`, `&`, `issubset`, `sorted`.
pub mod Laws
pub mod Kept
use Prim.Native.Nat.{Ordering}
use Prim.Native.String.{compare}
use consent_manager.Base.{
  String, Bool, true, false, not, ◌&&◌, ◌||◌, List, [], ◌∷◌, ◌++◌, ◌==◌, if◌then◌else◌,
}

-- `x in xs`
unfoldable pub member : String → List String → Bool
member x [] = false
member x (y ∷ ys) = x == y || member x ys

-- `bool(xs)`
abbrev pub nonempty {ℓ} : {A : Type ℓ} → List A → Bool
nonempty [] = false
nonempty (x ∷ xs) = true

-- `[x for x in xs if test(x)]`
unfoldable pub keep {ℓ} : {A : Type ℓ} → (A → Bool) → List A → List A
keep test [] = []
keep test (x ∷ xs) = let rest = keep test xs in if test x then x ∷ rest else rest

-- `set(xs)`: one of each. The order of a Python set is not specified, and is not used.
unfoldable pub to_set : List String → List String
to_set [] = []
to_set (x ∷ xs) = let rest = to_set xs in if member x rest then rest else x ∷ rest

-- `xs & ys`
unfoldable pub inter : List String → List String → List String
unfolding keep
inter xs ys = keep (λ x. member x ys) xs

-- `xs.issubset(ys)`
unfoldable pub is_subset : List String → List String → Bool
is_subset [] ys = true
is_subset (x ∷ xs) ys = member x ys && is_subset xs ys

abbrev comes_first : String → String → Bool
comes_first x y = elim (compare x y) [ Ordering.gt ↦ false | _ ↦ true ]

insert_sorted : String → List String → List String
insert_sorted x [] = x ∷ []
insert_sorted x (y ∷ ys) = if comes_first x y then x ∷ y ∷ ys else y ∷ insert_sorted x ys

-- `sorted(xs)`: by code points, equal texts kept
unfoldable pub sorted : List String → List String
unfolding insert_sorted
sorted [] = []
sorted (x ∷ xs) = insert_sorted x (sorted xs)

-- `xs == ys` on lists
unfoldable pub list_eq : List String → List String → Bool
list_eq [] [] = true
list_eq (x ∷ xs) (y ∷ ys) = x == y && list_eq xs ys
list_eq _ _ = false

-- `{s for g in gs for s in ...}`: the union
unfoldable pub union_of : List (List String) → List String
union_of [] = []
union_of (xs ∷ rest) = xs ++ union_of rest
