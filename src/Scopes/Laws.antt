-- ===== src/Scopes/Laws.antt =====
-- Membership in each scope list that the services compute.
use consent_manager.Base.{
  String, Bool, true, ◌&&◌, ◌||◌, List, [], ◌∷◌, ◌++◌, ◌==◌, ◌≡◌, refl, ap, inl, inr, eq-true,
  Bool-cases, arith,
}
use consent_manager.Scopes.{member, keep, to_set, inter, is_subset, insert_sorted, sorted}

-- Equal texts have the same memberships.
member_of_eq : (x y : String) (ys : List String) → (x == y) ≡ true → member x ys ≡ member y ys
member_of_eq x y ys h = ap (λ z. member z ys) (eq-true x y h)

pub member-keep :
    (s : String) (test : String → Bool) (xs : List String)
    → member s (keep test xs) ≡ member s xs && test s
unfolding member keep
member-keep s test [] = refl
member-keep s test (x ∷ xs) = elim (Bool-cases (s == x)) [
  | inl e ↦ ground (arith, e, member-keep s test xs, ap test (eq-true s x e))
  | inr d ↦ ground (arith, d, member-keep s test xs)
]

pub member-inter :
    (s : String) (xs ys : List String) → member s (inter xs ys) ≡ member s xs && member s ys
unfolding inter
member-inter s xs ys = member-keep s (λ x. member x ys) xs

pub member-to_set : (s : String) (xs : List String) → member s (to_set xs) ≡ member s xs
unfolding member to_set
member-to_set s [] = refl
member-to_set s (x ∷ xs) = ground (arith, member-to_set s xs, member_of_eq s x (to_set xs))

member-insert_sorted :
    (s x : String) (xs : List String) → member s (insert_sorted x xs) ≡ (s == x) || member s xs
unfolding member insert_sorted
member-insert_sorted s x [] = refl
member-insert_sorted s x (y ∷ ys) = ground (arith, member-insert_sorted s x ys)

pub member-sorted : (s : String) (xs : List String) → member s (sorted xs) ≡ member s xs
unfolding member sorted
member-sorted s [] = refl
member-sorted s (x ∷ xs) = ground (arith, member-insert_sorted s x (sorted xs), member-sorted s xs)

pub member-append :
    (s : String) (xs ys : List String) → member s (xs ++ ys) ≡ member s xs || member s ys
unfolding member
member-append s [] ys = refl
member-append s (x ∷ xs) ys = ground (arith, member-append s xs ys)

-- A member of a subset is a member of the whole.
pub is_subset-member :
    (s : String) (xs ys : List String)
    → is_subset xs ys ≡ true
    → member s xs ≡ true
    → member s ys ≡ true
unfolding is_subset member
is_subset-member s [] ys h m = cc
is_subset-member s (x ∷ xs) ys h m = ground (arith, is_subset-member s xs ys, member_of_eq s x ys)

-- What every scope computation yields: `sorted(set(xs) & ys)` has the common scopes.
pub member-narrowed :
    (s : String) (xs ys : List String)
    → member s (sorted (inter (to_set xs) ys)) ≡ member s xs && member s ys
member-narrowed s xs ys =
    cc (member-sorted s (inter (to_set xs) ys), member-inter s (to_set xs) ys, member-to_set s xs)
