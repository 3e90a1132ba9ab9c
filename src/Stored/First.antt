-- ===== src/Stored/First.antt =====
-- Which consent a lookup finds.
use mathlib.Core.List.{Memᴰ}
use mathlib.Core.Path.{subst}
use consent_manager.Base.{
  true, false, Option, none, some, List, [], ◌∷◌, ◌≡◌, ◌⊎◌, ◌<◌, ◌≤◌, refl, arith, inl, inr,
  Bool-cases,
}
use consent_manager.Models.Rows.{Time, ConsentArtefact}
use consent_manager.Models.Database.{Database}
use consent_manager.Models.Table.{All, All-of}
use consent_manager.Stored.Held.{IsHeld, is_candidate-IsHeld}
use consent_manager.Scopes.{keep}
use consent_manager.Scopes.Kept.{Memᴰ-keep, keep-Memᴰ}
use consent_manager.Stored.Lookup.{
  LookupKey, is_candidate, precedes, first_of, first_in_order, look_up,
}

artefact-injective :
    {a b : ConsentArtefact} → ◌≡◌ {A = Option ConsentArtefact} (some a) (some b) → a ≡ b
artefact-injective h = cc

precedes_trans :
    (a b c : ConsentArtefact) → precedes b a ≡ false → precedes c b ≡ false → precedes c a ≡ false
precedes_trans a b c h k = ground arith

-- The first in the order is one of the rows, and none of them precedes it.
abbrev IsFirst : List ConsentArtefact → ConsentArtefact → Type 0
IsFirst rows a = Memᴰ a rows × ((b : ConsentArtefact) → Memᴰ b rows → precedes b a ≡ false)

precedes_irrefl : (a b : ConsentArtefact) → b ≡ a → precedes b a ≡ false
precedes_irrefl a b e = rw e (ground arith)

first_of-IsFirst :
    (r : ConsentArtefact) (rows : List ConsentArtefact) (best : Option ConsentArtefact)
    → first_in_order rows ≡ best
    → ((b : ConsentArtefact) → best ≡ some b → IsFirst rows b)
    → IsFirst (r ∷ rows) (first_of r best)
unfolding first_of first_in_order
first_of-IsFirst r [] none e rest = (
  Memᴰ.head refl,
  λ c m. elim m [ Memᴰ.head same_row ↦ precedes_irrefl r c same_row | Memᴰ.tail k ↦ elim k [ ] ],
)
first_of-IsFirst r (x ∷ rows) none e rest = cc
first_of-IsFirst r rows (some b) e rest =
    let (inside, none_before) = rest b refl in
    elim (Bool-cases (precedes b r)) [
      | inl before ↦ rw before (
        Memᴰ.tail inside,
        λ c m. elim m [
          | Memᴰ.head same_row ↦ rw same_row (ground arith)
          | Memᴰ.tail k ↦ none_before c k
        ],
      )
      | inr not_before ↦ rw not_before (
        Memᴰ.head refl,
        λ c m. elim m [
          | Memᴰ.head same_row ↦ precedes_irrefl r c same_row
          | Memᴰ.tail k ↦ precedes_trans r b c not_before (none_before c k)
        ],
      )
    ]

first_in_order-IsFirst :
    (rows : List ConsentArtefact) (a : ConsentArtefact)
    → first_in_order rows ≡ some a
    → IsFirst rows a
unfolding first_in_order
first_in_order-IsFirst [] a h = cc
first_in_order-IsFirst (r ∷ rows) a h =
    subst (IsFirst (r ∷ rows)) (artefact-injective h)
      (first_of-IsFirst r rows (first_in_order rows) refl (first_in_order-IsFirst rows))

first_candidate :
    (k : LookupKey) (now : Time) (db : Database) {a : ConsentArtefact}
    → look_up k now db ≡ some a
    → Memᴰ a db.artefacts
      × (is_candidate k now a ≡ true)
      × ((b : ConsentArtefact)
          → Memᴰ b db.artefacts
          → is_candidate k now b ≡ true
          → precedes b a ≡ false)
unfolding look_up
first_candidate k now db {a} h =
    let (inside, first) = first_in_order-IsFirst (keep (is_candidate k now) db.artefacts) a h in
    let (stored, passes) = Memᴰ-keep (is_candidate k now) db.artefacts a inside in
    (stored, passes, λ b m t. first b (keep-Memᴰ (is_candidate k now) db.artefacts b m t))

first_in_order-none :
    (rows : List ConsentArtefact) (b : ConsentArtefact) → first_in_order rows ≡ none → ¬ Memᴰ b rows
unfolding first_in_order
first_in_order-none [] b h m = elim m [ ]
first_in_order-none (r ∷ rows) b h m = cc

-- `b` ends before `a`, or with it and then it is not newer.
abbrev pub IsBehind : ConsentArtefact → ConsentArtefact → Type 0
IsBehind a b =
    (b.valid_until < a.valid_until)
    ⊎ ((b.valid_until ≡ a.valid_until) × (b.created_at ≤ a.created_at))

precedes-IsBehind : (a b : ConsentArtefact) → precedes b a ≡ false → IsBehind a b
precedes-IsBehind a b h = ground arith

-- What a lookup answers: a stored consent that answers it, with every other one behind it, or None
-- where no stored consent does.
abbrev pub Answers : LookupKey → Time → List ConsentArtefact → Option ConsentArtefact → Type 0
Answers k now rows none = All (λ b. ¬ IsHeld k now b) rows
Answers k now rows (some a) =
    Memᴰ a rows × IsHeld k now a × All (λ b. (¬ IsHeld k now b) ⊎ IsBehind a b) rows

IsHeld-IsBehind :
    (k : LookupKey) (now : Time) (a b : ConsentArtefact)
    → (is_candidate k now b ≡ true → precedes b a ≡ false)
    → (¬ IsHeld k now b) ⊎ IsBehind a b
IsHeld-IsBehind k now a b first = elim (Bool-cases (is_candidate k now b)) [
  | inl passes ↦ inr (precedes-IsBehind a b (first passes))
  | inr fails ↦ inl (λ held. cc ((is_candidate-IsHeld k now b).1 held, fails))
]

answer-Answers :
    (k : LookupKey) (now : Time) (db : Database) (found : Option ConsentArtefact)
    → look_up k now db ≡ found
    → Answers k now db.artefacts found
unfolding look_up
answer-Answers k now db none e = All-of _ db.artefacts (λ b m held.
    first_in_order-none (keep (is_candidate k now) db.artefacts) b e
      (keep-Memᴰ (is_candidate k now) db.artefacts b m ((is_candidate-IsHeld k now b).1 held)))
answer-Answers k now db (some a) e =
    let (stored, passes, first) = first_candidate k now db {a = a} e in
    (
      stored,
      (is_candidate-IsHeld k now a).0 passes,
      All-of _ db.artefacts (λ b m. IsHeld-IsBehind k now a b (first b m)),
    )

-- A lookup finds a consent exactly if one is stored that is the partner's, of the subject (by its own
-- identifier or another of its identifiers), for the key's use case or, without a use case, for its
-- controller, from no foreign token, active and within its validity. The one that it finds is such a
-- consent, and every other ends before it, or with it and then is not newer.
pub look_up-Answers :
    (k : LookupKey) (now : Time) (db : Database) → Answers k now db.artefacts (look_up k now db)
look_up-Answers k now db = answer-Answers k now db (look_up k now db) refl
