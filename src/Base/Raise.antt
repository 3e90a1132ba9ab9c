-- ===== src/Base/Raise.antt =====
-- A call that returns a value or raises: Python's exceptions as values, and `raise` under an `if`.
use mathlib.Core.Path.{◌≡◌, refl}
use mathlib.Core.Logic.{◌⊎◌, inl, inr}
use mathlib.Core.Bool.{Bool, true, false}

-- `E` is what the caller learns of an exception.
pub data Result {ℓ κ} (E : Type ℓ) (A : Type κ) : Type (ℓ ⊔ κ) where
  err : E → Result E A
  ok : A → Result E A

infixl 5 ◌>>=◌ ◌>>◌
-- An exception ends the block.
abbrev pub ◌>>=◌ {ℓ κ μ} :
    {E : Type ℓ} {A : Type κ} {B : Type μ} (call : Result E A) (rest : A → Result E B) → Result E B
err raised >>= rest = err raised
ok returned >>= rest = rest returned

-- `if test: raise e`
abbrev pub raise_if {ℓ} : {E : Type ℓ} → Bool → E → Result E (Unit {0})
raise_if false e = ok tt
raise_if true e = err e

abbrev pub ◌>>◌ {ℓ κ} :
    {E : Type ℓ} {B : Type κ} (statement : Result E (Unit {0})) (rest : Result E B) → Result E B
statement >> rest = statement >>= λ done. rest

-- To split on the outcome of a call and keep the equation.
pub Result-cases {ℓ κ} :
    {E : Type ℓ} {A : Type κ} (call : Result E A)
    → ((a : A) × (call ≡ ok a)) ⊎ ((e : E) × (call ≡ err e))
Result-cases (ok a) = inl (a, refl)
Result-cases (err e) = inr (e, refl)

pub ok-injective {ℓ κ} :
    {E : Type ℓ} {A : Type κ} {a b : A} → ◌≡◌ {A = Result E A} (ok a) (ok b) → a ≡ b
ok-injective h = cc

-- A block that returned has passed its first statement.
pub raise_if-ok {ℓ κ} :
    {E : Type ℓ} {B : Type κ} (test : Bool) (raised : E) (rest : Result E B) {b : B}
    → raise_if test raised >> rest ≡ ok b
    → (test ≡ false) × (rest ≡ ok b)
raise_if-ok false raised rest h = (refl, h)
raise_if-ok true raised rest h = cc

-- A call that a block goes on from has returned.
pub bind-ok {ℓ κ μ} :
    {E : Type ℓ} {A : Type κ} {B : Type μ} (call : Result E A) (rest : A → Result E B) {b : B}
    → call >>= rest ≡ ok b
    → (a : A) × (call ≡ ok a) × (rest a ≡ ok b)
bind-ok (err e) rest h = cc
bind-ok (ok a) rest h = (a, refl, h)
