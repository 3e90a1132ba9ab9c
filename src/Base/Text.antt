-- ===== src/Base/Text.antt =====
-- Texts as Python compares them: `==`, truthiness, and values that may be None.
use Prim.Native.String.{String, ◌++◌ as append}
use mathlib.Core.List.{List, [], ◌∷◌}
use text.Mathlib.Text.{◌==◌}
use text.Mathlib.TextEquality.{eq_iff}
use text.Mathlib.TextPositions.{eq_refl}
use mathlib.Core.Path.{◌≡◌, refl, ap}
use mathlib.Core.Bool.{Bool, true, false, not}
use mathlib.Core.Option.{Option, none, some}
use native.Mathlib.Omega.{arith}

pub eq_sym : (a b : String) → (a == b) ≡ (b == a)
eq_sym a b = ground (arith, eq_iff a b, eq_iff b a)

pub eq-true : (a b : String) → (a == b) ≡ true → a ≡ b
eq-true a b = (eq_iff a b).0

-- `bool(text)`
abbrev pub has_text : String → Bool
has_text s = not (s == "")

-- `bool(value)` of a text that may be None
abbrev pub truthy : Option String → Bool
truthy none = false
truthy (some s) = has_text s

-- `value or ""`
abbrev pub or_empty : Option String → String
or_empty none = ""
or_empty (some s) = s

-- `==` where both sides may be None
abbrev pub same : Option String → Option String → Bool
same none none = true
same (some a) (some b) = a == b
same _ _ = false

pub given_text : (t : Option String) → truthy t ≡ true → t ≡ some (or_empty t)
given_text none h = cc
given_text (some t) h = refl

pub same-true : (a b : Option String) → same a b ≡ true → a ≡ b
same-true none none h = refl
same-true none (some b) h = cc
same-true (some a) none h = cc
same-true (some a) (some b) h = ap some (eq-true a b h)

pub same_refl : (a : Option String) → same a a ≡ true
same_refl none = refl
same_refl (some a) = eq_refl a

-- An f-string: its literal and interpolated parts, in order.
pub text_of : List String → String
text_of [] = ""
text_of (part ∷ parts) = append part (text_of parts)
