-- ===== src/Composite/Reference.antt =====
-- USE_CASE_REF of composite_client.py, `^[A-Za-z0-9][A-Za-z0-9._-]*@[0-9]+$`, over code points. A `$`
-- also stands before a line end that is the last character.
use consent_manager.Base.{
  ℕ, Bool, true, false, not, ◌&&◌, ◌||◌, List, [], ◌∷◌, leb, eqb, if◌then◌else◌,
}
use consent_manager.Duration.{is_digit}
use consent_manager.Scopes.{nonempty}

abbrev is_letter : ℕ → Bool
is_letter c = (leb b'A' c && leb c b'Z') || (leb b'a' c && leb c b'z')

-- `[0-9]+$`: digits, at least one unless `some_read`, then the end or one line end.
digits_end : Bool → List ℕ → Bool
digits_end some_read [] = some_read
digits_end some_read (c ∷ s) =
    let rest = digits_end true s in
    if is_digit c then rest else some_read && eqb c 10 && not (nonempty s)

-- `[A-Za-z0-9._-]*@[0-9]+$`: `@` is not in the class, so the first one ends the name.
name_end : List ℕ → Bool
unfolding digits_end
name_end [] = false
name_end (c ∷ s) =
    let rest = name_end s in
    if eqb c b'@'
    then digits_end false s
    else (is_letter c || is_digit c || eqb c b'.' || eqb c b'_' || eqb c b'-') && rest

-- USE_CASE_REF.match
unfoldable pub is_use_case_ref : List ℕ → Bool
unfolding name_end
is_use_case_ref [] = false
is_use_case_ref (c ∷ s) = (is_letter c || is_digit c) && name_end s
