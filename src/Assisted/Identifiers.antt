-- ===== src/Assisted/Identifiers.antt =====
-- The subject's identifiers of an assisted request, with blanks stripped.
use Prim.Native.Char.{code}
use consent_manager.Base.{
  String, Bool, true, false, not, Option, none, some, List, [], ◌∷◌, ◌==◌, has_text, if◌then◌else◌,
}
use consent_manager.Duration.{is_space}
use consent_manager.Models.Rows.{SubjectId}
use consent_manager.Scopes.{keep}

lstrip_text : String → String
lstrip_text String.[] = ""
lstrip_text (String.◌∷◌ c s) =
    let rest = lstrip_text s in if is_space (code c) then rest else String.◌∷◌ c s

rstrip_text : String → String
rstrip_text String.[] = ""
rstrip_text (String.◌∷◌ c s) =
    let rest = rstrip_text s in
    if has_text rest then String.◌∷◌ c rest else if is_space (code c) then "" else String.◌∷◌ c ""

-- `text.strip()`
unfoldable pub strip_text : String → String
unfolding lstrip_text rstrip_text
strip_text s = rstrip_text (lstrip_text s)

unfoldable pub put_identifier : SubjectId → List SubjectId → List SubjectId
put_identifier i [] = i ∷ []
put_identifier i (j ∷ js) = if j.type == i.type then i ∷ js else j ∷ put_identifier i js

-- `{i.type.strip(): i.value.strip() for i in identifiers}`
unfoldable pub given_identifiers : List SubjectId → List SubjectId → List SubjectId
unfolding put_identifier
given_identifiers [] given = given
given_identifiers (i ∷ is) given =
    given_identifiers is
      (put_identifier (record { type = strip_text i.type; value = strip_text i.value }) given)

-- `t in given`
unfoldable pub has_type : String → List SubjectId → Bool
has_type t [] = false
has_type t (i ∷ is) = if i.type == t then true else has_type t is

-- `[t for t in required if t not in given]`
abbrev pub missing_types : List String → List SubjectId → List String
missing_types required given = keep (λ t. not (has_type t given)) required

-- `[...] or None`
abbrev pub identifiers_or_none : List SubjectId → Option (List SubjectId)
identifiers_or_none [] = none
identifiers_or_none (i ∷ is) = some (i ∷ is)
