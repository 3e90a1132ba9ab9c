-- ===== src/Duration.antt =====
-- utils/canonical.py: iso_duration_to_timedelta, over the code points of the text. `\d` is read as an
-- ASCII digit. timedelta's own limit of 999999999 days is not modelled.
use Prim.Native.Char.{code}
use consent_manager.Base.{
  ℕ, ◌+◌, ◌-◌, ◌*◌, String, Bool, ◌&&◌, ◌||◌, Option, none, some, List, [], ◌∷◌, leb, eqb,
  if◌then◌else◌,
}
use consent_manager.Models.Rows.{Duration}

abbrev pub codes : String → List ℕ
codes String.[] = []
codes (String.◌∷◌ c s) = code c ∷ codes s

-- What `str.strip()` strips.
abbrev pub is_space : ℕ → Bool
is_space c =
    (leb 9 c && leb c 13)
    || (leb 28 c && leb c 32)
    || eqb c 133
    || eqb c 160
    || eqb c 5760
    || (leb 8192 c && leb c 8202)
    || eqb c 8232
    || eqb c 8233
    || eqb c 8239
    || eqb c 8287
    || eqb c 12288

lstrip : List ℕ → List ℕ
lstrip [] = []
lstrip (c ∷ s) = if is_space c then lstrip s else c ∷ s

-- The trailing blanks go: a text of blanks alone is emptied.
rstrip : List ℕ → List ℕ
rstrip [] = []
rstrip (c ∷ s) = elim (rstrip s) [ [] ↦ if is_space c then [] else c ∷ [] | d ∷ r ↦ c ∷ d ∷ r ]

pub strip : List ℕ → List ℕ
unfolding lstrip rstrip
strip s = rstrip (lstrip s)

abbrev pub is_digit : ℕ → Bool
is_digit c = leb b'0' c && leb c b'9'

-- The digits at the head of a text, as a number after `acc`, and what follows them.
pub number : ℕ → List ℕ → ℕ × List ℕ
number acc [] = (acc, [])
number acc (c ∷ s) = if is_digit c then number (acc * 10 + (c - b'0')) s else (acc, c ∷ s)

-- `(?:(\d+)D)?` for a designator D
ends_with : ℕ → ℕ × List ℕ → List ℕ → Option ℕ × List ℕ
ends_with d (n, []) s = (none, s)
ends_with d (n, c ∷ rest) s = if eqb c d then (some n, rest) else (none, s)

pub component : ℕ → List ℕ → Option ℕ × List ℕ
unfolding ends_with
component d [] = (none, [])
component d (c ∷ s) = if is_digit c then ends_with d (number 0 (c ∷ s)) (c ∷ s) else (none, c ∷ s)

-- Consecutive optional groups, one for each designator.
pub components : List ℕ → List ℕ → List (Option ℕ) × List ℕ
components [] s = ([], s)
components (d ∷ ds) s =
    let (v, rest) = component d s in let (vs, rest') = components ds rest in (v ∷ vs, rest')

abbrev pub date_designators : List ℕ
date_designators = b'Y' ∷ b'M' ∷ b'W' ∷ b'D' ∷ []

abbrev pub time_designators : List ℕ
time_designators = b'H' ∷ b'M' ∷ b'S' ∷ []

abbrev pub second : Duration
second = 1000000

-- `timedelta(days=..., hours=..., minutes=..., seconds=...)` of the groups' values, in order
abbrev pub weigh : List ℕ → List (Option ℕ) → Duration
weigh (w ∷ ws) (some n ∷ vs) = n * w + weigh ws vs
weigh (w ∷ ws) (none ∷ vs) = weigh ws vs
weigh _ _ = 0

abbrev pub date_weights : List ℕ
date_weights = 365 * 86400 * second ∷ 30 * 86400 * second ∷ 7 * 86400 * second ∷ 86400 * second ∷ []

abbrev pub time_weights : List ℕ
time_weights = 3600 * second ∷ 60 * second ∷ second ∷ []

-- `$`: nothing may follow.
at_end : Duration → List ℕ → Option Duration
at_end total [] = some total
at_end total (c ∷ s) = none

-- After the date groups: the end, or `T` and the time groups.
time_part : Duration → List ℕ → Option Duration
unfolding at_end
time_part total [] = some total
time_part total (c ∷ s) =
    let (vs, rest) = components time_designators s in
    if eqb c b'T' then at_end (total + weigh time_weights vs) rest else none

pub match_duration : List ℕ → Option Duration
unfolding time_part
match_duration [] = none
match_duration (c ∷ s) =
    let (vs, rest) = components date_designators s in
    if eqb c b'P' then time_part (weigh date_weights vs) rest else none

-- `none` is the ValueError.
unfoldable pub iso_duration_to_timedelta : String → Option Duration
unfolding strip match_duration component components number
iso_duration_to_timedelta duration = match_duration (strip (codes duration))
