-- ===== src/SubjectAuth/Once.antt =====
-- A login link is used at most once, however the transactions of several callbacks interleave.
use consent_manager.Base.{
  ◌≤◌, String, false, Option, none, some, List, [], ◌∷◌, ◌==◌, ◌≡◌, refl, inl, inr, arith,
  Bool-cases,
}
use consent_manager.Models.Rows.{Time, SubjectAuthSession}
use consent_manager.Models.Table
use consent_manager.Models.Database.{Database, add}
use consent_manager.SubjectAuth.Sessions.{
  session_key, is_claimable, claim_rows, claimed_id, claim, Ending, succeeded, failed, finished,
  finish_row, finish,
}

-- The state can be claimed no more, from a time on.
abbrev pub IsUsed : String → Time → List SubjectAuthSession → Type 0
IsUsed state now rows =
    Table.All (λ (s : SubjectAuthSession). (t : Time) → now ≤ t → is_claimable state t s ≡ false)
      rows

-- A claim uses up its state, whether or not it finds a session.
claim_rows-IsUsed :
    (state : String) (now : Time) (rows : List SubjectAuthSession)
    → IsUsed state now (claim_rows state now rows)
unfolding claim_rows
claim_rows-IsUsed state now [] = tt
claim_rows-IsUsed state now (s ∷ ss) = elim (Bool-cases (is_claimable state now s)) [
  | inl open_now ↦ rw open_now ((λ t later. ground arith), claim_rows-IsUsed state now ss)
  | inr closed ↦ rw closed ((λ t later. ground arith), claim_rows-IsUsed state now ss)
]

-- Another claim opens nothing.
claim_rows-keeps :
    (state other : String) (now at_time : Time) (rows : List SubjectAuthSession)
    → IsUsed state now rows
    → IsUsed state now (claim_rows other at_time rows)
unfolding claim_rows
claim_rows-keeps state other now at_time [] used = tt
claim_rows-keeps state other now at_time (s ∷ ss) used =
    let rest = claim_rows-keeps state other now at_time ss used.1 in
    elim (Bool-cases (is_claimable other at_time s)) [
      | inl open_now ↦ rw open_now ((λ t later. ground arith), rest)
      | inr closed ↦ rw closed (used.0, rest)
    ]

finished_closed :
    (state : String) (now : Time) (ending : Ending) (row : SubjectAuthSession) (t : Time)
    → is_claimable state t (finished now ending row) ≡ false
finished_closed state now (succeeded context) row t = ground arith
finished_closed state now (failed message) row t = ground arith

finish_row-keeps :
    (state : String) (now at_time : Time) (ending : Ending) (found : Option SubjectAuthSession)
    (db : Database)
    → IsUsed state now db.auth_sessions
    → IsUsed state now (finish_row at_time ending found db).1.auth_sessions
unfolding finish_row
finish_row-keeps state now at_time ending none db used = used
finish_row-keeps state now at_time ending (some row) db used =
    Table.All-save
      (λ (s : SubjectAuthSession). (t : Time) → now ≤ t → is_claimable state t s ≡ false)
      session_key (finished at_time ending row) db.auth_sessions
      (λ t later. finished_closed state at_time ending row t) used

-- A transaction on the sessions: a login is started, a state claimed, a session finished.
pub data Step : Type 0 where
  starts : SubjectAuthSession → Step
  claims : String → Time → Step
  finishes : String → Time → Ending → Step

unfoldable pub step : Step → Database → Database
step (starts s) db = record db { auth_sessions = add s db.auth_sessions }
step (claims state now) db = (claim state now db).1
step (finishes session_id now ending) db = (finish session_id now ending db).1

unfoldable pub steps : List Step → Database → Database
steps [] db = db
steps (s ∷ rest) db = steps rest (step s db)

-- No login that is started draws the state again.
abbrev pub IsFresh : String → List Step → Type 0
IsFresh state [] = Unit
IsFresh state (starts s ∷ rest) = ((s.state == state) ≡ false) × IsFresh state rest
IsFresh state (claims other now ∷ rest) = IsFresh state rest
IsFresh state (finishes session_id now ending ∷ rest) = IsFresh state rest

steps-IsUsed :
    (state : String) (now : Time) (rest : List Step) (db : Database)
    → IsFresh state rest
    → IsUsed state now db.auth_sessions
    → IsUsed state now (steps rest db).auth_sessions
unfolding steps step claim finish
steps-IsUsed state now [] db fresh used = used
steps-IsUsed state now (starts s ∷ rest) db fresh used =
    steps-IsUsed state now rest (record db { auth_sessions = add s db.auth_sessions }) fresh.1
      (Table.All-append
        (λ (r : SubjectAuthSession). (t : Time) → now ≤ t → is_claimable state t r ≡ false)
        db.auth_sessions (s ∷ []) used ((λ t later. ground (arith, fresh.0)), tt))
steps-IsUsed state now (claims other at_time ∷ rest) db fresh used =
    steps-IsUsed state now rest (claim other at_time db).1 fresh
      (claim_rows-keeps state other now at_time db.auth_sessions used)
steps-IsUsed state now (finishes session_id at_time ending ∷ rest) db fresh used =
    steps-IsUsed state now rest (finish session_id at_time ending db).1 fresh (
      finish_row-keeps state now at_time ending (Table.get session_key session_id db.auth_sessions)
        db used)

IsUsed-claimed_id :
    (state : String) (now later : Time) (rows : List SubjectAuthSession)
    → now ≤ later
    → IsUsed state now rows
    → claimed_id state later rows ≡ none
unfolding claimed_id
IsUsed-claimed_id state now later [] after used = refl
IsUsed-claimed_id state now later (s ∷ ss) after used =
    rw (used.0 later after) (IsUsed-claimed_id state now later ss after used.1)

-- After a claim of a state, whatever logins are started with other states, claimed and finished in
-- whatever order, a later claim of the same state finds nothing.
pub claim_once :
    (state : String) (now later : Time) (rest : List Step) (db : Database)
    → IsFresh state rest
    → now ≤ later
    → (claim state later (steps rest (claim state now db).1)).0 ≡ none
unfolding claim
claim_once state now later rest db fresh after =
    IsUsed-claimed_id state now later (steps rest (claim state now db).1).auth_sessions after (
      steps-IsUsed state now rest (claim state now db).1 fresh
        (claim_rows-IsUsed state now db.auth_sessions))
