-- ===== src/Assisted/Moves.antt =====
-- How the calls of an assisted request move it.
use consent_manager.Base.{
  ◌<◌, String, true, false, not, ◌&&◌, Option, none, some, ◌≡◌, ◌⊎◌, inl, inr, refl, arith, ◌==◌,
  Result, ok, err, Bool-cases,
}
use consent_manager.Models.Status.{RequestStatus, is_pending, is_pending_verification}
use consent_manager.Models.Rows.{Time, ConsentRequest}
use consent_manager.Models.Database.{Database, get_request, save_request, request_key}
use consent_manager.Models.Table
use consent_manager.Config.{Settings}
use consent_manager.Lifecycle.Errors.{LifecycleError}
use consent_manager.Assisted.Requests.{
  visible, on_visible, commit, forms, authenticated, is_given, submitted, submit_checked, submit,
  cancel_checked, cancel, reject_checked, reject,
}

-- A committed change was made to a visible request.
pub on_visible-ok :
    (audience : Option String) (change : ConsentRequest → Result LifecycleError ConsentRequest)
    (found : Option ConsentRequest) {r' : ConsentRequest}
    → on_visible audience change found ≡ ok r'
    → (r : ConsentRequest) × (found ≡ some r) × (visible audience r ≡ true) × (change r ≡ ok r')
unfolding on_visible
on_visible-ok audience change none h = cc
on_visible-ok audience change (some r) h = elim (Bool-cases (visible audience r)) [
  | inl seen ↦ (r, refl, seen, rw seen at h)
  | inr hidden ↦ absurd (cc (rw hidden at h))
]

pub commit-ok :
    (result : Result LifecycleError ConsentRequest) (db : Database) {r' : ConsentRequest}
    {db' : Database}
    → commit result db ≡ ok (r', db')
    → (result ≡ ok r') × (db' ≡ save_request r' db)
unfolding commit
commit-ok (err e) db h = cc
commit-ok (ok r) db h = (cc, cc)

pub submit_checked-ok :
    (config : Settings) (now : Time) (k : String) (db : Database) (r : ConsentRequest)
    {r' : ConsentRequest}
    → submit_checked config now k db r ≡ ok r'
    → (is_pending r.status ≡ true)
      × (0 < forms k db)
      × ((config.subject_auth_enabled && not (is_given (authenticated k db))) ≡ false)
      × (r' ≡ submitted now r)
unfolding submit_checked
submit_checked-ok config now k db r {r'} h =
    (ground arith, ground arith, ground arith, ground arith)

-- A call on a request.
pub data Call : Type 0 where
  submission : String → Call
  cancellation : String → Call
  rejection : String → String → Call

abbrev pub handle :
    Settings → Time → Call → String → Database → Result LifecycleError (ConsentRequest × Database)
handle config now (submission audience) k db = submit config now k audience db
handle config now (cancellation audience) k db = cancel k audience db
handle config now (rejection verified_by note) k db = reject now k verified_by note db

-- How a call moves the request that it accepts: a pending request is submitted, an open one is
-- cancelled, a submitted one is rejected.
abbrev pub MovedBy : Time → Call → ConsentRequest → ConsentRequest → Type 0
MovedBy now (submission audience) r r' =
    (r.status ≡ RequestStatus.pending)
    × (r' ≡ record r { status = RequestStatus.pending_verification; submitted_at = some now })
MovedBy now (cancellation audience) r r' =
    ((r.status ≡ RequestStatus.pending) ⊎ (r.status ≡ RequestStatus.pending_verification))
    × (r' ≡ record r { status = RequestStatus.cancelled })
MovedBy now (rejection verified_by note) r r' =
    (r.status ≡ RequestStatus.pending_verification)
    × (r' ≡ record r {
      status = RequestStatus.rejected;
      verified_by = some verified_by;
      verified_at = some now;
      verification_note = some note;
    })

pub read_back :
    (k : String) (r r' : ConsentRequest) (db db' : Database)
    → get_request k db ≡ some r
    → r'.id ≡ r.id
    → db' ≡ save_request r' db
    → (get_request k db' ≡ some r')
      × ((j : String) → (k == j) ≡ false → get_request j db' ≡ get_request j db)
read_back k r r' db db' found same_id saved =
    let key = Table.key-get request_key k db.requests found in
    (
      cc (saved, Table.get-save_found request_key k r r' db.requests found same_id),
      λ j other.
          let apart : (r'.id == j) ≡ false = cc (other, key, same_id) in
          cc (saved, Table.get-save_ne request_key r' j db.requests apart),
    )

-- What each call changes in a request that it accepts.
change :
    Settings
    → Time
    → Call
    → String
    → Database
    → ConsentRequest
    → Result LifecycleError ConsentRequest
change config now (submission audience) k db r = submit_checked config now k db r
change config now (cancellation audience) k db r = cancel_checked r
change config now (rejection verified_by note) k db r = reject_checked now verified_by note r

abbrev audience_of : Call → Option String
audience_of (submission audience) = some audience
audience_of (cancellation audience) = some audience
audience_of (rejection verified_by note) = none

handle-change :
    (config : Settings) (now : Time) (call : Call) (k : String) (db : Database)
    → handle config now call k db
      ≡ commit (on_visible (audience_of call) (change config now call k db) (get_request k db)) db
unfolding change submit cancel reject
handle-change config now (submission audience) k db = refl
handle-change config now (cancellation audience) k db = refl
handle-change config now (rejection verified_by note) k db = refl

pub is_pending-pending : (s : RequestStatus) → is_pending s ≡ true → s ≡ RequestStatus.pending
is_pending-pending s h = ground arith

pub is_waiting-waiting :
    (s : RequestStatus) → is_pending_verification s ≡ true → s ≡ RequestStatus.pending_verification
is_waiting-waiting s h = ground arith

change-MovedBy :
    (config : Settings) (now : Time) (call : Call) (k : String) (db : Database) (r : ConsentRequest)
    {r' : ConsentRequest}
    → change config now call k db r ≡ ok r'
    → MovedBy now call r r' × (r'.id ≡ r.id)
unfolding change cancel_checked reject_checked
change-MovedBy config now (submission audience) k db r {r'} h =
    let (pending, form, present, moved) = submit_checked-ok config now k db r {r' = r'} h in
    ((is_pending-pending r.status pending, moved), cc moved)
change-MovedBy config now (cancellation audience) k db r h =
    let opened : (r.status ≡ RequestStatus.pending)
        ⊎ (r.status ≡ RequestStatus.pending_verification) =
      elim (Bool-cases (is_pending r.status)) [
        | inl pending ↦ inl (is_pending-pending r.status pending)
        | inr other ↦ inr (is_waiting-waiting r.status (ground arith))
      ] in
    ((opened, ground arith), ground arith)
change-MovedBy config now (rejection verified_by note) k db r h =
    ((is_waiting-waiting r.status (ground arith), ground arith), ground arith)

-- What a call that succeeds saves.
pub handle-saves :
    (config : Settings) (now : Time) (call : Call) (k : String) (db : Database)
    {r' : ConsentRequest} {db' : Database}
    → handle config now call k db ≡ ok (r', db')
    → (r : ConsentRequest) × (get_request k db ≡ some r)
      × MovedBy now call r r'
      × (r'.id ≡ r.id)
      × (db' ≡ save_request r' db)
handle-saves config now call k db {r'} {db'} h =
    let found = get_request k db in
    let (changed, saved) =
      commit-ok (on_visible (audience_of call) (change config now call k db) found) db
        (cc (h, handle-change config now call k db)) in
    let (r, e, seen, moves) =
      on_visible-ok (audience_of call) (change config now call k db) found changed in
    let (move, same_id) = change-MovedBy config now call k db r moves in
    (r, e, move, same_id, saved)

pub MovedBy-open :
    (now : Time) (call : Call) (r r' : ConsentRequest)
    → MovedBy now call r r'
    → (r.status ≡ RequestStatus.pending) ⊎ (r.status ≡ RequestStatus.pending_verification)
MovedBy-open now (submission audience) r r' move = inl move.0
MovedBy-open now (cancellation audience) r r' move = move.0
MovedBy-open now (rejection verified_by note) r r' move = inr move.0
