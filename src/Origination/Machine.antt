-- ===== src/Origination/Machine.antt =====
-- The state machine of consent requests under the calls of both services.
use mathlib.Core.Path.{subst}
use consent_manager.Base.{
  String, Option, some, List, [], ◌∷◌, ◌++◌, ◌≡◌, ◌≢◌, ◌⊎◌, refl, ap, inl, inr, ok, err,
  Result-cases, Bool-cases, eq-true, ◌==◌,
}
use consent_manager.Models.Status.{RequestStatus}
use consent_manager.Models.Rows.{Time, ConsentRequest}
use consent_manager.Models.Table
use consent_manager.Models.Database.{Database, get_request, save_request, request_key, add}
use consent_manager.Lifecycle.Errors.{Fallible}
use consent_manager.Lifecycle.Created.{create_request-IsRequested}
use consent_manager.Lifecycle.Authenticate.{with_context, authenticate_row}
use consent_manager.Lifecycle.Approve.{pending_request}
use consent_manager.Lifecycle.Approve as LifecycleApprove
use consent_manager.Lifecycle.Authenticate
use consent_manager.Lifecycle.Approved.{approve-IsWithin, pending_request-ok}
use consent_manager.Assisted.Created.{create_request-IsCreated}
use consent_manager.Assisted.Approved.{approve-IsVerified}
use consent_manager.Assisted.Moves.{
  MovedBy, MovedBy-open, handle-saves, read_back, is_pending-pending, is_waiting-waiting,
}
use consent_manager.Origination.Calls.{
  Services, Call, create, approve, create_assisted, move_assisted, approve_assisted, after,
  saved_row, saved_consent, perform, perform_all,
}

-- What a call makes of the request of id k: the subject's approval and denial end a pending request, a
-- submission, cancellation or rejection moves an assisted one, the staff's approval ends one that
-- waits for verification; a creation or an authentication changes no request.
abbrev pub Made : Time → Call → String → ConsentRequest → ConsentRequest → Type 0
Made now (create row body) k r r' = ⊥
Made now (Call.authenticate fresh created_at j token) k r r' = ⊥
Made now (approve fresh j approval) k r r' =
    (j ≡ k)
    × (r.status ≡ RequestStatus.pending)
    × (r' ≡ record r { status = RequestStatus.approved })
Made now (Call.deny j) k r r' =
    (j ≡ k) × (r.status ≡ RequestStatus.pending) × (r' ≡ record r { status = RequestStatus.denied })
Made now (create_assisted row audience username body) k r r' = ⊥
Made now (move_assisted call j) k r r' = (j ≡ k) × MovedBy now call r r'
Made now (approve_assisted fresh j verified_by remark) k r r' =
    (j ≡ k)
    × (r.status ≡ RequestStatus.pending_verification)
    × (r' ≡ record r {
      status = RequestStatus.approved;
      verified_by = some verified_by;
      verified_at = some now;
      verification_note = remark;
    })

-- The request after the call: as it was, or as the call makes it.
abbrev pub Next : Time → Call → String → ConsentRequest → Database → Type 0
Next now call k r db =
    (r' : ConsentRequest) × (get_request k db ≡ some r') × ((r' ≡ r) ⊎ Made now call k r r')

Made-open :
    (now : Time) (call : Call) (k : String) (r r' : ConsentRequest)
    → Made now call k r r'
    → (r.status ≡ RequestStatus.pending) ⊎ (r.status ≡ RequestStatus.pending_verification)
Made-open now (create row body) k r r' made = elim made [ ]
Made-open now (Call.authenticate fresh created_at j token) k r r' made = elim made [ ]
Made-open now (create_assisted row audience username body) k r r' made = elim made [ ]
Made-open now (approve fresh j approval) k r r' made = inl made.1
Made-open now (Call.deny j) k r r' made = inl made.1
Made-open now (move_assisted call j) k r r' made = MovedBy-open now call r r' made.1
Made-open now (approve_assisted fresh j verified_by remark) k r r' made = inr made.1

after-Next :
    (now : Time) (call : Call) (k : String) (r : ConsentRequest) {A : Type 0}
    (written : A → Database) (answer : Fallible A) (db : Database)
    → get_request k db ≡ some r
    → ((a : A) → answer ≡ ok a → Next now call k r (written a))
    → Next now call k r (after written answer db)
after-Next now call k r written (err e) db found next = (r, found, inl refl)
after-Next now call k r written (ok a) db found next = next a refl

request-injective :
    {a b : ConsentRequest} → ◌≡◌ {A = Option ConsentRequest} (some a) (some b) → a ≡ b
request-injective h = cc

-- A call that saves the request that it found under j.
saved-Next :
    (now : Time) (call : Call) (j k : String) (old new r : ConsentRequest) (db db' : Database)
    → get_request j db ≡ some old
    → new.id ≡ old.id
    → db'.requests ≡ (save_request new db).requests
    → (j ≡ k → Made now call k old new)
    → get_request k db ≡ some r
    → Next now call k r db'
saved-Next now call j k old new r db db' here same_id saved made found =
    let (read, others) = read_back j old new db (save_request new db) here same_id refl in
    elim (Bool-cases (j == k)) [
      | inl e ↦
          let named : j ≡ k = eq-true j k e in
          let own : old ≡ r = request-injective (cc (here, found, named)) in
          (new, cc (saved, read, named), inr (subst (λ x. Made now call k x new) own (made named)))
      | inr other ↦ (r, cc (saved, others k other, found), inl refl)
    ]

get-append :
    (k : String) (rows more : List ConsentRequest) {r : ConsentRequest}
    → Table.get request_key k rows ≡ some r
    → Table.get request_key k (rows ++ more) ≡ some r
unfolding Table.get
get-append k [] more h = cc
get-append k (row ∷ rows) more {r} h = elim (Bool-cases (request_key row == k)) [
  | inl here ↦ rw here (rw here at h)
  | inr other ↦ rw other (get-append k rows more {r = r} (rw other at h))
]

added-Next :
    (now : Time) (call : Call) (k : String) (r new : ConsentRequest) (db db' : Database)
    → db' ≡ record db { requests = add new db.requests }
    → get_request k db ≡ some r
    → Next now call k r db'
added-Next now call k r new db db' saved found =
    (r, cc (saved, get-append k db.requests (new ∷ []) {r = r} found), inl refl)

module _ (s : Services) (now : Time) (k : String) (db : Database) {r : ConsentRequest}
    (found : get_request k db ≡ some r) where
  -- Of a stored request, every call of either service makes what its kind of call may make of it, by its
  -- id and from the status that the move starts at, and each other column as it was; or it leaves the
  -- request as it is.
  pub perform-Next : (call : Call) → Next now call k r (perform s now call db)
  unfolding perform LifecycleApprove.deny Authenticate.authenticate
  perform-Next (create row body) =
      after-Next now (create row body) k r saved_row _ db found (λ (new, db') h.
        added-Next now (create row body) k r new db db'
          (create_request-IsRequested s.config s.out.systems now row body db {r = new} {db' = db'}
            h).1
          found)
  perform-Next (Call.authenticate fresh created_at j token) =
      elim (Result-cases
        (authenticate_row s.tokens now fresh created_at j token (get_request j db))) [
          | inr (e, failed) ↦ rw failed (r, found, inl refl)
          | inl (ctx, made) ↦ rw made (r, found, inl refl)
        ]
  perform-Next (approve fresh j approval) =
      after-Next now (approve fresh j approval) k r saved_row _ db found (λ (a, db') h.
        let (req, ctx, here, pending, latest, own, within, saved) =
          approve-IsWithin s.out.systems s.signer fresh now j approval db {a = a} {db' = db'} h in
        saved-Next now (approve fresh j approval) j k req
          (record req { status = RequestStatus.approved }) r db db' here refl
          (ap (λ (x : Database). x.requests) saved)
          (λ named. (named, is_pending-pending req.status pending, refl)) found)
  perform-Next (Call.deny j) = elim (Result-cases (pending_request (get_request j db))) [
    | inr (e, failed) ↦ rw failed (r, found, inl refl)
    | inl (req, waiting) ↦
        let (here, pending) = pending_request-ok (get_request j db) {req = req} waiting in
        let denied = record req { status = RequestStatus.denied } in
        rw waiting (
          saved-Next now (Call.deny j) j k req denied r db (save_request denied db) here refl refl
            (λ named. (named, is_pending-pending req.status pending, refl)) found)
  ]
  perform-Next (create_assisted row audience username body) =
      after-Next now (create_assisted row audience username body) k r saved_row _ db found
        (λ (new, db') h.
          let (complete, made, saved) =
            create_request-IsCreated s.config s.out now row audience username body db {r = new}
              {db' = db'} h in
          added-Next now (create_assisted row audience username body) k r new db db' saved found)
  perform-Next (move_assisted call j) =
      after-Next now (move_assisted call j) k r saved_row _ db found (λ (new, db') h.
        let (old, here, move, same_id, saved) =
          handle-saves s.config now call j db {r' = new} {db' = db'} h in
        saved-Next now (move_assisted call j) j k old new r db db' here same_id
          (ap (λ (x : Database). x.requests) saved) (λ named. (named, move)) found)
  perform-Next (approve_assisted fresh j verified_by remark) =
      after-Next now (approve_assisted fresh j verified_by remark) k r saved_consent _ db found
        (λ (new, a, db') h.
          let (req, here, seen, verified, own, changed, saved) =
            approve-IsVerified s.config s.out.systems s.signer fresh now j verified_by remark db
              {r = new} {a = a} {db' = db'} h in
          saved-Next now (approve_assisted fresh j verified_by remark) j k req new r db db' here
            (ap (λ (x : ConsentRequest). x.id) changed) (ap (λ (x : Database). x.requests) saved)
            (λ named. (named, is_waiting-waiting req.status verified.0, changed)) found)

-- A request that is neither pending nor waiting for verification (approved, denied, expired, rejected
-- or cancelled) stays exactly as it is under any calls of both services.
pub perform_all-ended_requests :
    (s : Services) (calls : List (Time × Call)) (k : String) (db : Database) {r : ConsentRequest}
    → get_request k db ≡ some r
    → r.status ≢ RequestStatus.pending
    → r.status ≢ RequestStatus.pending_verification
    → get_request k (perform_all s calls db) ≡ some r
unfolding perform_all
perform_all-ended_requests s [] k db found settled verified = found
perform_all-ended_requests s ((now, call) ∷ calls) k db {r} found settled verified =
    let (r', next, moved) = perform-Next s now k db found call in
    elim moved [
      | inl same_row ↦
          perform_all-ended_requests s calls k (perform s now call db) (cc (next, same_row)) settled
            verified
      | inr made ↦ elim (Made-open now call k r r' made) [
        | inl pending ↦ absurd (settled pending)
        | inr waiting ↦ absurd (verified waiting)
      ]
    ]
