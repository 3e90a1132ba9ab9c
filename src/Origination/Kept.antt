-- ===== src/Origination/Kept.antt =====
-- The invariant that the calls keep: at most one consent of a request.
use mathlib.Core.Path.{subst}
use consent_manager.Base.{
  String, true, Option, none, some, List, [], ◌∷◌, ◌≡◌, refl, sym, inl, inr, arith, ok, err,
  Result-cases, ap,
}
use consent_manager.Models.Status.{RequestStatus, is_pending}
use consent_manager.Models.Rows.{Time, ConsentRequest}
use consent_manager.Models.Database.{Database, get_request}
use consent_manager.Receipts.{build_receipt}
use consent_manager.Verification.Decide.{Fresh}
use consent_manager.Lifecycle.Errors.{Fallible}
use consent_manager.Lifecycle.Create.{NewRow, ConsentRequestCreate}
use consent_manager.Lifecycle.Created.{create_request-IsRequested}
use consent_manager.Lifecycle.Authenticate.{TokenLibrary, with_context, authenticate_row}
use consent_manager.Lifecycle.Approve.{ApproveRequest, pending_request, approved_request}
use consent_manager.Lifecycle.Approve as LifecycleApprove
use consent_manager.Lifecycle.Authenticate
use consent_manager.Lifecycle.Approved.{approve-IsWithin, pending_request-ok}
use consent_manager.Assisted.Create.{AssistedRequestCreate}
use consent_manager.Assisted.Created.{create_request-IsCreated}
use consent_manager.Assisted.Approved.{approve-IsVerified}
use consent_manager.Assisted.Moves.{handle, handle-saves, MovedBy-open}
use consent_manager.Assisted.Moves
use consent_manager.Origination.Once.{
  IsOnce, is_open, save_open-IsOnce, add_request-IsOnce, commit_consent-IsOnce,
}
use consent_manager.Origination.Calls.{
  Services, Call, create, approve, create_assisted, move_assisted, approve_assisted, after,
  saved_row, saved_consent, perform, perform_all,
}

pending-open : (req : ConsentRequest) → is_pending req.status ≡ true → is_open req ≡ true
pending-open req h = ground arith

-- If what a call stores when it succeeds keeps the invariant, the call does.
after-IsOnce :
    {A : Type 0} (written : A → Database) (call : Fallible A) (db : Database)
    → IsOnce db
    → ((a : A) → call ≡ ok a → IsOnce (written a))
    → IsOnce (after written call db)
after-IsOnce written (err e) db once kept = once
after-IsOnce written (ok a) db once kept = kept a refl

create-IsOnce :
    (s : Services) (now : Time) (row : NewRow) (body : ConsentRequestCreate) (db : Database)
    → IsOnce db
    → IsOnce (perform s now (create row body) db)
unfolding perform
create-IsOnce s now row body db once = after-IsOnce saved_row _ db once (λ (r, db') h.
    let (made, saved) =
      create_request-IsRequested s.config s.out.systems now row body db {r = r} {db' = db'} h in
    subst IsOnce (sym saved) (add_request-IsOnce db r once))

create_assisted-IsOnce :
    (s : Services) (now : Time) (row : NewRow) (audience username : String)
    (body : AssistedRequestCreate) (db : Database)
    → IsOnce db
    → IsOnce (perform s now (create_assisted row audience username body) db)
unfolding perform
create_assisted-IsOnce s now row audience username body db once =
    after-IsOnce saved_row _ db once (λ (r, db') h.
      let (complete, made, saved) =
        create_request-IsCreated s.config s.out now row audience username body db {r = r}
          {db' = db'} h in
      subst IsOnce (sym saved) (add_request-IsOnce db r once))

authenticate-IsOnce :
    (s : Services) (now : Time) (fresh : String) (created_at : Time) (k token : String)
    (db : Database)
    → IsOnce db
    → IsOnce (perform s now (Call.authenticate fresh created_at k token) db)
unfolding perform Authenticate.authenticate
authenticate-IsOnce s now fresh created_at k token db once =
    let found = get_request k db in
    elim (Result-cases (authenticate_row s.tokens now fresh created_at k token found)) [
      | inr (e, failed) ↦ rw failed once
      | inl (ctx, made) ↦ rw made once
    ]

approve-IsOnce :
    (s : Services) (now : Time) (fresh : Fresh) (k : String) (approval : ApproveRequest)
    (db : Database)
    → IsOnce db
    → IsOnce (perform s now (approve fresh k approval) db)
unfolding perform
approve-IsOnce s now fresh k approval db once = after-IsOnce saved_row _ db once (λ (a, db') h.
    let (req, ctx, found, pending, latest, own, within, saved) =
      approve-IsWithin s.out.systems s.signer fresh now k approval db {a = a} {db' = db'} h in
    subst IsOnce (sym saved) (
      commit_consent-IsOnce db k req (approved_request req) a
        (build_receipt s.signer fresh.receipt_id none a) found (pending-open req pending) refl refl
        own.0 once))

deny-IsOnce :
    (s : Services) (now : Time) (k : String) (db : Database)
    → IsOnce db
    → IsOnce (perform s now (Call.deny k) db)
unfolding perform LifecycleApprove.deny
deny-IsOnce s now k db once = elim (Result-cases (pending_request (get_request k db))) [
  | inr (e, failed) ↦ rw failed once
  | inl (req, waiting) ↦
      let (found, pending) = pending_request-ok (get_request k db) {req = req} waiting in
      rw waiting (
        save_open-IsOnce db k req (record req { status = RequestStatus.denied }) found
          (pending-open req pending) refl once)
]

move_assisted-IsOnce :
    (s : Services) (now : Time) (call : Moves.Call) (k : String) (db : Database)
    → IsOnce db
    → IsOnce (perform s now (move_assisted call k) db)
unfolding perform
move_assisted-IsOnce s now call k db once = after-IsOnce saved_row _ db once (λ (r', db') h.
    let (r, found, move, same_id, saved) =
      handle-saves s.config now call k db {r' = r'} {db' = db'} h in
    let opened : is_open r ≡ true = elim (MovedBy-open now call r r' move) [
      | inl pending ↦ rw pending refl
      | inr waiting ↦ rw waiting refl
    ] in
    subst IsOnce (sym saved) (save_open-IsOnce db k r r' found opened same_id once))

approve_assisted-IsOnce :
    (s : Services) (now : Time) (fresh : Fresh) (k verified_by : String) (remark : Option String)
    (db : Database)
    → IsOnce db
    → IsOnce (perform s now (approve_assisted fresh k verified_by remark) db)
unfolding perform
approve_assisted-IsOnce s now fresh k verified_by remark db once =
    after-IsOnce saved_consent _ db once (λ (r, a, db') h.
      let (req, found, seen, verified, own, changed, saved) =
        approve-IsVerified s.config s.out.systems s.signer fresh now k verified_by remark db {r = r}
          {a = a} {db' = db'} h in
      let opened : is_open req ≡ true = ground (arith, verified.0) in
      subst IsOnce (sym saved) (
        commit_consent-IsOnce db k req r a (build_receipt s.signer fresh.receipt_id (some now) a)
          found opened (ap (λ (x : ConsentRequest). x.id) changed) (ap is_open changed) own.0 once))

-- No call makes a second consent of a request: each artefact that names its request names one that is
-- stored and closed (neither pending nor waiting for verification), and no two name the same; a call
-- of either service keeps this.
pub perform-IsOnce :
    (s : Services) (now : Time) (call : Call) (db : Database)
    → IsOnce db
    → IsOnce (perform s now call db)
perform-IsOnce s now (create row body) db once = create-IsOnce s now row body db once
perform-IsOnce s now (Call.authenticate fresh created_at k token) db once =
    authenticate-IsOnce s now fresh created_at k token db once
perform-IsOnce s now (approve fresh k approval) db once =
    approve-IsOnce s now fresh k approval db once
perform-IsOnce s now (Call.deny k) db once = deny-IsOnce s now k db once
perform-IsOnce s now (create_assisted row audience username body) db once =
    create_assisted-IsOnce s now row audience username body db once
perform-IsOnce s now (move_assisted call k) db once = move_assisted-IsOnce s now call k db once
perform-IsOnce s now (approve_assisted fresh k verified_by remark) db once =
    approve_assisted-IsOnce s now fresh k verified_by remark db once

-- Whatever calls are made one after the other, no request ever has two consents.
pub perform_all-IsOnce :
    (s : Services) (calls : List (Time × Call)) (db : Database)
    → IsOnce db
    → IsOnce (perform_all s calls db)
unfolding perform_all
perform_all-IsOnce s [] db once = once
perform_all-IsOnce s ((now, call) ∷ calls) db once =
    perform_all-IsOnce s calls (perform s now call db) (perform-IsOnce s now call db once)
