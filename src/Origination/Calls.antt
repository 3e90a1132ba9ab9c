-- ===== src/Origination/Calls.antt =====
-- The calls on consent requests that change the database, of both services.
use consent_manager.Base.{String, Option, List, [], ◌∷◌, ok, err}
use consent_manager.Models.Rows.{Time, ConsentRequest, ConsentArtefact}
use consent_manager.Models.Database.{Database}
use consent_manager.Config.{Settings}
use consent_manager.Receipts.{Signer}
use consent_manager.Verification.Decide.{Fresh}
use consent_manager.Lifecycle.Errors.{Fallible}
use consent_manager.Lifecycle.Create.{NewRow, ConsentRequestCreate}
use consent_manager.Lifecycle.Create as LifecycleCreate
use consent_manager.Lifecycle.Authenticate.{TokenLibrary, with_context, authenticate_row}
use consent_manager.Lifecycle.Approve.{ApproveRequest, pending_request, approved_request}
use consent_manager.Lifecycle.Approve as LifecycleApprove
use consent_manager.Lifecycle.Authenticate
use consent_manager.Assisted.Create.{AssistedRequestCreate, Outside}
use consent_manager.Assisted.Create as AssistedCreate
use consent_manager.Assisted.Approve as AssistedApprove
use consent_manager.Assisted.Moves.{handle}
use consent_manager.Assisted.Moves

-- What the services are set up with.
pub record Services : Type 0 where
  pub config : Settings
  pub out : Outside
  pub signer : Signer
  pub tokens : TokenLibrary

pub data Call : Type 0 where
  create : NewRow → ConsentRequestCreate → Call
  authenticate : String → Time → String → String → Call
  approve : Fresh → String → ApproveRequest → Call
  deny : String → Call
  create_assisted : NewRow → String → String → AssistedRequestCreate → Call
  move_assisted : Moves.Call → String → Call
  approve_assisted : Fresh → String → String → Option String → Call

-- The database after a call; an error leaves it as it was.
abbrev pub after {ℓ} : {A : Type ℓ} → (A → Database) → Fallible A → Database → Database
after written (err e) db = db
after written (ok a) db = written a

abbrev pub saved_row {ℓ} : {A : Type ℓ} → A × Database → Database
saved_row (a, db) = db

abbrev pub saved_consent : ConsentRequest × ConsentArtefact × Database → Database
saved_consent (r, a, db) = db

unfoldable pub perform : Services → Time → Call → Database → Database
perform s now (create row body) db =
    after saved_row (LifecycleCreate.create_request s.config s.out.systems now row body db) db
perform s now (Call.authenticate fresh created_at k token) db =
    after saved_row (Authenticate.authenticate s.tokens now fresh created_at k token db) db
perform s now (approve fresh k approval) db =
    after saved_row (LifecycleApprove.approve s.out.systems s.signer fresh now k approval db) db
perform s now (Call.deny k) db = after saved_row (LifecycleApprove.deny k db) db
perform s now (create_assisted row audience username body) db =
    after saved_row (AssistedCreate.create_request s.config s.out now row audience username body db)
      db
perform s now (move_assisted call k) db = after saved_row (handle s.config now call k db) db
perform s now (approve_assisted fresh k verified_by remark) db =
    after saved_consent
      (AssistedApprove.approve s.config s.out.systems s.signer fresh now k verified_by remark db) db

-- Calls in the order in which they are made, each with its time.
unfoldable pub perform_all : Services → List (Time × Call) → Database → Database
perform_all s [] db = db
perform_all s ((now, call) ∷ calls) db = perform_all s calls (perform s now call db)
