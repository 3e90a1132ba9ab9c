-- ===== src/Lifecycle/Closed.antt =====
-- The calls of LifecycleService on a request that is no longer pending.
use consent_manager.Base.{String, false, [], ◌∷◌, text_of, ◌≢◌, Option, none, some, ◌≡◌, refl, err}
use consent_manager.Models.Status.{RequestStatus, is_pending, request_status_value}
use consent_manager.Models.Rows.{Time, ConsentRequest}
use consent_manager.Models.Database.{Database, get_request}
use consent_manager.Receipts.{Signer}
use consent_manager.Verification.Decide.{Fresh}
use consent_manager.Lifecycle.Errors.{LifecycleError}
use consent_manager.Lifecycle.UseCases.{Systems}
use consent_manager.Lifecycle.Authenticate.{TokenLibrary, authenticate, authenticate_row}
use consent_manager.Lifecycle.Approve.{ApproveRequest, approve, deny, pending_request}

-- The error about a request that is not found, or is found in another status than pending.
abbrev pub refusal_of : Option ConsentRequest → LifecycleError
refusal_of none = record { status_code = 404; detail = "consent request not found" }
refusal_of (some req) = record {
  status_code = 409;
  detail = text_of ("request is '" ∷ request_status_value req.status ∷ "'" ∷ []);
}

abbrev pub IsShut : Option ConsentRequest → Type 0
IsShut none = Unit
IsShut (some req) = req.status ≢ RequestStatus.pending

not_pending : (s : RequestStatus) → s ≢ RequestStatus.pending → is_pending s ≡ false
not_pending RequestStatus.pending h = absurd (h refl)
not_pending RequestStatus.approved h = refl
not_pending RequestStatus.denied h = refl
not_pending RequestStatus.expired h = refl
not_pending RequestStatus.pending_verification h = refl
not_pending RequestStatus.rejected h = refl
not_pending RequestStatus.cancelled h = refl

module _ (lib : TokenLibrary) (out : Systems) (signer : Signer) (fresh : Fresh) (now : Time)
    (k token : String) (approval : ApproveRequest) where
  authenticate_row-shut :
      (found : Option ConsentRequest)
      → IsShut found
      → authenticate_row lib now fresh.artefact_id now k token found ≡ err (refusal_of found)
  unfolding authenticate_row
  authenticate_row-shut none h = refl
  authenticate_row-shut (some req) h = rw (not_pending req.status h) refl

  pending_request-shut :
      (found : Option ConsentRequest)
      → IsShut found
      → pending_request found ≡ err (refusal_of found)
  unfolding pending_request
  pending_request-shut none h = refl
  pending_request-shut (some req) h = rw (not_pending req.status h) refl

  -- Of a request that is not stored, authentication, approval and denial all answer 404; of one that is
  -- stored and not pending, all answer 409 and name its status. Whatever the token, the approval and the
  -- policies are, no other error takes precedence.
  pub calls_shut :
      (db : Database)
      → IsShut (get_request k db)
      → (authenticate lib now fresh.artefact_id now k token db
          ≡ err (refusal_of (get_request k db)))
        × (approve out signer fresh now k approval db ≡ err (refusal_of (get_request k db)))
        × (deny k db ≡ err (refusal_of (get_request k db)))
  unfolding authenticate approve deny
  calls_shut db h =
      let shut = pending_request-shut (get_request k db) h in
      (rw (authenticate_row-shut (get_request k db) h) refl, rw shut refl, rw shut refl)
