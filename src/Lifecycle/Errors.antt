-- ===== src/Lifecycle/Errors.antt =====
-- The errors of lifecycle_service.py: an HTTP status with a detail.
use consent_manager.Base.{ℕ, String, [], ◌∷◌, text_of, Result}
use consent_manager.Models.Status.{request_status_value}
use consent_manager.Models.Rows.{ConsentRequest}

pub record LifecycleError : Type 0 where
  pub status_code : ℕ
  pub detail : String

abbrev pub error : ℕ → String → LifecycleError
error status_code detail = record { status_code = status_code; detail = detail }

abbrev pub not_found : LifecycleError
not_found = error 404 "not_found"

abbrev pub wrong_status : ConsentRequest → LifecycleError
wrong_status r = error 409 (text_of ("request is '" ∷ request_status_value r.status ∷ "'" ∷ []))

-- What a method returns or raises.
abbrev pub Fallible {ℓ} : Type ℓ → Type ℓ
Fallible A = Result LifecycleError A

-- The detail that FastAPI gives to an exception that no handler takes.
abbrev pub unhandled : LifecycleError
unhandled = error 500 "Internal Server Error"
