-- ===== src/Stored.antt =====
-- VerificationService on a consent that the Consent Manager holds: presented by its id
-- (_validate_stored) or found by lookup (_validate_lookup).
pub mod Grants
pub mod Checks
pub mod Permit
pub mod Validate
pub mod Lookup
pub mod Narrowed
pub mod Sound
pub mod Held
pub mod First
pub mod Found
