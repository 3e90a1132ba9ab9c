-- ===== src/Issuing.antt =====
-- VerificationService.validate as a whole for a JWS, and _validate_and_issue: a consent token for each
-- controller of a partner-signed consent.
pub mod Dispatch
pub mod Tokens
pub mod Permitted
pub mod Asked
pub mod Signed
pub mod Issued
