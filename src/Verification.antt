-- ===== src/Verification.antt =====
-- services/verification_service.py: /validate.
pub mod Request
pub mod Partners
pub mod Jws
pub mod Decide
pub mod Embedded
pub mod Validate
pub mod Sound
pub mod Outcomes
pub mod Unique
pub mod Logged
