-- ===== src/Consents.antt =====
-- services/consent_service.py: status, revocation, expiry and the subject's access to its consents.
pub mod Service
pub mod Expiry
pub mod Steps
pub mod Revocation
