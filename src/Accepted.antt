-- ===== src/Accepted.antt =====
-- The department side of consent tokens: VerificationService._validate_receipt, and the issuer's keys
-- and status as services/exchange_service.py reads them.
pub mod Issuers
pub mod Tokens
pub mod Decide
pub mod Vouched
pub mod Sound
