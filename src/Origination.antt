-- ===== src/Origination.antt =====
-- Consents that are originated here: the calls of the lifecycle and the assisted service on requests,
-- together.
pub mod Once
pub mod Calls
pub mod Kept
pub mod Machine
