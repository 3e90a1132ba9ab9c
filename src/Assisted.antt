-- ===== src/Assisted.antt =====
-- services/assisted_service.py: consents that a partner's officer requests for a subject, with evidence.
pub mod Requests
pub mod Moves
pub mod Submitted
pub mod Evidence
pub mod Files
pub mod Identifiers
pub mod Create
pub mod Created
pub mod Approve
pub mod Approved
pub mod Unchanged
