-- ===== src/Models.antt =====
-- The rows that the services read and write (backend/src/openg2p_consent_manager/models), and the
-- tables that hold them.
pub mod Status
pub mod Table
pub mod Rows
pub mod Documents
pub mod Database
