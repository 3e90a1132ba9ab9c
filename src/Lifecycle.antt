-- ===== src/Lifecycle.antt =====
-- services/lifecycle_service.py: consent requests made through the API and approved by the subject.
pub mod Errors
pub mod UseCases
pub mod Narrow
pub mod Create
pub mod Authenticate
pub mod Artefacts
pub mod Approve
pub mod Within
pub mod Keys
pub mod Requested
pub mod Resolved
pub mod Created
pub mod Shapes
pub mod Approved
pub mod Closed
