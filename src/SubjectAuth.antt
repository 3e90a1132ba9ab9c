-- ===== src/SubjectAuth.antt =====
-- services/subject_auth_service.py: the login of a request's subject at the national ID provider.
pub mod Sessions
pub mod Provider
pub mod Complete
pub mod Once
pub mod Sound
