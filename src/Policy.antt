-- ===== src/Policy.antt =====
-- services/policy_service.py, with the partner policies of services/pm_policy_client.py and the consent
-- claims of schemas/verification.py that it reads.
pub mod Records
pub mod Evaluate
pub mod UseCase
pub mod Ceiling
pub mod Decides
