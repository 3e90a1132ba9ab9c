-- ===== src/PolicyClient.antt =====
-- services/pm_policy_client.py: the cached reader of partner policies in Partner Management.
pub mod Cache
pub mod Staleness
pub mod Lookup
