-- ===== src/Composite.antt =====
-- services/composite_client.py: the published use cases.
pub mod Records
pub mod Client
pub mod Source
pub mod Reference
