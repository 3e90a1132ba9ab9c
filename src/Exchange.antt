-- ===== src/Exchange.antt =====
-- services/exchange_service.py, the exchange role: consent tokens for a registry to check.
pub mod Tokens
pub mod Lifetime
