-- ===== src/Examples.antt =====
-- The theorems at concrete inputs, and runs of the definitions.
mod Data
mod Policies
mod Consents
mod Validations
mod Exchange
mod PolicyClient
mod Stored
mod Assisted
mod Lifecycle
mod Verified
mod Accepted
mod SubjectAuth
mod Durations
mod Issuing
