-- ===== src/Lib.antt =====
-- The OpenG2P Consent Manager, backend/src/openg2p_consent_manager: it stores the consents of subjects,
-- decides whether a data controller (a registry) may hand a subject's data to a partner, issues consent
-- tokens, and lets consents be revoked or expire. Paths below are relative to that directory.
--
-- A service call is a function from a database to its answer and the database after its commit; the
-- time, new ids and what other parties answer are arguments. An exception that becomes a denial or an
-- HTTP error is a value (Base/Raise). Times are microseconds, so that `==` and `<` are those of
-- datetime; a subtraction that may go below zero says what the code does there.
--
-- The parts:
-- - Base, Scopes: Python's tests, texts, lists and sets of scopes, and their laws.
-- - Models: the tables of models/consent.py, models/audit.py and models/exchange.py. Status has the
--   enumerations, Rows the columns, Documents the JSON of services/receipt_service.py, Table a table
--   with a key, Database all tables.
-- - Duration: utils/canonical.py, iso_duration_to_timedelta, over code points.
-- - Config: the settings of config.py that the other parts read.
-- - Policy: services/policy_service.py. Records has PmPolicy, PartnerRef and the consent claims;
--   Evaluate is PolicyService.evaluate, UseCase its check_use_case; Ceiling and Decides are what they
--   decide.
-- - Consents: services/consent_service.py. Service has get_status, revoke, expire_stale and the
--   subject's own consents; Steps is their step relation on a consent, Expiry and Revocation what
--   follows.
-- - Receipts: services/receipt_service.py.
-- - Verification: services/verification_service.py, validate on a partner-signed consent. Request has
--   the request, the decision and _deny; Partners is services/partner_service.py over the interface
--   PolicySource; Jws is _decode_jws; Embedded the checks before the idempotency lookup; Decide the
--   stored decision and _permit; Validate puts them together. Sound, Outcomes, Unique and Logged are
--   what a permit rests on, the ways a call can end, the uniqueness of artefacts and the decision log.
-- - Stored: the same service on a consent that it holds. Grants, Checks, Permit and Validate
--   are _validate_stored, Lookup is _validate_lookup. Held says in plain terms when a
--   consent answers a lookup; Narrowed, Sound, First and Found are the proofs.
-- - Exchange: services/exchange_service.py, issuing consent tokens and reporting their status.
-- - PolicyClient: services/pm_policy_client.py. Cache is the cache of one key with its three TTLs,
--   Staleness how old its answers can be, Lookup fills PolicySource.
-- - Composite: services/composite_client.py. Records is a published use case, Client get_use_case with
--   its cache, Reference the syntax of a reference; Source is the interface that the lifecycle service
--   reads, filled by the client.
-- - Lifecycle: services/lifecycle_service.py. UseCases has the partner's policies and consent by use
--   case, Create create_request, Authenticate and Approve the subject's side, Narrow and Artefacts what
--   an approval keeps and makes (the assisted service uses both). Resolved and Created are what a
--   created request has been checked for; Within, Keys, Requested, Shapes and Approved what an approval
--   may grant; Closed the errors of a request that is no longer pending.
-- - Assisted: services/assisted_service.py. Requests has submit, cancel and reject with the request's
--   successful authentication (services/subject_auth_service.py), Moves how these move a request
--   and Submitted what a submission rests on; Evidence has its evidence rows, Files what bounds and
--   fixes them. Identifiers and Create are the entry of a request, Approve the staff's approval;
--   Created, Approved and Unchanged are their proofs.
-- - Origination: the calls of both services on requests, one after the other (Calls), the state machine
--   of a request under them (Machine), and that a request has at most one consent (Once, Kept).
-- - SubjectAuth: services/subject_auth_service.py. Sessions has the sessions' transactions, Provider
--   the checks of the provider's answers, Complete the redirect; Once and Sound are their proofs.
-- - Accepted: the department side of consent tokens. Issuers is the part of
--   services/exchange_service.py that reads an issuer's keys and a token's status; Tokens and Decide
--   are VerificationService._validate_receipt, Vouched and Sound their proofs.
-- - Issuing: VerificationService.validate of a JWS (Dispatch) and _validate_and_issue (Tokens), which
--   issues tokens for a partner-signed consent. Asked says in plain terms who asks for what;
--   Permitted, Signed and Issued are the proofs.
-- - Caches: utils/cache.py, TTLCache, and the history that it refines.
-- - Examples: tests, and the theorems at concrete inputs.
--
-- Verification, Stored, Accepted and Lifecycle read policies through PolicySource, whose laws
-- PolicyClient.Lookup proves.
-- Stored issues tokens with Exchange, whose status follows the consents that Consents revokes and
-- expires.
--
-- All loops are over lists or texts, so there is no fuel. Parameters stand for what the code imports:
-- JSON, base64 and SHA-256, the JWS and OIDC libraries, the verification of a partner's signature with
-- Partner Management's keys, the replies of Partner Management, the Composite, Master Data, the
-- national ID provider and the issuers of tokens, and what other requests commit between a call's
-- reads and its commit (`meanwhile`). A duration of more than 999999999 days, on which timedelta
-- raises, has a value here. So has a single-controller consent whose data_controller is empty, on which
-- ConsentGrant raises, and a null claim of userinfo counts as absent, where the code lets it replace the
-- ID token's.
--
-- Not modelled: evidence files in the object store, signing keys and the conversion of a JWK, which are
-- calls of libraries; HTTP controllers and their schemas, roles, listings and summaries for the views,
-- migrations, the partner portal and the staff UI.
pub mod Base
pub mod Scopes
pub mod Models
pub mod Duration
pub mod Policy
pub mod Consents
pub mod Receipts
pub mod Config
pub mod Verification
pub mod Exchange
pub mod Composite
pub mod Lifecycle
pub mod Assisted
pub mod Issuing
pub mod Caches
pub mod SubjectAuth
pub mod Origination
pub mod Accepted
pub mod Stored
pub mod PolicyClient
mod Examples
