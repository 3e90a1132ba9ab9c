-- ===== src/Stored/Permit.antt =====
-- The permit of _validate_stored: the decision of each controller, its log rows and, on request, a
-- consent token for each.
use consent_manager.Base.{
  String, Option, none, some, List, [], ◌∷◌, ◌++◌, map, or_empty, if◌then◌else◌,
}
use consent_manager.Models.Status.{ReasonCode}
use consent_manager.Models.Rows.{Time, ConsentArtefact, DecisionLog, permit}
use consent_manager.Models.Database.{Database, ConsentReceipt}
use consent_manager.Config.{Settings}
use consent_manager.Policy.Records.{policy_fields}
use consent_manager.Consents.Service.{get_receipt_by_consent}
use consent_manager.Verification.Request.{ValidateRequest, Decision, bare}
use consent_manager.Verification.Partners.{PolicySource}
use consent_manager.Exchange.Tokens.{TokenSource, TokenClaims, Permit, issue}
use consent_manager.Stored.Grants.{Narrowed}

-- What the libraries give this path: the partner's policies, sha256_hex of a text, the signed form of a
-- token's claims, and a new id for the token of each controller.
pub record Outside : Type 0 where
  pub policies : PolicySource
  pub hash_text : String → String
  pub sign_jws : TokenClaims → String
  pub jtis : String → String

abbrev pub decision_of : ConsentArtefact → Time → Narrowed → Decision
decision_of a now n = record (bare permit ReasonCode.ok now) {
  consent_id = some n.consent_id;
  subject_id = some (record { type = a.subject_id_type; value = a.subject_id_value });
  data_controller = some n.data_controller;
  effective_data_scopes = some n.scopes;
  valid_until = some a.valid_until;
  policy = policy_fields n.policy;
}

abbrev pub log_of : ConsentArtefact → String → Narrowed → DecisionLog
log_of a ctx_hash n = record {
  partner_id = some a.partner_id;
  consent_id = some n.consent_id;
  object_jti = none;
  data_controller = some n.data_controller;
  decision = permit;
  reason_code = ReasonCode.ok;
  detail = none;
  policy = policy_fields n.policy;
  request_ctx_hash = some ctx_hash;
  receipt_jti = none;
  receipt_issuer = none;
}

abbrev pub permit_for : ConsentArtefact → Narrowed → Permit
permit_for a n = record {
  consent_id = n.consent_id;
  data_controller = n.data_controller;
  subject_id = record { type = a.subject_id_type; value = a.subject_id_value };
  scopes = n.scopes;
  valid_until = a.valid_until;
}

-- One token for each controller, in order.
unfoldable pub issue_all :
    Settings
    → Outside
    → TokenSource
    → ConsentArtefact
    → String
    → Time
    → List Narrowed
    → Database
    → List (String × String) × Database
issue_all config out consent a presenter now [] db = ([], db)
issue_all config out consent a presenter now (n ∷ ns) db =
    let (token, after) =
      issue config consent (permit_for a n) presenter (out.jtis n.data_controller) now db in
    let (tokens, last) = issue_all config out consent a presenter now ns after in
    ((n.data_controller, out.sign_jws token) ∷ tokens, last)

-- The consent as `issue` reads it.
abbrev pub token_source : ConsentArtefact → TokenSource
token_source a = record { aud = a.partner_id; purpose = a.purpose; issued_at = a.created_at }

-- `receipts` stays None where no tokens are asked for.
unfoldable pub receipts_for :
    Settings
    → Outside
    → ValidateRequest
    → ConsentArtefact
    → Time
    → List Narrowed
    → Database
    → Option (List (String × String)) × Database
unfolding issue_all
receipts_for config out parsed a now ns db =
    if parsed.issue_receipts
    then (let (tokens, after) =
          issue_all config out (token_source a) a (or_empty parsed.partner_id) now ns db in
        (some tokens, after))
    else (none, db)

receipt_id_of : Option ConsentReceipt → Option String
receipt_id_of none = none
receipt_id_of (some r) = some r.id

abbrev pub grant_of : Narrowed → String × List String
grant_of n = (n.data_controller, n.scopes)

-- One controller's decision, or one for all of them.
shared_decision : ConsentArtefact → Time → List Narrowed → Decision
shared_decision a now (n ∷ []) = decision_of a now n
shared_decision a now ns = record (bare permit ReasonCode.ok now) {
  consent_id = some a.id;
  subject_id = some (record { type = a.subject_id_type; value = a.subject_id_value });
  valid_until = some a.valid_until;
}

unfoldable pub permit_stored :
    Settings
    → Outside
    → ValidateRequest
    → ConsentArtefact
    → Time
    → String
    → List Narrowed
    → Database
    → Decision × Database
unfolding receipts_for receipt_id_of shared_decision
permit_stored config out parsed a now ctx_hash ns db =
    let (tokens, after) =
      receipts_for config out parsed a now ns
        (record db { decisions = db.decisions ++ map (log_of a ctx_hash) ns }) in
    (
      record (shared_decision a now ns) {
        receipts = tokens;
        grants = some (map grant_of ns);
        receipt_id = receipt_id_of (get_receipt_by_consent a.id db.receipts);
      },
      after,
    )
