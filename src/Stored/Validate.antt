-- ===== src/Stored/Validate.antt =====
-- VerificationService._validate_stored, from the stored row to the decision.
use consent_manager.Base.{
  String, Option, none, some, List, [], ◌∷◌, or_empty, text_of, Result, ok, err, ◌>>=◌, ◌>>◌,
  if◌then◌else◌,
}
use consent_manager.Models.Status.{ReasonCode, is_originated}
use consent_manager.Models.Rows.{Time, ConsentArtefact}
use consent_manager.Models.Database.{Database, get_artefact}
use consent_manager.Config.{Settings}
use consent_manager.Policy.Evaluate.{requested_of}
use consent_manager.Verification.Request.{ValidateRequest, Decision, Refusal, refusal, deny_with}
use consent_manager.Verification.Partners.{PolicySource}
use consent_manager.Exchange.Tokens.{issuing_refusal}
use consent_manager.Stored.Grants.{Narrowed, stored_grants, narrow_grants}
use consent_manager.Stored.Checks.{
  asked, check_state, check_parties, select_stored, mode_policy, policy_unread,
}
use consent_manager.Stored.Permit.{Outside, permit_stored}

unfoldable pub all_granted :
    ValidateRequest → ConsentArtefact → Option (List Narrowed) → Result Refusal (List Narrowed)
all_granted parsed a none = err (policy_unread parsed a)
all_granted parsed a (some []) = err (
    asked parsed a (
      refusal ReasonCode.scope_exceeds_policy
        "no consented scope is permitted by the partner's current policy"))
all_granted parsed a (some (n ∷ ns)) = ok (n ∷ ns)

-- The controllers that the consent serves now, each with its scopes.
unfoldable pub granted :
    Settings
    → PolicySource
    → ValidateRequest
    → ConsentArtefact
    → Time
    → Database
    → Result Refusal (List Narrowed)
unfolding all_granted
granted config source parsed a now db = do
  check_state a now
  check_parties parsed a
  selected ← select_stored parsed a (stored_grants a now db)
  mode ← mode_policy config source parsed a
  all_granted parsed a
      (narrow_grants source a.partner_id mode (requested_of parsed.request_context) selected [])

unfoldable pub answer_stored :
    Settings
    → Outside
    → ValidateRequest
    → ConsentArtefact
    → Time
    → String
    → Result Refusal (List Narrowed)
    → Database
    → Decision × Database
answer_stored config out parsed a now ctx_hash (err r) db = deny_with r now ctx_hash db
answer_stored config out parsed a now ctx_hash (ok ns) db =
    permit_stored config out parsed a now ctx_hash ns db

unfoldable pub validate_row :
    Settings
    → Outside
    → ValidateRequest
    → Option ConsentArtefact
    → Time
    → String
    → Database
    → Decision × Database
validate_row config out parsed none now ctx_hash db =
    deny_with
      (record (refusal ReasonCode.unknown_consent "no stored consent with this consent_id") {
        data_controller = parsed.data_controller;
      })
      now ctx_hash db
validate_row config out parsed (some a) now ctx_hash db =
    answer_stored config out parsed a now ctx_hash (granted config out.policies parsed a now db) db

-- Presented by its id, only an originated consent is found.
originated_only : Option ConsentArtefact → Option ConsentArtefact
originated_only none = none
originated_only (some a) = if is_originated a.source then some a else none

-- `artefact` is the one found by lookup, or None.
unfoldable pub found_or_read :
    ValidateRequest → Option ConsentArtefact → Database → Option ConsentArtefact
unfolding originated_only
found_or_read parsed (some a) db = some a
found_or_read parsed none db = originated_only (get_artefact (or_empty parsed.consent_id) db)

unfoldable pub refused_presenter :
    Settings
    → Outside
    → ValidateRequest
    → Option ConsentArtefact
    → Time
    → String
    → Option String
    → Database
    → Decision × Database
refused_presenter config out parsed row now ctx_hash (some detail) db =
    deny_with
      (record (refusal ReasonCode.receipt_presenter_not_allowed detail) {
        data_controller = parsed.data_controller;
      })
      now ctx_hash db
refused_presenter config out parsed row now ctx_hash none db =
    validate_row config out parsed row now ctx_hash db

-- VerificationService._validate_stored
unfoldable pub validate_stored :
    Settings
    → Outside
    → ValidateRequest
    → Option ConsentArtefact
    → Time
    → Database
    → Decision × Database
unfolding found_or_read refused_presenter
validate_stored config out parsed artefact now db =
    let ctx_hash = out.hash_text (
      text_of (
        "consent_id:"
        ∷ or_empty parsed.consent_id
        ∷ ":"
        ∷ or_empty parsed.consent_partner_id
        ∷ [])) in
    refused_presenter config out parsed (found_or_read parsed artefact db) now ctx_hash
      (if parsed.issue_receipts then issuing_refusal config parsed.partner_id else none) db
