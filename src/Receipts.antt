-- ===== src/Receipts.antt =====
-- services/receipt_service.py: the canonical artefact document and the CM-signed consent receipt.
use consent_manager.Base.{
  String, Option, none, some, List, [], ◌∷◌, truthy, has_text, text_of, if◌then◌else◌,
}
use consent_manager.Models.Rows.{Time, ConsentArtefact, ApprovedGrant}
use consent_manager.Models.Documents.{ArtefactDocument, ReceiptController, Withdrawal}
use consent_manager.Models.Database.{ConsentReceipt}
use consent_manager.Scopes.{nonempty}

-- What the service takes from libraries and from its configuration: sha256_hex of canonical_bytes
-- (JSON and SHA-256), the CM's signature (CryptoService), and the withdrawal method with `{consent_id}`
-- replaced.
pub record Signer : Type 0 where
  pub hash : ArtefactDocument → String
  pub sign : String → String
  pub algorithm : String
  pub kid : String
  pub withdrawal_method : String → String
  pub withdrawal_subject_api_url : String

-- ReceiptService.artefact_document
unfoldable pub artefact_document : ConsentArtefact → ArtefactDocument
artefact_document a = record {
  consent_id = a.id;
  subject_id = a.subject_id_value;
  subject_id_type = a.subject_id_type;
  data_controller = a.controller_id;
  partner_id = a.partner_id;
  source = a.source;
  purpose = a.purpose;
  data_scopes = a.data_scopes;
  effective_data_scopes = a.effective_data_scopes;
  fetch_type = a.fetch_type;
  policy_version = a.policy.policy_version;
  consent_timestamp = a.valid_from;
  expiry_timestamp = a.valid_until;
  grants = a.grants;
}

granted_controllers : List ApprovedGrant → List ReceiptController
granted_controllers [] = []
granted_controllers (g ∷ gs) =
    let rest = granted_controllers gs in
    if nonempty g.effective_data_scopes
    then record { id = some g.data_controller; data_categories = some g.effective_data_scopes }
      ∷ rest
    else rest

controllers_of : Option String → Option (List ApprovedGrant) → List ReceiptController
controllers_of controller (some (g ∷ gs)) = granted_controllers (g ∷ gs)
controllers_of controller (some []) = record { id = controller; data_categories = none } ∷ []
controllers_of controller none = record { id = controller; data_categories = none } ∷ []

-- ReceiptService._controllers
unfoldable pub controllers : ConsentArtefact → List ReceiptController
unfolding controllers_of granted_controllers
controllers a = controllers_of a.controller_id a.grants

-- ReceiptService.withdrawal
unfoldable pub withdrawal : Signer → String → Withdrawal
withdrawal signer consent_id = record {
  method = signer.withdrawal_method consent_id;
  additional_methods =
      if has_text signer.withdrawal_subject_api_url
      then some (
          text_of (
            "POST " ∷ signer.withdrawal_subject_api_url ∷ "/consent/v1/my/consents/" ∷ consent_id
            ∷ "/revoke" ∷ [])
          ∷ [])
      else none;
}

-- ReceiptService.build_receipt. `fresh` is the row's new id; `created_at` is the artefact's, which is
-- None until its row is flushed unless the caller set it.
unfoldable pub build_receipt : Signer → String → Option Time → ConsentArtefact → ConsentReceipt
build_receipt signer fresh created_at a =
    let artefact_hash = signer.hash (artefact_document a) in
    let signature_value = signer.sign artefact_hash in
    record {
      id = fresh;
      consent_id = a.id;
      artefact_hash = artefact_hash;
      algorithm = signer.algorithm;
      kid = signer.kid;
      signature = signature_value;
      document = record {
        issued_at = created_at;
        data_controller = if truthy a.controller_id then a.controller_id else none;
        data_controllers = controllers a;
        subject_id = a.subject_id_value;
        purpose = a.purpose;
        data_categories = a.effective_data_scopes;
        third_parties = a.partner_id ∷ [];
        withdrawal = withdrawal signer a.id;
        artefact_id = a.id;
        artefact_hash = artefact_hash;
        algorithm = signer.algorithm;
        kid = signer.kid;
        signature_value = signature_value;
      };
    }
