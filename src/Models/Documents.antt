-- ===== src/Models/Documents.antt =====
-- The JSON documents of services/receipt_service.py: the canonical artefact document, which is hashed,
-- and the consent receipt. Constant entries (@context, @type, version, legal_basis) are left out.
use consent_manager.Base.{ℕ, String, Option, List}
use consent_manager.Models.Status.{ArtefactSource}
use consent_manager.Models.Rows.{Time, Purpose, ApprovedGrant}

pub record ArtefactDocument : Type 0 where
  pub consent_id : String
  pub subject_id : String
  pub subject_id_type : String
  pub data_controller : Option String
  pub partner_id : String
  pub source : ArtefactSource
  pub purpose : Purpose
  pub data_scopes : List String
  pub effective_data_scopes : List String
  pub fetch_type : String
  pub policy_version : Option ℕ
  pub consent_timestamp : Time
  pub expiry_timestamp : Time
  pub grants : Option (List ApprovedGrant)

-- One data controller of a receipt; its categories stand only beside a grant.
pub record ReceiptController : Type 0 where
  pub id : Option String
  pub data_categories : Option (List String)

pub record Withdrawal : Type 0 where
  pub method : String
  pub additional_methods : Option (List String)

pub record ReceiptDocument : Type 0 where
  pub issued_at : Option Time
  pub data_controller : Option String
  pub data_controllers : List ReceiptController
  pub subject_id : String
  pub purpose : Purpose
  pub data_categories : List String
  pub third_parties : List String
  pub withdrawal : Withdrawal
  pub artefact_id : String
  pub artefact_hash : String
  pub algorithm : String
  pub kid : String
  pub signature_value : String
