-- ===== src/Models/Database.antt =====
-- The database: one list of rows for each table. A service call runs in one transaction, which the
-- model takes as one step from a database to the next.
use consent_manager.Base.{String, Option, List, [], ◌∷◌, ◌++◌}
use consent_manager.Models.Rows.{
  ConsentRequest, ConsentArtefact, ConsentEvidence, SubjectAuthSession, AuthContext,
  RevocationRecord, DecisionLog, IssuedReceipt,
}
use consent_manager.Models.Documents.{ReceiptDocument}
use consent_manager.Models.Table

-- A consent receipt as it is stored: models/consent.py ConsentReceipt.
pub record ConsentReceipt : Type 0 where
  pub id : String
  pub consent_id : String
  pub artefact_hash : String
  pub algorithm : String
  pub kid : String
  pub signature : String
  pub document : ReceiptDocument

pub record Database : Type 0 where
  pub requests : List ConsentRequest
  pub artefacts : List ConsentArtefact
  pub receipts : List ConsentReceipt
  pub revocations : List RevocationRecord
  pub evidence : List ConsentEvidence
  pub auth_sessions : List SubjectAuthSession
  pub auth_contexts : List AuthContext
  pub decisions : List DecisionLog
  pub issued : List IssuedReceipt

abbrev pub request_key : ConsentRequest → String
request_key r = r.id

abbrev pub artefact_key : ConsentArtefact → String
artefact_key a = a.id

abbrev pub get_request : String → Database → Option ConsentRequest
get_request k db = Table.get request_key k db.requests

abbrev pub get_artefact : String → Database → Option ConsentArtefact
get_artefact k db = Table.get artefact_key k db.artefacts

abbrev pub save_request : ConsentRequest → Database → Database
save_request r db = record db { requests = Table.save request_key r db.requests }

abbrev pub save_artefact : ConsentArtefact → Database → Database
save_artefact a db = record db { artefacts = Table.save artefact_key a db.artefacts }

-- `session.add(row)`
abbrev pub add {ℓ} : {A : Type ℓ} → A → List A → List A
add row rows = rows ++ row ∷ []
