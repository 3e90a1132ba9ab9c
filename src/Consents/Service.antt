-- ===== src/Consents/Service.antt =====
-- ConsentService, method by method; expire.py runs expire_stale. A method takes the time of its call
-- and the database, and returns the database after its commit. New ids are arguments.
use consent_manager.Base.{
  ℕ, suc, String, Bool, true, not, ◌&&◌, ◌||◌, Option, none, some, List, [], ◌∷◌, map, ◌==◌, same,
  ltb, if◌then◌else◌,
}
use consent_manager.Models.Status.{ArtefactStatus, is_active}
use consent_manager.Models.Rows.{Time, ConsentArtefact, RevocationRecord}
use consent_manager.Models.Database.{Database, ConsentReceipt, get_artefact, save_artefact, add}

pub record StatusReport : Type 0 where
  pub consent_id : String
  pub status : ArtefactStatus
  pub valid_until : Time
  pub checked_at : Time

-- `status == active and valid_until < now`
abbrev pub lapsed : Time → ConsentArtefact → Bool
lapsed now artefact = is_active artefact.status && ltb artefact.valid_until now

abbrev pub expire : Time → ConsentArtefact → ConsentArtefact
expire now artefact = record artefact { status = ArtefactStatus.expired; expired_at = some now }

report : Time → ConsentArtefact → StatusReport
report now artefact = record {
  consent_id = artefact.id;
  status = artefact.status;
  valid_until = artefact.valid_until;
  checked_at = now;
}

unfoldable pub status_of_row :
    Time → Option ConsentArtefact → Database → Option StatusReport × Database
unfolding report
status_of_row now none db = (none, db)
status_of_row now (some artefact) db =
    if lapsed now artefact
    then (some (report now (expire now artefact)), save_artefact (expire now artefact) db)
    else (some (report now artefact), db)

-- ConsentService.get_status, with its lazy expiry
unfoldable pub get_status : String → Time → Database → Option StatusReport × Database
unfolding status_of_row
get_status consent_id now db = status_of_row now (get_artefact consent_id db) db

-- ConsentService.get_receipt_by_consent
unfoldable pub get_receipt_by_consent : String → List ConsentReceipt → Option ConsentReceipt
get_receipt_by_consent consent_id [] = none
get_receipt_by_consent consent_id (r ∷ rs) =
    if r.consent_id == consent_id then some r else get_receipt_by_consent consent_id rs

-- The identity of the caller of the subject API: auth.py get_current_subject
pub record SubjectClaims : Type 0 where
  pub subject_id_type : Option String
  pub subject_id_value : Option String

-- What `revoke` returns or raises: None, PermissionError, ValueError, or the artefact.
pub data Revoked : Type 0 where
  missing not_the_subject : Revoked
  already : ArtefactStatus → Revoked
  done : ConsentArtefact → Revoked

unfoldable pub is_subject : Option SubjectClaims → ConsentArtefact → Bool
is_subject none artefact = true
is_subject (some claims) artefact =
    same (some artefact.subject_id_type) claims.subject_id_type
    && same (some artefact.subject_id_value) claims.subject_id_value

pub record Revocation : Type 0 where
  pub originated_by : String
  pub reason : Option String
  pub subject_claims : Option SubjectClaims
  pub revoked_by : Option String

abbrev pub revoked_row : Time → ConsentArtefact → ConsentArtefact
revoked_row now artefact = record artefact {
  status = ArtefactStatus.revoked;
  revoked_at = some now;
}

abbrev pub revocation_row : String → String → Time → Revocation → RevocationRecord
revocation_row fresh consent_id now call = record {
  id = fresh;
  created_at = now;
  consent_id = consent_id;
  originated_by = call.originated_by;
  reason = call.reason;
  revoked_by = call.revoked_by;
}

unfoldable pub revoke_row :
    String → Revocation → String → Time → Option ConsentArtefact → Database → Revoked × Database
unfolding is_subject
revoke_row consent_id call fresh now none db = (Revoked.missing, db)
revoke_row consent_id call fresh now (some artefact) db =
    if not (is_subject call.subject_claims artefact)
    then (Revoked.not_the_subject, db)
    else if not (is_active artefact.status)
    then (Revoked.already artefact.status, db)
    else (
      Revoked.done (revoked_row now artefact),
      record (save_artefact (revoked_row now artefact) db) {
        revocations = add (revocation_row fresh consent_id now call) db.revocations;
      },
    )

-- ConsentService.revoke
unfoldable pub revoke : String → Revocation → String → Time → Database → Revoked × Database
unfolding revoke_row
revoke consent_id call fresh now db =
    revoke_row consent_id call fresh now (get_artefact consent_id db) db

abbrev pub expire_if_stale : Time → ConsentArtefact → ConsentArtefact
expire_if_stale now artefact = if lapsed now artefact then expire now artefact else artefact

-- `len(stale)`
unfoldable pub count_stale : Time → List ConsentArtefact → ℕ
count_stale now [] = 0
count_stale now (a ∷ rows) = let n = count_stale now rows in if lapsed now a then suc n else n

-- ConsentService.expire_stale: the rows that its query finds are expired in one transaction.
unfoldable pub expire_stale : Time → Database → ℕ × Database
unfolding count_stale
expire_stale now db =
    (count_stale now db.artefacts, record db { artefacts = map (expire_if_stale now) db.artefacts })

-- assisted_service.py: artefact_status
unfoldable pub artefact_status : Time → ConsentArtefact → ArtefactStatus
artefact_status now artefact =
    if lapsed now artefact then ArtefactStatus.expired else artefact.status

own_artefact : String → String → Option ConsentArtefact → Option ConsentArtefact
own_artefact id_type id_value none = none
own_artefact id_type id_value (some artefact) =
    if not (artefact.subject_id_type == id_type) || not (artefact.subject_id_value == id_value)
    then none
    else some artefact

-- ConsentService.get_subject_artefact
unfoldable pub get_subject_artefact : String → String → String → Database → Option ConsentArtefact
unfolding own_artefact
get_subject_artefact consent_id id_type id_value db =
    own_artefact id_type id_value (get_artefact consent_id db)
