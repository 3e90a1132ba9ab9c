-- ===== src/Examples/Consents.antt =====
-- ConsentService at the example consent.
use mathlib.Core.Logic.{◌↔◌}
use consent_manager.Base.{true, ◌≡◌, ◌≤◌, refl, arith, none, some, [], ◌∷◌}
use consent_manager.Models.Status.{ArtefactStatus, is_active}
use consent_manager.Models.Rows.{ConsentArtefact}
use consent_manager.Models.Table
use consent_manager.Models.Table.{All}
use consent_manager.Models.Database.{Database, get_artefact}
use consent_manager.Consents.Service.{
  Revocation, revoke, revoked_row, get_status, expire_stale, is_subject,
}
use consent_manager.Consents.Steps.{
  sweep, revocation, Step, perform, perform_all, perform-Step, perform_all-ended,
  perform_all-SameTerms, SameTerms,
}
use consent_manager.Consents.Expiry.{
  AreSwept, expire_stale-AreSwept, get_status-expire_stale, get_status-active,
}
use consent_manager.Consents.Revocation.{Ends, revoke-Ends, revoke-final}
use consent_manager.Examples.Data.{artefact, db}

abbrev pub staff_call : Revocation
staff_call = record {
  originated_by = "controller";
  reason = none;
  subject_claims = none;
  revoked_by = some "officer";
}

pub found : get_artefact "c1" db ≡ some artefact
unfolding Table.get
found = refl

perform-Step_example :
    (a' : ConsentArtefact) × (get_artefact "c1" (perform 6000 sweep db) ≡ some a')
    × Step 6000 artefact a'
perform-Step_example = perform-Step 6000 sweep "c1" artefact db found

abbrev revoked_db : Database
revoked_db = record db { artefacts = revoked_row 2000 artefact ∷ [] }

perform_all-ended_example :
    get_artefact "c1"
      (perform_all ((7000, sweep) ∷ (8000, revocation "c1" staff_call "v") ∷ []) revoked_db)
    ≡ some (revoked_row 2000 artefact)
unfolding Table.get
perform_all-ended_example =
    perform_all-ended ((7000, sweep) ∷ (8000, revocation "c1" staff_call "v") ∷ []) "c1"
      (revoked_row 2000 artefact) revoked_db refl refl

perform_all-SameTerms_example :
    (a' : ConsentArtefact) × (get_artefact "c1" (perform_all ((7000, sweep) ∷ []) db) ≡ some a')
    × SameTerms a' artefact
perform_all-SameTerms_example = perform_all-SameTerms ((7000, sweep) ∷ []) "c1" artefact db found

expire_stale-AreSwept_example : AreSwept 6000 db.artefacts (expire_stale 6000 db).1.artefacts
expire_stale-AreSwept_example = expire_stale-AreSwept 6000 db

get_status-expire_stale_example :
    (get_status "c1" 7000 (expire_stale 6000 db).1).0 ≡ (get_status "c1" 7000 db).0
get_status-expire_stale_example = get_status-expire_stale "c1" 6000 7000 db (ground arith)

get_status-active_example :
    (is_active ArtefactStatus.expired ≡ true)
    ↔ ((is_active artefact.status ≡ true) × (6000 ≤ artefact.valid_until))
unfolding get_status Table.get
get_status-active_example =
    get_status-active "c1" 6000 db {a = artefact}
      {r = record {
        consent_id = "c1";
        status = ArtefactStatus.expired;
        valid_until = 5000;
        checked_at = 6000;
      }}
      refl refl

revoke-Ends_example : Ends "c1" staff_call "v1" 2000 db {a = artefact} found
revoke-Ends_example = revoke-Ends "c1" staff_call "v1" 2000 db {a = artefact} found

revoke-final_example :
    (get_status "c1" 9000
      (perform_all ((8000, sweep) ∷ []) (revoke "c1" staff_call "v1" 2000 db).1)).0
    ≡ some (record {
      consent_id = "c1";
      status = ArtefactStatus.revoked;
      valid_until = 5000;
      checked_at = 9000;
    })
unfolding is_subject
revoke-final_example =
    revoke-final "c1" staff_call "v1" 2000 db {a = artefact} found refl refl ((8000, sweep) ∷ [])
      9000
