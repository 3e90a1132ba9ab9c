-- ===== src/Examples/Validations.antt =====
-- VerificationService at the example consent.
use consent_manager.Base.{◌≡◌, refl, some, ◌⊎◌}
use consent_manager.Models.Rows.{permit}
use consent_manager.Models.Database.{Database}
use consent_manager.Verification.Request.{use_case_mode, subject_mismatch}
use consent_manager.Verification.Decide.{existing_artefact, permit_consent}
use consent_manager.Verification.Embedded.{Vetted, vet, select_grant}
use consent_manager.Verification.Partners.{get_verification_material}
use consent_manager.Verification.Validate.{validate_object, settle, decide, first_time}
use consent_manager.Verification.Sound.{Vouched, Based, validate_object-permit}
use consent_manager.Verification.Unique.{IsUnique, validate_object-IsUnique}
use consent_manager.Verification.Logged.{Logged, IsRead, validate_object-Logged}
use consent_manager.Scopes.{member, inter, to_set, sorted}
use consent_manager.Duration.{iso_duration_to_timedelta}
use consent_manager.Policy.Evaluate.{evaluate, effective_of, max_delta}
use consent_manager.Examples.Data.{config, libraries, request, header, consent, fresh, empty_db, db}

first_presentation :
    (validate_object config libraries request "h.p.s" header
      (some consent)
      fresh
      2000
      "h"
      empty_db).0.decision
    ≡ permit
unfolding validate_object settle decide first_time vet select_grant use_case_mode subject_mismatch
    get_verification_material existing_artefact permit_consent evaluate effective_of max_delta
    iso_duration_to_timedelta inter to_set sorted member
first_presentation = refl

validate_object-permit_example :
    (v : Vetted) × Vouched config libraries request "h.p.s" header consent v
    × Based config request consent v 2000 empty_db
validate_object-permit_example =
    validate_object-permit config libraries request "h.p.s" header consent fresh 2000 "h" empty_db
      first_presentation

validate_object-IsUnique_example :
    IsUnique
      (validate_object config libraries request "h.p.s" header
        (some consent)
        fresh
        2000
        "h"
        db).1.artefacts
validate_object-IsUnique_example =
    validate_object-IsUnique config libraries request "h.p.s" header 2000 fresh "h" db
      (some consent) (tt, tt) (tt, tt)

validate_object-Logged_example :
    let (d, after) =
      validate_object config libraries request "h.p.s" header (some consent) fresh 2000 "h" db in
    (before : Database) × ((before ≡ db) ⊎ (before ≡ libraries.meanwhile db))
    × (Logged d before after ⊎ IsRead (some consent) 2000 d before after)
validate_object-Logged_example =
    validate_object-Logged config libraries request "h.p.s" header 2000 fresh "h" db (some consent)
