-- ===== src/Stored/Sound.antt =====
-- What a permit for a stored consent rests on.
use consent_manager.Base.{
  String, true, false, Option, none, some, List, [], map, ◌≡◌, ◌≤◌, refl, arith, Result, ok, err,
  Result-cases, inl, inr, same, same-true, if◌then◌else◌,
}
use consent_manager.Models.Status.{is_active}
use consent_manager.Models.Rows.{Time, ConsentArtefact, permit}
use consent_manager.Models.Database.{Database}
use consent_manager.Models.Table.{All}
use consent_manager.Config.{Settings}
use consent_manager.Policy.Records.{PmPolicy}
use consent_manager.Policy.Evaluate.{requested_of}
use consent_manager.Verification.Request.{
  ValidateRequest, Decision, Refusal, deny_with, subject_mismatch, subject_of,
}
use consent_manager.Verification.Partners.{PolicySource}
use consent_manager.Exchange.Tokens.{issuing_refusal}
use consent_manager.Stored.Grants.{RecordedGrant, Narrowed, stored_grants, narrow_grants}
use consent_manager.Stored.Checks.{check_state, check_parties, select_stored, mode_policy}
use consent_manager.Stored.Narrowed.{IsJustified, narrow_grants-IsJustified}
use consent_manager.Stored.Permit.{Outside, grant_of, permit_stored}
use consent_manager.Stored.Validate.{
  granted, all_granted, answer_stored, validate_row, validate_stored, refused_presenter,
  found_or_read,
}

-- The consent may be used now, by this caller, for these controllers and scopes.
pub record Stands (config : Settings) (source : PolicySource) (parsed : ValidateRequest)
    (a : ConsentArtefact) (now : Time) (db : Database) (ns : List Narrowed) : Type 0 where
  pub active : is_active a.status ≡ true
  pub begun : a.valid_from ≤ now
  pub not_over : now ≤ a.valid_until
  pub to_partner : parsed.consent_partner_id ≡ some a.partner_id
  pub subject :
      subject_mismatch
        (subject_of parsed.request_context)
        a.subject_id_type
        a.subject_id_value
        a.subject_identifiers
      ≡ false
  pub mode : Option PmPolicy
  pub mode_read : mode_policy config source parsed a ≡ ok mode
  pub selected : List RecordedGrant
  pub chosen : select_stored parsed a (stored_grants a now db) ≡ ok selected
  pub justified :
      All (IsJustified source a.partner_id mode (requested_of parsed.request_context) selected) ns

module _ (config : Settings) (source : PolicySource) (parsed : ValidateRequest)
    (a : ConsentArtefact) (now : Time) (db : Database) where
  granted-Checked :
      {ns : List Narrowed}
      → granted config source parsed a now db ≡ ok ns
      → (is_active a.status ≡ true)
        × (a.valid_from ≤ now)
        × (now ≤ a.valid_until)
        × (same parsed.consent_partner_id (some a.partner_id) ≡ true)
        × (subject_mismatch
              (subject_of parsed.request_context)
              a.subject_id_type
              a.subject_id_value
              a.subject_identifiers
            ≡ false)
  unfolding granted check_state check_parties
  granted-Checked h = (ground arith, ground arith, ground arith, ground arith, ground arith)

  granted-Narrowed :
      {ns : List Narrowed}
      → granted config source parsed a now db ≡ ok ns
      → (mode : Option PmPolicy) × (mode_policy config source parsed a ≡ ok mode)
        × ((selected : List RecordedGrant) × (select_stored parsed a (stored_grants a now db)
              ≡ ok selected)
            × (narrow_grants source a.partner_id mode
                  (requested_of parsed.request_context)
                  selected
                  []
                ≡ some ns))
  unfolding granted all_granted check_state check_parties
  granted-Narrowed {ns} h = elim (Result-cases (select_stored parsed a (stored_grants a now db))) [
    | inl (selected, chosen) ↦ elim (Result-cases (mode_policy config source parsed a)) [
      | inl (mode, read) ↦ (mode, read, (selected, chosen, ground arith))
      | inr (e, read) ↦ absurd (ground arith)
    ]
    | inr (e, chosen) ↦ absurd (ground arith)
  ]

  granted-Stands :
      {ns : List Narrowed}
      → granted config source parsed a now db ≡ ok ns
      → Stands config source parsed a now db ns
  granted-Stands {ns} h =
      let (act, begun, valid, partner, subject) = granted-Checked {ns = ns} h in
      let (mode, read, (selected, chosen, narrowed)) = granted-Narrowed {ns = ns} h in
      record {
        active = act;
        begun = begun;
        not_over = valid;
        to_partner = same-true parsed.consent_partner_id (some a.partner_id) partner;
        subject = subject;
        mode = mode;
        mode_read = read;
        selected = selected;
        chosen = chosen;
        justified =
            narrow_grants-IsJustified source a.partner_id (requested_of parsed.request_context) mode
              selected narrowed;
      }

-- A permit rests on a stored consent, and names the controllers and scopes that it serves now.
abbrev pub RestsOn :
    Settings
    → Outside
    → ValidateRequest
    → Option ConsentArtefact
    → Time
    → Database
    → Decision
    → Type 0
RestsOn config out parsed row now db d =
    (a : ConsentArtefact) × (row ≡ some a)
    × ((ns : List Narrowed) × (d.grants ≡ some (map grant_of ns))
        × Stands config out.policies parsed a now db ns)

module _ (config : Settings) (out : Outside) (parsed : ValidateRequest) (now : Time)
    (ctx_hash : String) (db : Database) where
  answer_stored-permit :
      (a : ConsentArtefact) (result : Result Refusal (List Narrowed))
      → granted config out.policies parsed a now db ≡ result
      → (answer_stored config out parsed a now ctx_hash result db).0.decision ≡ permit
      → (ns : List Narrowed) × ((answer_stored config out parsed a now ctx_hash result db).0.grants
          ≡ some (map grant_of ns))
        × Stands config out.policies parsed a now db ns
  unfolding answer_stored deny_with permit_stored
  answer_stored-permit a (err r) e h = cc
  answer_stored-permit a (ok ns) e h =
      (ns, refl, granted-Stands config out.policies parsed a now db e)

  validate_row-permit :
      (row : Option ConsentArtefact)
      → (validate_row config out parsed row now ctx_hash db).0.decision ≡ permit
      → RestsOn config out parsed row now db (validate_row config out parsed row now ctx_hash db).0
  unfolding validate_row deny_with
  validate_row-permit none h = cc
  validate_row-permit (some a) h =
      (a, refl, answer_stored-permit a (granted config out.policies parsed a now db) refl h)

  presenter-permit :
      (row : Option ConsentArtefact) (refused : Option String)
      → (refused_presenter config out parsed row now ctx_hash refused db).0.decision ≡ permit
      → RestsOn config out parsed row now db
          (refused_presenter config out parsed row now ctx_hash refused db).0
  unfolding refused_presenter deny_with
  presenter-permit row (some detail) h = cc
  presenter-permit row none h = validate_row-permit row h

module _ (config : Settings) (out : Outside) (parsed : ValidateRequest) (now : Time)
    (db : Database) where
  -- A stored consent is permitted, whether it is presented by its id or was found by lookup, only while
  -- it is active and within its validity, for the partner it was given to and not against the subject
  -- that the caller names, and in use-case mode only if the checks of the use case and of the partner's
  -- policy for it pass. Each controller of the permit has a recorded grant of the consent, and only
  -- scopes of that grant that the caller asks for and, outside use-case mode, that the partner's current
  -- policy for that controller allows.
  pub validate_stored-permit :
      (artefact : Option ConsentArtefact)
      → (validate_stored config out parsed artefact now db).0.decision ≡ permit
      → RestsOn config out parsed
          (found_or_read parsed artefact db)
          now
          db
          (validate_stored config out parsed artefact now db).0
  unfolding validate_stored
  validate_stored-permit artefact h =
      presenter-permit config out parsed now _ db (found_or_read parsed artefact db)
        (if parsed.issue_receipts then issuing_refusal config parsed.partner_id else none) h
