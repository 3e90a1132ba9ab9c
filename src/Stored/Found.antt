-- ===== src/Stored/Found.antt =====
-- What a permit by lookup rests on.
use mathlib.Core.Path.{subst}
use consent_manager.Base.{
  String, Bool, true, false, ◌&&◌, truthy, given_text, or_empty, arith, if◌then◌else◌, sym, Option,
  none, some, ◌≡◌, ◌⊎◌, refl, ap, arith, inl, inr, Bool-cases,
}
use consent_manager.Models.Rows.{Time, SubjectId, ConsentArtefact}
use consent_manager.Models.Database.{Database}
use consent_manager.Stored.Lookup.{
  LookupKey, look_up, key_of, lookup_key, with_consent, answer_found, answer_lookup,
  validate_lookup,
}
use consent_manager.Models.Rows.{permit}
use consent_manager.Config.{Settings}
use consent_manager.Scopes.{member}
use consent_manager.Verification.Request.{
  ValidateRequest, Decision, deny_with, subject_of, use_case_of, use_case_mode,
}
use consent_manager.Stored.Permit.{Outside}
use consent_manager.Stored.Validate.{found_or_read}
use consent_manager.Stored.Sound.{RestsOn, validate_stored-permit}
use consent_manager.Stored.First.{Answers, look_up-Answers}

-- The caller is one of the configured presenters.
abbrev pub IsPresenter : Settings → ValidateRequest → Type 0
IsPresenter config parsed =
    (presenter : String) × (parsed.partner_id ≡ some presenter)
    × (member presenter config.receipt_presenters ≡ true)

-- The key that a request gives: its subject, and either the partner and the use case of a configured
-- presenter or the partner and the data controller of a registry.
abbrev pub IsKey : Settings → ValidateRequest → LookupKey → Type 0
IsKey config parsed k =
    (subject_of parsed.request_context ≡ some k.subject)
    × (((k.by_use_case ≡ true)
          × IsPresenter config parsed
          × (parsed.consent_partner_id ≡ some k.partner)
          × (use_case_of parsed.request_context ≡ some k.key))
        ⊎ ((k.by_use_case ≡ false)
            × (use_case_mode config parsed ≡ false)
            × (parsed.partner_id ≡ some k.partner)
            × (parsed.data_controller ≡ some k.key)))

use_case_mode-IsPresenter :
    (config : Settings) (parsed : ValidateRequest)
    → use_case_mode config parsed ≡ true
    → IsPresenter config parsed
unfolding use_case_mode
use_case_mode-IsPresenter config parsed h =
    (or_empty parsed.partner_id, given_text parsed.partner_id (ground arith), ground arith)

key-injective : {k k' : LookupKey} → ◌≡◌ {A = Option LookupKey} (some k) (some k') → k ≡ k'
key-injective h = cc

key_of-made :
    (mode : Bool) (subject : Option SubjectId) (partner key : Option String) {k : LookupKey}
    → key_of mode subject partner key ≡ some k
    → (subject ≡ some k.subject)
      × (mode ≡ k.by_use_case)
      × (partner ≡ some k.partner)
      × (key ≡ some k.key)
unfolding key_of
key_of-made mode none partner key h = cc
key_of-made mode (some s) none key h = cc
key_of-made mode (some s) (some p) none h = absurd (ground arith)
key_of-made mode (some s) (some p) (some c) h =
    elim (Bool-cases (truthy (some p) && truthy (some c))) [
      | inr empty ↦ absurd (cc (rw empty at h))
      | inl given ↦
          let made = key-injective (rw given at h) in
          (
            ap (λ (k : LookupKey). some k.subject) made,
            ap (λ (k : LookupKey). k.by_use_case) made,
            ap (λ (k : LookupKey). some k.partner) made,
            ap (λ (k : LookupKey). some k.key) made,
          )
    ]

lookup_key-IsKey :
    (config : Settings) (parsed : ValidateRequest) {k : LookupKey}
    → lookup_key config parsed ≡ some k
    → IsKey config parsed k
unfolding lookup_key
lookup_key-IsKey config parsed {k} h = elim (Bool-cases (use_case_mode config parsed)) [
  | inl mode ↦
      let (subject, same_mode, partner, key) =
        key_of-made true (subject_of parsed.request_context) parsed.consent_partner_id
          (use_case_of parsed.request_context) (rw mode at h) in
      (subject, inl (sym same_mode, use_case_mode-IsPresenter config parsed mode, partner, key))
  | inr direct ↦
      let (subject, same_mode, partner, key) =
        key_of-made false (subject_of parsed.request_context) parsed.partner_id
          parsed.data_controller (rw direct at h) in
      (subject, inr (sym same_mode, direct, partner, key))
]

partner-key :
    (config : Settings) (parsed : ValidateRequest) (k : LookupKey)
    → IsKey config parsed k
    → (if k.by_use_case then parsed.consent_partner_id else some k.partner) ≡ some k.partner
partner-key config parsed k (subject, inl (by_case, presenter, partner, key)) = rw by_case partner
partner-key config parsed k (subject, inr (direct, mode, partner, key)) = rw direct refl

-- The request with a consent's id, for a partner.
abbrev pub asked_with : ValidateRequest → Option String → ConsentArtefact → ValidateRequest
asked_with parsed partner a = record parsed { consent_id = some a.id; consent_partner_id = partner }

module _ (config : Settings) (out : Outside) (parsed : ValidateRequest) (now : Time)
    (db : Database) where
  -- A permit for a held consent of the key, checked for the key's partner.
  abbrev pub IsFound : LookupKey → Decision → Type 0
  IsFound k d =
      (a : ConsentArtefact) × Answers k now db.artefacts (some a)
      × RestsOn config out (asked_with parsed (some k.partner) a) (some a) now db d

  answer_found-permit :
      (k : LookupKey) (found : Option ConsentArtefact)
      → IsKey config parsed k
      → Answers k now db.artefacts found
      → (answer_found config out parsed k found now db).0.decision ≡ permit
      → IsFound k (answer_found config out parsed k found now db).0
  unfolding answer_found deny_with found_or_read
  answer_found-permit k none own answers h = cc
  answer_found-permit k (some a) own answers h = (
    a,
    answers,
    subst
        (λ p.
          RestsOn config out (asked_with parsed p a) (some a) now db
            (answer_found config out parsed k (some a) now db).0)
        (partner-key config parsed k own)
        (validate_stored-permit config out (with_consent parsed k a) now db (some a) h),
  )

  answer_lookup-permit :
      (wanted : Option LookupKey)
      → lookup_key config parsed ≡ wanted
      → (answer_lookup config out parsed wanted now db).0.decision ≡ permit
      → (k : LookupKey) × IsKey config parsed k
        × IsFound k (answer_lookup config out parsed wanted now db).0
  unfolding answer_lookup
  answer_lookup-permit none e h = cc
  answer_lookup-permit (some k) e h =
      let own = lookup_key-IsKey config parsed {k = k} e in
      (k, own, answer_found-permit k (look_up k now db) own (look_up-Answers k now db) h)

  -- A request without a consent is permitted only with a key: its subject, and the partner and use case
  -- that a configured presenter names or the partner and controller of a registry's call. The permit
  -- rests on the first stored consent that answers the key, and on the state, subject, policy and scope
  -- conditions of a stored consent for the key's partner. That a partner-signed consent is unknown by
  -- its id is no such condition: a lookup may find one.
  pub validate_lookup-permit :
      (validate_lookup config out parsed now db).0.decision ≡ permit
      → (k : LookupKey) × IsKey config parsed k
        × IsFound k (validate_lookup config out parsed now db).0
  unfolding validate_lookup
  validate_lookup-permit h = answer_lookup-permit (lookup_key config parsed) refl h
