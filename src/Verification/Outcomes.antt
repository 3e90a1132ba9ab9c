-- ===== src/Verification/Outcomes.antt =====
-- The ways in which a validation of a partner-signed consent ends.
use mathlib.Core.List.{Memᴰ}
use consent_manager.Base.{
  String, Option, none, some, List, [], ◌∷◌, ◌≡◌, inl, inr, refl, sym, ap, arith, same-true, Result,
  ok, err, Bool-cases,
}
use consent_manager.Models.Rows.{Time, ConsentArtefact, ConsentGrant}
use consent_manager.Models.Database.{Database}
use consent_manager.Config.{Settings}
use consent_manager.Policy.Records.{ConsentObject, PartnerRef}
use consent_manager.Policy.Evaluate.{PolicyResult, evaluate}
use consent_manager.Verification.Request.{
  ValidateRequest, Decision, Refusal, deny_with, subject_mismatch, subject_of,
}
use consent_manager.Verification.Jws.{JwsHeader, Libraries}
use consent_manager.Verification.Decide.{
  Fresh, PermitOptions, holds_jti, find_jti, existing_artefact, decision_from_artefact,
  permit_consent,
}
use consent_manager.Verification.Embedded.{Vetted, vet}
use consent_manager.Verification.Validate.{
  reused_jti, stale, repeated, first_time, decide, settle, validate_object,
}

-- A stored artefact of the presented consent.
abbrev pub IsStored : Option ConsentObject → Database → ConsentArtefact → Type 0
IsStored presented db a =
    (obj : ConsentObject) × (presented ≡ some obj)
    × (a.object_jti ≡ some obj.jti)
    × Memᴰ a db.artefacts

artefact-injective :
    {a b : ConsentArtefact} → ◌≡◌ {A = Option ConsentArtefact} (some a) (some b) → a ≡ b
artefact-injective h = cc

find_jti-stored :
    (jti controller : String) (rows : List ConsentArtefact) {a : ConsentArtefact}
    → find_jti jti controller rows ≡ some a
    → (a.object_jti ≡ some jti) × Memᴰ a rows
unfolding find_jti
find_jti-stored jti controller [] h = cc
find_jti-stored jti controller (r ∷ rows) {a} h = elim (Bool-cases (holds_jti jti controller r)) [
  | inl held ↦
      let same_row : r ≡ a = artefact-injective (rw held at h) in
      let own = same-true r.object_jti (some jti) (ground arith) in
      (cc (own, ap (λ (x : ConsentArtefact). x.object_jti) same_row), Memᴰ.head (sym same_row))
  | inr other ↦
      let (own, inside) = find_jti-stored jti controller rows (rw other at h) in
      (own, Memᴰ.tail inside)
]

pub existing_artefact-IsStored :
    (obj : ConsentObject) (controller : String) (db : Database) {a : ConsentArtefact}
    → existing_artefact obj.jti controller db ≡ some a
    → IsStored (some obj) db a
unfolding existing_artefact
existing_artefact-IsStored obj controller db h =
    let (own, inside) = find_jti-stored obj.jti controller db.artefacts h in
    (obj, refl, own, inside)

module _ {P : Type 0} (lib : Libraries P) (now : Time) (fresh : Fresh) (ctx_hash : String)
    (db : Database) where
  -- How a call ends: by `_deny`, with a stored decision, or by `_permit` on the database that other
  -- requests have left.
  pub data Outcome (presented : Option ConsentObject) (r : Decision × Database) : Type 0 where
    denied : (refusal : Refusal) → r ≡ deny_with refusal now ctx_hash db → Outcome presented r
    stored :
        (a : ConsentArtefact)
        → IsStored presented db a
        → r ≡ (decision_from_artefact a now, db)
        → Outcome presented r
    permitted :
        (obj : ConsentObject) (grant : ConsentGrant) (partner : PartnerRef) (result : PolicyResult)
        (options : PermitOptions)
        → presented ≡ some obj
        → r
          ≡ permit_consent lib.signer fresh obj grant partner result options now ctx_hash
              (lib.meanwhile db)
        → Outcome presented r

module _ {P : Type 0} (config : Settings) (lib : Libraries P) (parsed : ValidateRequest)
    (jws : String) (header : JwsHeader) (now : Time) (fresh : Fresh) (ctx_hash : String)
    (db : Database) where
  repeated-Outcome :
      (obj : ConsentObject) (v : Vetted) (a : ConsentArtefact)
      → IsStored (some obj) db a
      → Outcome lib now fresh ctx_hash db (some obj) (repeated parsed obj v a now ctx_hash db)
  unfolding repeated
  repeated-Outcome obj v a inside = elim (Bool-cases (reused_jti a obj v)) [
    | inl reused ↦ rw reused (denied _ refl)
    | inr same_consent ↦
        rw same_consent
          (elim (Bool-cases (
            subject_mismatch (subject_of parsed.request_context) a.subject_id_type
              a.subject_id_value none)) [
                | inl other ↦ rw other (denied _ refl)
                | inr fits ↦ rw fits (stored a inside refl)
              ])
  ]

  first_time-Outcome :
      (obj : ConsentObject) (v : Vetted)
      → Outcome lib now fresh ctx_hash db
          (some obj)
          (first_time config lib parsed obj v fresh now ctx_hash db)
  unfolding first_time
  first_time-Outcome obj v = elim (Bool-cases (stale config now obj.issued_at)) [
    | inl old ↦ rw old (denied _ refl)
    | inr timely ↦
        rw timely
          (elim (Bool-cases
            (evaluate now v.material obj parsed.request_context (some v.selected.grant)).permit) [
              | inr no_permit ↦ rw no_permit (denied _ refl)
              | inl may ↦ rw may (permitted _ _ _ _ _ refl refl)
            ])
  ]

  decide-Outcome :
      (obj : ConsentObject) (v : Vetted) (found : Option ConsentArtefact)
      → existing_artefact obj.jti v.selected.controller db ≡ found
      → Outcome lib now fresh ctx_hash db
          (some obj)
          (decide config lib parsed obj v fresh now ctx_hash found db)
  unfolding decide
  decide-Outcome obj v none e = first_time-Outcome obj v
  decide-Outcome obj v (some a) e =
      repeated-Outcome obj v a (existing_artefact-IsStored obj v.selected.controller db e)

  settle-Outcome :
      (obj : ConsentObject) (vetted : Result Refusal Vetted)
      → Outcome lib now fresh ctx_hash db
          (some obj)
          (settle config lib parsed obj vetted fresh now ctx_hash db)
  unfolding settle
  settle-Outcome obj (err r) = denied r refl
  settle-Outcome obj (ok v) =
      decide-Outcome obj v (existing_artefact obj.jti v.selected.controller db) refl

  pub validate_object-Outcome :
      (obj : Option ConsentObject)
      → Outcome lib now fresh ctx_hash db obj
          (validate_object config lib parsed jws header obj fresh now ctx_hash db)
  unfolding validate_object
  validate_object-Outcome none = denied _ refl
  validate_object-Outcome (some obj) = settle-Outcome obj (vet config lib parsed jws header obj)
