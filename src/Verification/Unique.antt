-- ===== src/Verification/Unique.antt =====
-- The stored artefacts under /validate: one for each jti and controller, also when another request
-- commits first.
use consent_manager.Base.{
  String, Bool, false, ◌&&◌, Option, none, some, List, [], ◌∷◌, ◌≡◌, inl, inr, refl, arith, ◌==◌,
  Bool-cases, Option-cases,
}
use consent_manager.Models.Rows.{Time, ConsentArtefact, ConsentGrant}
use consent_manager.Models.Database.{Database, add}
use consent_manager.Config.{Settings}
use consent_manager.Receipts.{Signer}
use consent_manager.Policy.Records.{ConsentObject, PartnerRef}
use consent_manager.Policy.Evaluate.{PolicyResult}
use consent_manager.Verification.Request.{ValidateRequest, Decision, deny_with}
use consent_manager.Verification.Jws.{JwsHeader, Libraries}
use consent_manager.Verification.Decide.{
  Fresh, PermitOptions, holds_jti, find_jti, existing_artefact, permit_consent, commit_permit,
  permitted_artefact,
}
use consent_manager.Verification.Outcomes.{
  Outcome, denied, stored, permitted, validate_object-Outcome,
}
use consent_manager.Verification.Validate.{validate_object}

-- The unique constraint uq_artefact_jti_controller: a row with a jti and a controller is the only one
-- with them. A row that lacks either is under no constraint.
abbrev same_given : Option String → Option String → Bool
same_given none y = false
same_given (some x) none = false
same_given (some x) (some y) = x == y

abbrev clashes : ConsentArtefact → ConsentArtefact → Bool
clashes a b = same_given a.object_jti b.object_jti && same_given a.controller_id b.controller_id

abbrev NoClash : ConsentArtefact → List ConsentArtefact → Type 0
NoClash a [] = Unit
NoClash a (b ∷ rows) = (clashes a b ≡ false) × NoClash a rows

abbrev pub IsUnique : List ConsentArtefact → Type 0
IsUnique [] = Unit
IsUnique (a ∷ rows) = NoClash a rows × IsUnique rows

-- A new row that no row of the table holds the jti and the controller of.
find_jti-NoClash :
    (jti controller : String) (b a : ConsentArtefact) (rows : List ConsentArtefact)
    → a.object_jti ≡ some jti
    → a.controller_id ≡ some controller
    → NoClash b rows
    → holds_jti jti controller b ≡ false
    → NoClash b (add a rows)
find_jti-NoClash jti controller b a [] ej ec h n = (ground arith, tt)
find_jti-NoClash jti controller b a (c ∷ rows) ej ec h n =
    (h.0, find_jti-NoClash jti controller b a rows ej ec h.1 n)

IsUnique-add :
    (jti controller : String) (a : ConsentArtefact) (rows : List ConsentArtefact)
    → a.object_jti ≡ some jti
    → a.controller_id ≡ some controller
    → find_jti jti controller rows ≡ none
    → IsUnique rows
    → IsUnique (add a rows)
unfolding find_jti
IsUnique-add jti controller a [] ej ec h u = (tt, tt)
IsUnique-add jti controller a (b ∷ rows) ej ec h u =
    elim (Bool-cases (holds_jti jti controller b)) [
      | inl held ↦ absurd (ground (arith, held, h))
      | inr n ↦ (
        find_jti-NoClash jti controller b a rows ej ec u.0 n,
        IsUnique-add jti controller a rows ej ec (ground (arith, n)) u.1,
      )
    ]

permit_consent-IsUnique :
    (signer : Signer) (fresh : Fresh) (obj : ConsentObject) (grant : ConsentGrant)
    (partner : PartnerRef) (result : PolicyResult) (options : PermitOptions) (now : Time)
    (ctx_hash : String) (db : Database)
    → IsUnique db.artefacts
    → IsUnique
        (permit_consent signer fresh obj grant partner result options now ctx_hash db).1.artefacts
unfolding permit_consent existing_artefact
permit_consent-IsUnique signer fresh obj grant partner result options now ctx_hash db u =
    elim (Option-cases (find_jti obj.jti grant.data_controller db.artefacts)) [
      | inr (winner, e) ↦ rw (e, commit_permit) u
      | inl e ↦
          rw (e, commit_permit)
            (IsUnique-add obj.jti grant.data_controller
              (permitted_artefact fresh obj grant partner result options) db.artefacts refl refl e
              u)
    ]

module _ {P : Type 0} (config : Settings) (lib : Libraries P) (parsed : ValidateRequest)
    (jws : String) (header : JwsHeader) (now : Time) (fresh : Fresh) (ctx_hash : String)
    (db : Database) where
  Outcome-IsUnique :
      (presented : Option ConsentObject) (r : Decision × Database)
      → Outcome lib now fresh ctx_hash db presented r
      → IsUnique db.artefacts
      → IsUnique (lib.meanwhile db).artefacts
      → IsUnique r.1.artefacts
  unfolding deny_with
  Outcome-IsUnique presented r (denied refusal e) u m = rw e u
  Outcome-IsUnique presented r (stored a inside e) u m = rw e u
  Outcome-IsUnique presented r (permitted obj grant partner result options own e) u m = rw e (
      permit_consent-IsUnique lib.signer fresh obj grant partner result options now ctx_hash
        (lib.meanwhile db) m)

  -- No two artefacts ever hold the same jti and controller: every call keeps that, whatever other
  -- requests commit between its reads and its own commit, provided that they keep it.
  pub validate_object-IsUnique :
      (obj : Option ConsentObject)
      → IsUnique db.artefacts
      → IsUnique (lib.meanwhile db).artefacts
      → IsUnique
          (validate_object config lib parsed jws header obj fresh now ctx_hash db).1.artefacts
  validate_object-IsUnique obj =
      Outcome-IsUnique obj (validate_object config lib parsed jws header obj fresh now ctx_hash db)
        (validate_object-Outcome config lib parsed jws header now fresh ctx_hash db obj)
