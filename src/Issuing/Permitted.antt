-- ===== src/Issuing/Permitted.antt =====
-- Tokens are issued only where every controller's own validation permits.
use consent_manager.Base.{
  String, true, false, List, [], ◌∷◌, ◌≡◌, refl, inl, inr, Result, ok, err, Bool-cases,
}
use consent_manager.Models.Rows.{Verdict, permit, deny}
use consent_manager.Models.Database.{Database}
use consent_manager.Verification.Request.{Decision}
use consent_manager.Issuing.Tokens.{is_permit, Decided, before, validate_each}

is_permit-true : (v : Verdict) → is_permit v ≡ true → v ≡ permit
is_permit-true permit h = refl
is_permit-true deny h = cc

module _ (validate_one : String → Database → Decision × Database) where
  -- One decision for each controller in order, each the permit of a validation of its controller, the
  -- first on the given database and each other on the database that the one before it left.
  abbrev pub ArePermits : List String → Database → List Decided → Type 0
  ArePermits [] db [] = Unit
  ArePermits (c ∷ cs) db (d ∷ ds) =
      (d.controller ≡ c)
      × ((validate_one c db).0 ≡ d.decision)
      × (d.decision.decision ≡ permit)
      × ArePermits cs (validate_one c db).1 ds
  ArePermits _ db _ = ⊥

  -- Every controller has its permit, or the answer is no permit.
  abbrev pub AllPermitted : List String → Database → Result Decision (List Decided) → Type 0
  AllPermitted cs db (err d) = is_permit d.decision ≡ false
  AllPermitted cs db (ok ds) = ArePermits cs db ds

  before-AllPermitted :
      (c : String) (cs : List String) (db : Database) (rest : Result Decision (List Decided))
      → (validate_one c db).0.decision ≡ permit
      → AllPermitted cs (validate_one c db).1 rest
      → AllPermitted
          (c ∷ cs)
          db
          (before (record { controller = c; decision = (validate_one c db).0 }) rest)
  before-AllPermitted c cs db (err refused) p h = h
  before-AllPermitted c cs db (ok ds) p h = (refl, refl, p, h)

  pub validate_each-AllPermitted :
      (cs : List String) (db : Database) → AllPermitted cs db (validate_each validate_one cs db).0
  unfolding validate_each
  validate_each-AllPermitted [] db = tt
  validate_each-AllPermitted (c ∷ cs) db =
      let d = (validate_one c db).0 in
      let after = (validate_one c db).1 in
      elim (Bool-cases (is_permit d.decision)) [
        | inr refused ↦ rw refused refused
        | inl permitted ↦ rw permitted (
            before-AllPermitted c cs db (validate_each validate_one cs after).0
              (is_permit-true d.decision permitted) (validate_each-AllPermitted cs after))
      ]
