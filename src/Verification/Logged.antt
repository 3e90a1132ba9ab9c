-- ===== src/Verification/Logged.antt =====
-- The decision log and the stored consents under /validate.
use consent_manager.Base.{
  String, Option, some, ◌≡◌, ◌⊎◌, inl, inr, refl, Option-cases, Bool-cases, ltb, arith, ◌≢◌, ◌≤◌,
  ◌<◌,
}
use consent_manager.Models.Status.{ArtefactStatus}
use consent_manager.Consents.Service.{artefact_status}
use consent_manager.Models.Rows.{Time, ConsentArtefact, ConsentGrant, DecisionLog, permit, deny}
use consent_manager.Models.Database.{Database, add}
use consent_manager.Config.{Settings}
use consent_manager.Receipts.{Signer}
use consent_manager.Policy.Records.{ConsentObject, PartnerRef}
use consent_manager.Policy.Evaluate.{PolicyResult}
use consent_manager.Verification.Request.{ValidateRequest, Decision, deny_with}
use consent_manager.Verification.Jws.{JwsHeader, Libraries}
use consent_manager.Verification.Decide.{
  Fresh, PermitOptions, existing_artefact, decision_for, decision_from_artefact, permit_consent,
  commit_permit,
}
use consent_manager.Verification.Outcomes.{
  Outcome, denied, stored, permitted, validate_object-Outcome, IsStored, existing_artefact-IsStored,
}
use consent_manager.Verification.Validate.{validate_object}

-- One row is appended to the log, with the decision's verdict and reason.
abbrev pub Logged : Decision → Database → Database → Type 0
Logged d before after =
    (log : DecisionLog) × (after.decisions ≡ add log before.decisions)
    × (log.decision ≡ d.decision)
    × (log.reason_code ≡ d.reason_code)

-- The decision that a stored artefact gives: while it is active and not past its validity a permit of
-- its id, its scopes and its end, and after that a denial.
abbrev pub IsReadOf : ConsentArtefact → Time → Decision → Type 0
IsReadOf a now d =
    ((a.status ≡ ArtefactStatus.active)
      × (now ≤ a.valid_until)
      × (d.decision ≡ permit)
      × (d.consent_id ≡ some a.id)
      × (d.effective_data_scopes ≡ some a.effective_data_scopes)
      × (d.valid_until ≡ some a.valid_until))
    ⊎ (((a.status ≢ ArtefactStatus.active) ⊎ (a.valid_until < now)) × (d.decision ≡ deny))

status_cases :
    (s : ArtefactStatus)
    → (s ≡ ArtefactStatus.active) ⊎ (s ≡ ArtefactStatus.revoked) ⊎ (s ≡ ArtefactStatus.expired)
status_cases ArtefactStatus.active = inl refl
status_cases ArtefactStatus.revoked = inr (inl refl)
status_cases ArtefactStatus.expired = inr (inr refl)

decision_from_artefact-IsReadOf :
    (a : ConsentArtefact) (now : Time) → IsReadOf a now (decision_from_artefact a now)
unfolding decision_from_artefact decision_for artefact_status
decision_from_artefact-IsReadOf a now = elim (status_cases a.status) [
  | inl active ↦ elim (Bool-cases (ltb a.valid_until now)) [
    | inl over ↦ rw (active, over) (inr (inr (ground arith), refl))
    | inr lasting ↦ rw (active, lasting) (inl (refl, ground arith, refl, refl, refl, refl))
  ]
  | inr (inl revoked) ↦ rw revoked (inr (inl (λ e. cc e), refl))
  | inr (inr expired) ↦ rw expired (inr (inl (λ e. cc e), refl))
]

-- Nothing is written, and the decision is read from a stored artefact of the presented consent.
abbrev pub IsRead : Option ConsentObject → Time → Decision → Database → Database → Type 0
IsRead presented now d before after =
    (after ≡ before) × ((a : ConsentArtefact) × IsStored presented before a × IsReadOf a now d)

permit_consent-Logged :
    (signer : Signer) (fresh : Fresh) (obj : ConsentObject) (grant : ConsentGrant)
    (partner : PartnerRef) (result : PolicyResult) (options : PermitOptions) (now : Time)
    (ctx_hash : String) (db : Database)
    → let (d, after) =
        permit_consent signer fresh obj grant partner result options now ctx_hash db in
      Logged d db after ⊎ IsRead (some obj) now d db after
unfolding permit_consent commit_permit
permit_consent-Logged signer fresh obj grant partner result options now ctx_hash db =
    elim (Option-cases (existing_artefact obj.jti grant.data_controller db)) [
      | inr (winner, e) ↦
          rw (e, commit_permit)
            (inr (
              refl,
              (
                winner,
                existing_artefact-IsStored obj grant.data_controller db e,
                decision_from_artefact-IsReadOf winner now,
              ),
            ))
      | inl e ↦ rw (e, commit_permit) (inl (_, refl, refl, refl))
    ]

module _ {P : Type 0} (config : Settings) (lib : Libraries P) (parsed : ValidateRequest)
    (jws : String) (header : JwsHeader) (now : Time) (fresh : Fresh) (ctx_hash : String)
    (db : Database) where
  Outcome-Logged :
      (presented : Option ConsentObject) (r : Decision × Database)
      → Outcome lib now fresh ctx_hash db presented r
      → (before : Database) × ((before ≡ db) ⊎ (before ≡ lib.meanwhile db))
        × (Logged r.0 before r.1 ⊎ IsRead presented now r.0 before r.1)
  unfolding deny_with
  Outcome-Logged presented r (denied refusal e) = (db, inl refl, rw e (inl (_, refl, refl, refl)))
  Outcome-Logged presented r (stored a inside e) =
      (db, inl refl, rw e (inr (refl, (a, inside, decision_from_artefact-IsReadOf a now))))
  Outcome-Logged presented r (permitted obj grant partner result options own e) = (
    lib.meanwhile db,
    inr refl,
    rw (e, own)
        (permit_consent-Logged lib.signer fresh obj grant partner result options now ctx_hash
          (lib.meanwhile db)),
  )

  -- Every call on a partner-signed consent either appends exactly one row to the decision log, with
  -- the verdict and the reason of its decision, or it writes nothing and its decision is read from a
  -- stored artefact of the same consent, a permit while that is active and within its validity and a
  -- denial afterwards: a repeated presentation leaves no row.
  pub validate_object-Logged :
      (obj : Option ConsentObject)
      → let (d, after) = validate_object config lib parsed jws header obj fresh now ctx_hash db in
        (before : Database) × ((before ≡ db) ⊎ (before ≡ lib.meanwhile db))
        × (Logged d before after ⊎ IsRead obj now d before after)
  validate_object-Logged obj =
      Outcome-Logged obj (validate_object config lib parsed jws header obj fresh now ctx_hash db)
        (validate_object-Outcome config lib parsed jws header now fresh ctx_hash db obj)
