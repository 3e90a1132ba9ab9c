-- ===== src/Verification/Sound.antt =====
-- What a permit for a partner-signed consent rests on.
use consent_manager.Base.{
  String, true, false, Option, none, some, ◌≡◌, ◌⊎◌, inl, inr, refl, arith, Result, ok, err,
}
use consent_manager.Models.Rows.{Time, permit, ConsentArtefact}
use consent_manager.Models.Database.{Database}
use consent_manager.Config.{Settings}
use consent_manager.Policy.Records.{ConsentObject, RequestContext}
use consent_manager.Policy.Evaluate.{allowed_by, evaluate}
use consent_manager.Policy.Decides.{Permitted, evaluate-Permitted}
use consent_manager.Verification.Request.{
  ValidateRequest, Refusal, deny_with, subject_mismatch, subject_of, use_case_mode,
}
use consent_manager.Verification.Partners.{answered, get_verification_material}
use consent_manager.Policy.UseCase.{check_use_case}
use consent_manager.Models.Status.{ArtefactStatus}
use consent_manager.Consents.Service.{artefact_status}
use consent_manager.Verification.Jws.{JwsHeader, Libraries}
use consent_manager.Verification.Decide.{Fresh, existing_artefact, decision_from_artefact}
use consent_manager.Verification.Embedded.{Vetted, vet, select_grant, asked_use_case}
use consent_manager.Verification.Validate.{
  reused_jti, repeated, stale, first_time, decide, settle, validate_object,
}

-- What `vet` has checked of a consent, beside the grant selection.
pub record Vouched {P : Type 0} (config : Settings) (lib : Libraries P) (parsed : ValidateRequest)
    (jws : String) (header : JwsHeader) (obj : ConsentObject) (v : Vetted) : Type 0 where
  pub chosen : select_grant parsed obj ≡ ok v.selected
  pub same_subject :
      subject_mismatch
        (subject_of parsed.request_context)
        obj.subject_id.type
        obj.subject_id.value
        none
      ≡ false
  pub policy_read :
      get_verification_material lib.policies obj.aud
        (some v.selected.controller)
        (asked_use_case config parsed)
      ≡ answered (some v.material)
  pub accepts : v.material.policy.allow_partner_consents ≡ true
  pub alg_allowed : allowed_by v.material.policy.allowed_signing_algs header.alg ≡ true
  pub signed : lib.verify_jwt jws v.material.partner.partner_mgmt_id ≡ true
  pub gated :
      use_case_mode config parsed ≡ true
      → (ctx : RequestContext) × (parsed.request_context ≡ some ctx)
        × (check_use_case v.material.policy ctx obj.purpose.code ≡ none)

-- What a permit is based on: on the stored artefact of the same consent, still active and valid; or,
-- at its first presentation, on the freshness of the consent and the partner's policy.
abbrev pub Based : Settings → ValidateRequest → ConsentObject → Vetted → Time → Database → Type 0
Based config parsed obj v now db =
    ((a : ConsentArtefact) × (existing_artefact obj.jti v.selected.controller db ≡ some a)
      × (reused_jti a obj v ≡ false)
      × (artefact_status now a ≡ ArtefactStatus.active))
    ⊎ ((existing_artefact obj.jti v.selected.controller db ≡ none)
        × (stale config now obj.issued_at ≡ false)
        × Permitted now v.material obj parsed.request_context v.selected.grant)

mode_needs_context :
    (config : Settings) (parsed : ValidateRequest)
    → parsed.request_context ≡ none
    → ¬ (use_case_mode config parsed ≡ true)
unfolding use_case_mode
mode_needs_context config parsed e mode = ground arith

module _ {P : Type 0} (config : Settings) (lib : Libraries P) (parsed : ValidateRequest)
    (jws : String) (header : JwsHeader) (obj : ConsentObject) where
  context_gated :
      {v : Vetted} (ctx : Option RequestContext)
      → parsed.request_context ≡ ctx
      → use_case_mode config parsed ≡ true
      → vet config lib parsed jws header obj ≡ ok v
      → (c : RequestContext) × (parsed.request_context ≡ some c)
        × (check_use_case v.material.policy c obj.purpose.code ≡ none)
  unfolding vet
  context_gated {v} none e mode h = absurd (mode_needs_context config parsed e mode)
  context_gated {v} (some c) e mode h = (c, e, ground arith)

  -- Whatever is vetted is vouched for.
  pub vet-Vouched :
      {v : Vetted}
      → vet config lib parsed jws header obj ≡ ok v
      → Vouched config lib parsed jws header obj v
  unfolding vet
  vet-Vouched {v} h = record {
    chosen = ground arith;
    same_subject = ground arith;
    policy_read = ground arith;
    accepts = ground arith;
    alg_allowed = ground arith;
    signed = ground arith;
    gated = λ mode. context_gated parsed.request_context refl mode h;
  }

  repeated-Based :
      (v : Vetted) (a : ConsentArtefact) (now : Time) (ctx_hash : String) (db : Database)
      → (repeated parsed obj v a now ctx_hash db).0.decision ≡ permit
      → (reused_jti a obj v ≡ false) × (artefact_status now a ≡ ArtefactStatus.active)
  unfolding repeated deny_with decision_from_artefact
  repeated-Based v a now ctx_hash db h = ground arith

  first_time-Based :
      (v : Vetted) (fresh : Fresh) (now : Time) (ctx_hash : String) (db : Database)
      → (first_time config lib parsed obj v fresh now ctx_hash db).0.decision ≡ permit
      → (stale config now obj.issued_at ≡ false)
        × ((evaluate now v.material obj parsed.request_context (some v.selected.grant)).permit
            ≡ true)
  unfolding first_time deny_with
  first_time-Based v fresh now ctx_hash db h = ground arith

  decide-Based :
      (v : Vetted) (fresh : Fresh) (now : Time) (ctx_hash : String) (found : Option ConsentArtefact)
      (db : Database)
      → existing_artefact obj.jti v.selected.controller db ≡ found
      → (decide config lib parsed obj v fresh now ctx_hash found db).0.decision ≡ permit
      → Based config parsed obj v now db
  unfolding decide
  decide-Based v fresh now ctx_hash (some a) db e h =
      let (same_consent, active) = repeated-Based v a now ctx_hash db h in
      inl (a, e, same_consent, active)
  decide-Based v fresh now ctx_hash none db e h =
      let (timely, permitted) = first_time-Based v fresh now ctx_hash db h in
      inr (
        e,
        timely,
        (evaluate-Permitted now v.material obj parsed.request_context v.selected.grant).0 permitted,
      )

  settle-Based :
      (vetted : Result Refusal Vetted) (fresh : Fresh) (now : Time) (ctx_hash : String)
      (db : Database)
      → (settle config lib parsed obj vetted fresh now ctx_hash db).0.decision ≡ permit
      → (v : Vetted) × (vetted ≡ ok v) × Based config parsed obj v now db
  unfolding settle deny_with
  settle-Based (err r) fresh now ctx_hash db h = cc
  settle-Based (ok v) fresh now ctx_hash db h = (
    v,
    refl,
    decide-Based v fresh now ctx_hash (existing_artefact obj.jti v.selected.controller db) db refl
        h,
  )

  -- A permit for a partner-signed consent is never given unless the claims were vetted (the grant is
  -- one of the consent, the caller's subject does not contradict it, the partner's policy could be
  -- read, accepts partner-signed consents and the JWS's algorithm, the signature verified under the
  -- partner's keys and, in use-case mode, the gate passed) and it is based on a stored artefact of the
  -- same consent that is still active, or the consent is fresh and the policy permits it.
  pub validate_object-permit :
      (fresh : Fresh) (now : Time) (ctx_hash : String) (db : Database)
      → (validate_object config lib parsed jws header (some obj) fresh now ctx_hash db).0.decision
        ≡ permit
      → (v : Vetted) × Vouched config lib parsed jws header obj v × Based config parsed obj v now db
  unfolding validate_object
  validate_object-permit fresh now ctx_hash db h =
      let (v, vetted, based) =
        settle-Based (vet config lib parsed jws header obj) fresh now ctx_hash db h in
      (v, vet-Vouched vetted, based)
