-- ===== src/Accepted/Sound.antt =====
-- What a permit for another Consent Manager's token rests on.
use consent_manager.Base.{
  String, true, false, Option, none, some, ◌≡◌, ◌⊎◌, inl, inr, refl, or_empty, arith, Result, ok,
  err,
}
use consent_manager.Models.Status.{ArtefactStatus}
use consent_manager.Models.Rows.{Time, permit, ConsentArtefact}
use consent_manager.Models.Database.{Database}
use consent_manager.Config.{Settings}
use consent_manager.Consents.Service.{artefact_status}
use consent_manager.Receipts.{Signer}
use consent_manager.Policy.Evaluate.{evaluate}
use consent_manager.Policy.Decides.{Permitted, evaluate-Permitted}
use consent_manager.Verification.Request.{ValidateRequest, Refusal, deny_with}
use consent_manager.Verification.Jws.{JwsHeader}
use consent_manager.Verification.Decide.{Fresh, existing_artefact, decision_from_artefact}
use consent_manager.Accepted.Tokens.{TokenClaims, Issuers, Accepted, accept}
use consent_manager.Accepted.Decide.{
  token_consent, token_grant, other_consent, decide_first, decide_token, settle_token,
  validate_receipt,
}
use consent_manager.Accepted.Vouched.{Vouched, accept-Vouched}

-- What the decision is based on: the stored, still active artefact of the same token, partner and
-- subject; or, at its first presentation, the presenter's policy.
abbrev pub IsBased : ValidateRequest → TokenClaims → Time → Database → Accepted → Type 0
IsBased parsed claims now db a =
    ((b : ConsentArtefact) × (existing_artefact a.token.jti (or_empty parsed.data_controller) db
        ≡ some b)
      × (other_consent b a ≡ false)
      × (artefact_status now b ≡ ArtefactStatus.active))
    ⊎ ((existing_artefact a.token.jti (or_empty parsed.data_controller) db ≡ none)
        × Permitted now a.material (token_consent claims a.token (or_empty parsed.data_controller))
            parsed.request_context (token_grant a.token (or_empty parsed.data_controller)))

module _ (signer : Signer) (meanwhile : Database → Database) (parsed : ValidateRequest)
    (claims : TokenClaims) (fresh : Fresh) (now : Time) (ctx_hash : String) (db : Database) where
  decide_token-IsBased :
      (a : Accepted) (found : Option ConsentArtefact)
      → existing_artefact a.token.jti (or_empty parsed.data_controller) db ≡ found
      → (decide_token signer meanwhile parsed claims fresh now ctx_hash db a found).0.decision
        ≡ permit
      → IsBased parsed claims now db a
  unfolding decide_token decide_first deny_with decision_from_artefact
  decide_token-IsBased a none e h =
      let controller = or_empty parsed.data_controller in
      let obj = token_consent claims a.token controller in
      let grant = token_grant a.token controller in
      let may : (evaluate now a.material obj parsed.request_context (some grant)).permit ≡ true =
        ground arith in
      inr (e, (evaluate-Permitted now a.material obj parsed.request_context grant).0 may)
  decide_token-IsBased a (some b) e h = inl (b, e, ground arith, ground arith)

  settle_token-IsBased :
      (accepted : Result Refusal Accepted)
      → (settle_token signer meanwhile parsed claims fresh now ctx_hash db accepted).0.decision
        ≡ permit
      → (a : Accepted) × (accepted ≡ ok a) × IsBased parsed claims now db a
  unfolding settle_token deny_with
  settle_token-IsBased (err r) h = cc
  settle_token-IsBased (ok a) h = (
    a,
    refl,
    decide_token-IsBased a (existing_artefact a.token.jti (or_empty parsed.data_controller) db) refl
        h,
  )

  -- A token of another Consent Manager is permitted only if its issuer is trusted and its signature
  -- verified with that issuer's key of the header's id and algorithm, it is for the calling controller
  -- and presented by the presenter that it names, its time has begun (30 seconds allowed) and not
  -- ended, the caller's subject does not contradict it, the issuer reports it active where that is
  -- asked for, and the presenter's own policy could be read; and the same token was permitted before
  -- and its artefact is still active, or that policy permits it now.
  pub validate_receipt-permit :
      (config : Settings) (out : Issuers) (header : JwsHeader)
      → (validate_receipt signer meanwhile parsed claims fresh now ctx_hash db config out
          header).0.decision
        ≡ permit
      → (a : Accepted) × Vouched config out parsed claims header now a
        × IsBased parsed claims now db a
  unfolding validate_receipt
  validate_receipt-permit config out header h =
      let (a, passed, based) =
        settle_token-IsBased (accept config out parsed claims header now) h in
      (a, accept-Vouched config out parsed claims header now passed, based)
