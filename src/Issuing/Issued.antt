-- ===== src/Issuing/Issued.antt =====
-- What an answer of VerificationService._validate_and_issue that permits rests on.
use consent_manager.Base.{
  String, true, false, ◌≢◌, inl, inr, Bool-cases, Option, none, some, List, ◌≡◌, refl, Result, ok,
  err, ap, or_empty,
}
use consent_manager.Models.Rows.{Time, permit}
use consent_manager.Models.Database.{Database}
use consent_manager.Policy.Records.{ConsentObject, one_shape}
use consent_manager.Verification.Request.{ValidateRequest, Decision, deny_with}
use consent_manager.Issuing.Asked.{
  MayIssue, issuing_refusal-MayIssue, AreAsked, controllers_of-AreAsked, not_token,
  consent_object-one_shape,
}
use consent_manager.Verification.Jws.{JwsHeader, decode_jws, consent_object}
use consent_manager.Exchange.Tokens.{issuing_refusal}
use consent_manager.Issuing.Dispatch.{Service, is_token, validate_jws}
use consent_manager.Issuing.Tokens.{
  is_permit, Issuer, Decided, validate_each, controllers_of, permits_of, issue_decided,
  issue_object, consent_in, unless_refused, validate_and_issue,
}
use consent_manager.Issuing.Permitted.{ArePermits, AllPermitted, validate_each-AllPermitted}
use consent_manager.Issuing.Signed.{
  answer-injective, AreTokens, with_tokens-AreTokens, permits_of-AreOf,
}

refused_permit : {a d : Decision} → a ≡ d → is_permit a.decision ≡ false → d.decision ≡ permit → ⊥
refused_permit h p permitted =
    let same : is_permit permit ≡ false =
      cc (ap (λ (x : Decision). is_permit x.decision) h, ap is_permit permitted, p) in
    cc

module _ {P : Type 0} (s : Service P) (issuer : Issuer) (now : Time)
    (parsed : ValidateRequest) where
  -- The answer's tokens are of these decisions.
  abbrev pub HasTokens : ConsentObject → List Decided → Decision → Type 0
  HasTokens obj ds d =
      (tokens : List (String × String)) × (d.receipts ≡ some tokens)
      × AreTokens s issuer
          (record { aud = obj.aud; purpose = obj.purpose; issued_at = obj.issued_at })
          (or_empty parsed.partner_id) ds tokens

  -- VerificationService.validate for one of the controllers, with new ids of its own.
  abbrev pub own_validation : String → Database → Decision × Database
  own_validation c db =
      validate_jws s now (record parsed { data_controller = some c; issue_receipts = false })
        (issuer.fresh c) db

  -- Every controller that tokens are asked for has a permit of its own validation and a token.
  abbrev pub IsVouched : ConsentObject → Database → Decision → Type 0
  IsVouched obj db d =
      (cs : List String) × AreAsked parsed obj cs
      × ((ds : List Decided) × ArePermits own_validation cs db ds × HasTokens obj ds d)

  issue_decided-IsVouched :
      (obj : ConsentObject) (cs : List String) (db : Database) (r : Result Decision (List Decided))
      (last : Database) {d : Decision} {after : Database}
      → AllPermitted own_validation cs db r
      → issue_decided s issuer now parsed obj (r, last) ≡ some (d, after)
      → d.decision ≡ permit
      → (ds : List Decided) × ArePermits own_validation cs db ds × HasTokens obj ds d
  unfolding issue_decided
  issue_decided-IsVouched obj cs db (err refused) last {d} p h permitted =
      absurd (refused_permit (answer-injective h) p permitted)
  issue_decided-IsVouched obj cs db (ok ds) last {d} p h permitted = (
    ds,
    p,
    with_tokens-AreTokens s issuer
        (record { aud = obj.aud; purpose = obj.purpose; issued_at = obj.issued_at })
        (or_empty parsed.partner_id) now ds (permits_of ds) last (permits_of-AreOf ds) h,
  )

  issue_object-IsVouched :
      (found : Option ConsentObject) (db : Database) {d : Decision} {after : Database}
      → ((obj : ConsentObject) → found ≡ some obj → one_shape obj ≡ true)
      → issue_object s issuer now parsed found db ≡ some (d, after)
      → d.decision ≡ permit
      → (obj : ConsentObject) × (found ≡ some obj) × IsVouched obj db d
  unfolding issue_object deny_with
  issue_object-IsVouched none db {d} shaped h permitted =
      absurd (refused_permit (answer-injective h) refl permitted)
  issue_object-IsVouched (some obj) db shaped h permitted =
      let cs = controllers_of parsed obj in
      let validated = validate_each own_validation cs db in
      let sound = validate_each-AllPermitted own_validation cs db in
      (
        obj,
        refl,
        (
          cs,
          controllers_of-AreAsked parsed obj (shaped obj refl),
          issue_decided-IsVouched obj cs db validated.0 validated.1 sound h permitted,
        ),
      )

  -- The JWS is a consent of one of the two shapes, and its header is not a token's.
  abbrev pub IsConsent : ConsentObject → Type 0
  IsConsent obj =
      (claims : P) × (header : JwsHeader) × (decode_jws s.lib (or_empty parsed.consent_jws)
        ≡ some (claims, header))
      × (header.typ ≢ some "consent-token+jwt")
      × (header.typ ≢ some "consent-receipt+jwt")
      × (consent_object s.lib claims ≡ some obj)

  consent_in-IsConsent :
      (decoded : Option (P × JwsHeader)) {obj : ConsentObject}
      → decode_jws s.lib (or_empty parsed.consent_jws) ≡ decoded
      → consent_in s issuer now parsed decoded ≡ some obj
      → IsConsent obj
  unfolding consent_in
  consent_in-IsConsent none e h = cc
  consent_in-IsConsent (some (claims, header)) e h = elim (Bool-cases (is_token header.typ)) [
    | inl token ↦ absurd (cc (rw token at h))
    | inr other ↦
        let (no_token, no_receipt) = not_token header.typ other in
        (claims, header, e, no_token, no_receipt, rw other at h)
  ]

  unless_refused-IsVouched :
      (refused : Option String) (db : Database) {d : Decision} {after : Database}
      → unless_refused s issuer now parsed refused db ≡ some (d, after)
      → d.decision ≡ permit
      → (refused ≡ none) × ((obj : ConsentObject) × IsConsent obj × IsVouched obj db d)
  unfolding unless_refused deny_with
  unless_refused-IsVouched (some detail) db h permitted =
      absurd (refused_permit (answer-injective h) refl permitted)
  unless_refused-IsVouched none db h permitted =
      let decoded = decode_jws s.lib (or_empty parsed.consent_jws) in
      let shaped = λ (obj : ConsentObject) (e : consent_in s issuer now parsed decoded ≡ some obj).
        let (claims, header, read, no_token, no_receipt, made) =
          consent_in-IsConsent decoded {obj = obj} refl e in
        consent_object-one_shape s.lib claims {obj = obj} made in
      let (obj, found, vouched) =
        issue_object-IsVouched (consent_in s issuer now parsed decoded) db shaped h permitted in
      (refl, (obj, consent_in-IsConsent decoded {obj = obj} refl found, vouched))

  -- An answer of validate_and_issue that permits is given only where the exchange role is configured
  -- and to a configured presenter, for a JWS that is a consent and no token. The controllers are the
  -- one that the request names, else all of the consent. The validation of each permits, the first on
  -- the database of the call and each other on the one that the validation before it left. The answer
  -- holds one token for each of these decisions, in order: signed claims with the decision's consent,
  -- controller, subject, scopes and end, the consent's partner and purpose, and the presenter.
  pub validate_and_issue-permit :
      (db : Database) {d : Decision} {after : Database}
      → validate_and_issue s issuer now parsed db ≡ some (d, after)
      → d.decision ≡ permit
      → MayIssue s.config parsed × ((obj : ConsentObject) × IsConsent obj × IsVouched obj db d)
  unfolding validate_and_issue
  validate_and_issue-permit db h permitted =
      let (allowed, rest) =
        unless_refused-IsVouched (issuing_refusal s.config parsed.partner_id) db h permitted in
      (issuing_refusal-MayIssue s.config parsed allowed, rest)
