-- ===== src/Accepted/Vouched.antt =====
-- What the checks of another Consent Manager's token establish.
use consent_manager.Base.{
  ◌+◌, ◌<◌, ◌≤◌, String, Bool, true, false, not, ◌||◌, ◌&&◌, Option, none, some, ◌≡◌, refl,
  or_empty, same, has_text, ltb, leb, ◌==◌, arith, truthy, ok, raise_if, raise_if-ok, bind-ok,
  ok-injective, ap, eq-true,
}
use mathlib.Core.Path.{subst}
use consent_manager.Models.Rows.{Time}
use consent_manager.Config.{Settings, TrustedReceiptIssuer, seconds}
use consent_manager.Scopes.{nonempty}
use consent_manager.Policy.Records.{Material}
use consent_manager.Verification.Request.{ValidateRequest, Refusal, subject_mismatch, subject_of}
use consent_manager.Verification.Partners.{Answer, unavailable, answered, get_verification_material}
use consent_manager.Verification.Jws.{JwsHeader}
use consent_manager.Accepted.Issuers.{Key, trusted_issuer}
use consent_manager.Accepted.Tokens.{
  Token, TokenClaims, Issuers, Accepted, always, read_token, check_issuer, check_use, check_status,
  issuer_or_refusal, key_or_refusal, token_or_refusal, active_or_refusal, material_or_refusal,
  accept,
}

-- What `accept` has checked.
pub record Vouched (config : Settings) (out : Issuers) (parsed : ValidateRequest)
    (claims : TokenClaims) (header : JwsHeader) (now : Time) (a : Accepted) : Type 0 where
  pub issuer_trusted : trusted_issuer config claims.iss ≡ some a.trusted
  pub signed :
      (key : Key) × (out.issuer_key a.trusted header.kid ≡ some key)
      × (same header.alg (some key.alg) ≡ true)
      × (out.verify_jws (or_empty parsed.consent_jws) key.pem key.alg ≡ true)
  pub claims_read : read_token claims ≡ some a.token
  pub for_controller : same claims.aud parsed.data_controller ≡ true
  pub from_caller : same (some a.token.presenter) parsed.partner_id ≡ true
  pub presenter_bound :
      (has_text a.trusted.presenter && not (a.token.presenter == a.trusted.presenter)) ≡ false
  pub begun : a.token.nbf ≤ now + seconds 30
  pub not_ended : now < a.token.exp
  pub same_subject :
      subject_mismatch (subject_of parsed.request_context) a.token.sub.type a.token.sub.value none
      ≡ false
  pub active : always config ≡ true → out.remote_status a.trusted a.token.jti ≡ some "active"
  pub policy_read :
      get_verification_material out.policies a.token.presenter parsed.data_controller none
      ≡ answered (some a.material)

issuer_or_refusal-ok :
    (parsed : ValidateRequest) (claims : TokenClaims) (found : Option TrustedReceiptIssuer)
    {trusted : TrustedReceiptIssuer}
    → issuer_or_refusal parsed claims found ≡ ok trusted
    → found ≡ some trusted
unfolding issuer_or_refusal
issuer_or_refusal-ok parsed claims none h = cc
issuer_or_refusal-ok parsed claims (some t) h = cc

key_or_refusal-ok :
    (parsed : ValidateRequest) (claims : TokenClaims) (found : Option Key) {key : Key}
    → key_or_refusal parsed claims found ≡ ok key
    → found ≡ some key
unfolding key_or_refusal
key_or_refusal-ok parsed claims none h = cc
key_or_refusal-ok parsed claims (some k) h = cc

token_or_refusal-ok :
    (parsed : ValidateRequest) (claims : TokenClaims) (found : Option Token) {token : Token}
    → token_or_refusal parsed claims found ≡ ok token
    → found ≡ some token
unfolding token_or_refusal
token_or_refusal-ok parsed claims none h = cc
token_or_refusal-ok parsed claims (some t) h = cc

material_or_refusal-ok :
    (parsed : ValidateRequest) (claims : TokenClaims) (token : Token) (answer : Answer Material)
    {material : Material}
    → material_or_refusal parsed claims token answer ≡ ok material
    → answer ≡ answered (some material)
unfolding material_or_refusal
material_or_refusal-ok parsed claims token unavailable h = cc
material_or_refusal-ok parsed claims token (answered none) h = cc
material_or_refusal-ok parsed claims token (answered (some m)) h = cc

raised_nothing : (test : Bool) (r : Refusal) → raise_if test r ≡ ok tt → test ≡ false
raised_nothing false r h = refl
raised_nothing true r h = cc

active_or_refusal-ok :
    (parsed : ValidateRequest) (claims : TokenClaims) (status : Option String)
    → active_or_refusal parsed claims status ≡ ok tt
    → status ≡ some "active"
unfolding active_or_refusal
active_or_refusal-ok parsed claims none h = cc
active_or_refusal-ok parsed claims (some status) h =
    let active = raised_nothing (not (status == "active")) _ h in
    ap some (eq-true status "active" (ground arith))

module _ (config : Settings) (out : Issuers) (parsed : ValidateRequest) (claims : TokenClaims)
    (header : JwsHeader) (now : Time) where
  check_issuer-ok :
      {trusted : TrustedReceiptIssuer}
      → check_issuer config out parsed claims header ≡ ok trusted
      → (trusted_issuer config claims.iss ≡ some trusted)
        × ((key : Key) × (out.issuer_key trusted header.kid ≡ some key)
            × (same header.alg (some key.alg) ≡ true)
            × (out.verify_jws (or_empty parsed.consent_jws) key.pem key.alg ≡ true))
  unfolding check_issuer
  check_issuer-ok {trusted} h =
      let (some_issuer, h1) = raise_if-ok (not (nonempty config.trusted_receipt_issuers)) _ _ h in
      let (t, named, h2) = bind-ok (issuer_or_refusal parsed claims _) _ h1 in
      let (key, known, h3) = bind-ok (key_or_refusal parsed claims _) _ h2 in
      let (alg, h4) = raise_if-ok (not (same header.alg (some key.alg))) _ _ h3 in
      let (verified, made) =
        raise_if-ok (not (out.verify_jws (or_empty parsed.consent_jws) key.pem key.alg)) _ _ h4 in
      subst
        (λ x.
          (trusted_issuer config claims.iss ≡ some x)
          × ((k : Key) × (out.issuer_key x header.kid ≡ some k)
              × (same header.alg (some k.alg) ≡ true)
              × (out.verify_jws (or_empty parsed.consent_jws) k.pem k.alg ≡ true)))
        (ok-injective made)
        (
          issuer_or_refusal-ok parsed claims _ named,
          (key, key_or_refusal-ok parsed claims _ known, ground arith, ground arith),
        )

  -- What check_use has checked.
  abbrev IsUsed : TrustedReceiptIssuer → Token → Type 0
  IsUsed trusted token =
      (read_token claims ≡ some token)
      × (same claims.aud parsed.data_controller ≡ true)
      × (same (some token.presenter) parsed.partner_id ≡ true)
      × ((has_text trusted.presenter && not (token.presenter == trusted.presenter)) ≡ false)
      × (token.nbf ≤ now + seconds 30)
      × (now < token.exp)
      × (subject_mismatch (subject_of parsed.request_context) token.sub.type token.sub.value none
          ≡ false)

  check_use-IsUsed :
      (trusted : TrustedReceiptIssuer) {token : Token}
      → check_use parsed claims trusted now ≡ ok token
      → IsUsed trusted token
  unfolding check_use
  check_use-IsUsed trusted {token} h =
      let (t, read, h1) = bind-ok (token_or_refusal parsed claims (read_token claims)) _ h in
      let (asked, h2) = raise_if-ok (not (truthy parsed.data_controller)) _ _ h1 in
      let (audience, h3) = raise_if-ok (not (same claims.aud parsed.data_controller)) _ _ h2 in
      let (presented, h4) =
        raise_if-ok
          ((has_text trusted.presenter && not (t.presenter == trusted.presenter))
            || not (same (some t.presenter) parsed.partner_id))
          _ _ h3 in
      let (begun, h5) = raise_if-ok (ltb (now + seconds 30) t.nbf) _ _ h4 in
      let (lasting, h6) = raise_if-ok (leb t.exp now) _ _ h5 in
      let (subject, made) =
        raise_if-ok
          (subject_mismatch (subject_of parsed.request_context) t.sub.type t.sub.value none) _ _
          h6 in
      subst (IsUsed trusted) (ok-injective made) (
        token_or_refusal-ok parsed claims _ read,
        ground arith,
        ground arith,
        ground arith,
        ground arith,
        ground arith,
        subject,
      )

  check_status-active :
      (trusted : TrustedReceiptIssuer) (token : Token)
      → check_status config out parsed claims trusted token ≡ ok tt
      → always config ≡ true
      → out.remote_status trusted token.jti ≡ some "active"
  unfolding check_status
  check_status-active trusted token h asked =
      active_or_refusal-ok parsed claims (out.remote_status trusted token.jti) (rw asked at h)

  pub accept-Vouched :
      {a : Accepted}
      → accept config out parsed claims header now ≡ ok a
      → Vouched config out parsed claims header now a
  unfolding accept
  accept-Vouched h =
      let (trusted, issued, h1) = bind-ok (check_issuer config out parsed claims header) _ h in
      let (token, used, h2) = bind-ok (check_use parsed claims trusted now) _ h1 in
      let (_, status, h3) = bind-ok (check_status config out parsed claims trusted token) _ h2 in
      let (material, read, made) = bind-ok (material_or_refusal parsed claims token _) _ h3 in
      let (named, signed) = check_issuer-ok {trusted = trusted} issued in
      let (claimed, audience, caller, bound, begun, lasting, subject) =
        check_use-IsUsed trusted {token = token} used in
      subst (Vouched config out parsed claims header now) (ok-injective made) (record {
        issuer_trusted = named;
        signed = signed;
        claims_read = claimed;
        for_controller = audience;
        from_caller = caller;
        presenter_bound = bound;
        begun = begun;
        not_ended = lasting;
        same_subject = subject;
        active = check_status-active trusted token status;
        policy_read = material_or_refusal-ok parsed claims token _ read;
      })
