-- ===== src/Issuing/Tokens.antt =====
-- VerificationService._validate_and_issue.
use consent_manager.Base.{
  String, Bool, true, false, Option, none, some, List, [], ◌∷◌, map, truthy, or_empty, Result, ok,
  err, if◌then◌else◌,
}
use consent_manager.Models.Status.{ReasonCode}
use consent_manager.Models.Rows.{Time, ConsentGrant, Verdict, permit, deny}
use consent_manager.Models.Database.{Database}
use consent_manager.Policy.Records.{ConsentObject}
use consent_manager.Verification.Request.{ValidateRequest, Decision, refusal, deny_with, bare}
use consent_manager.Verification.Jws.{JwsHeader, decode_jws, consent_object}
use consent_manager.Verification.Decide.{Fresh}
use consent_manager.Verification.Validate.{undecodable}
use consent_manager.Exchange.Tokens.{
  TokenSource, TokenClaims, Permit, issuing_refusal, permit_of, issue, earlier,
}
use consent_manager.Issuing.Dispatch.{Service, is_token, validate_jws}

abbrev pub is_permit : Verdict → Bool
is_permit permit = true
is_permit deny = false

-- What the issuer adds: the signed form of a token's claims, and for each controller a new id of its
-- token and of the rows of its permit.
pub record Issuer : Type 0 where
  pub sign_jws : TokenClaims → String
  pub jtis : String → String
  pub fresh : String → Fresh

-- A controller with its decision.
pub record Decided : Type 0 where
  pub controller : String
  pub decision : Decision

abbrev pub before : Decided → Result Decision (List Decided) → Result Decision (List Decided)
before d (err refused) = err refused
before d (ok rest) = ok (d ∷ rest)

-- The loop over the controllers: the first decision that is no permit is returned. The controllers of
-- a consent are distinct, so that the code's dict keeps one decision for each.
unfoldable pub validate_each :
    (String → Database → Decision × Database)
    → List String
    → Database
    → Result Decision (List Decided) × Database
validate_each validate_one [] db = (ok [], db)
validate_each validate_one (c ∷ cs) db =
    let (d, after) = validate_one c db in
    let (rest, last) = validate_each validate_one cs after in
    if is_permit d.decision
    then (before (record { controller = c; decision = d }) rest, last)
    else (err d, after)

unfoldable pub controllers_in : Option (List ConsentGrant) → ConsentObject → List String
controllers_in (some grants) obj = map (λ (g : ConsentGrant). g.data_controller) grants
controllers_in none obj = or_empty obj.data_controller ∷ []

-- The controllers that tokens are asked for.
unfoldable pub controllers_of : ValidateRequest → ConsentObject → List String
unfolding controllers_in
controllers_of parsed obj =
    if truthy parsed.data_controller
    then or_empty parsed.data_controller ∷ []
    else controllers_in obj.grants obj

-- Each controller with its permit, as a token needs it; None where a decision lacks a field, on which
-- the code raises.
abbrev pub permits_with :
    String → Option Permit → Option (List (String × Permit)) → Option (List (String × Permit))
permits_with c (some p) (some ps) = some ((c, p) ∷ ps)
permits_with c _ _ = none

unfoldable pub permits_of : List Decided → Option (List (String × Permit))
permits_of [] = some []
permits_of (d ∷ ds) = permits_with d.controller (permit_of d.decision) (permits_of ds)

unfoldable pub issue_permits :
    {P : Type 0}
    → Service P
    → Issuer
    → TokenSource
    → String
    → Time
    → List (String × Permit)
    → Database
    → List (String × String) × Database
issue_permits s issuer consent presenter now [] db = ([], db)
issue_permits s issuer consent presenter now ((c, p) ∷ ps) db =
    let (token, after) = issue s.config consent p presenter (issuer.jtis c) now db in
    let (tokens, last) = issue_permits s issuer consent presenter now ps after in
    ((c, issuer.sign_jws token) ∷ tokens, last)

-- The one decision, or one for all with the earliest end.
unfoldable pub earliest : Permit → List (String × Permit) → Time
earliest p [] = p.valid_until
earliest p ((c, q) ∷ ps) = earlier p.valid_until (earliest q ps)

unfoldable pub shared : Time → List Decided → List (String × Permit) → Decision
unfolding earliest
shared now (d ∷ []) ps = d.decision
shared now ds [] = bare permit ReasonCode.ok now
shared now ds ((c, p) ∷ ps) = record (bare permit ReasonCode.ok now) {
  subject_id = some p.subject_id;
  valid_until = some (earliest p ps);
}

abbrev pub grant_of : String × Permit → String × List String
grant_of (c, p) = (c, p.scopes)

unfoldable pub with_tokens :
    {P : Type 0}
    → Service P
    → Issuer
    → TokenSource
    → String
    → Time
    → List Decided
    → Option (List (String × Permit))
    → Database
    → Option (Decision × Database)
unfolding issue_permits shared
with_tokens s issuer consent presenter now ds none db = none
with_tokens s issuer consent presenter now ds (some ps) db =
    let (tokens, after) = issue_permits s issuer consent presenter now ps db in
    some
      (record (shared now ds ps) { receipts = some tokens; grants = some (map grant_of ps) }, after)

module _ {P : Type 0} (s : Service P) (issuer : Issuer) (now : Time)
    (parsed : ValidateRequest) where
  -- `parsed.model_copy(update={"data_controller": controller, "issue_receipts": False})`
  abbrev pub for_controller : String → ValidateRequest
  for_controller c = record parsed { data_controller = some c; issue_receipts = false }

  unfoldable pub issue_decided :
      ConsentObject → Result Decision (List Decided) × Database → Option (Decision × Database)
  unfolding with_tokens
  issue_decided obj (err d, db) = some (d, db)
  issue_decided obj (ok ds, db) =
      with_tokens s issuer
        (record { aud = obj.aud; purpose = obj.purpose; issued_at = obj.issued_at })
        (or_empty parsed.partner_id) now ds (permits_of ds) db

  -- `self.validate` for one of the controllers
  abbrev pub validate_for : String → Database → Decision × Database
  validate_for c db = validate_jws s now (for_controller c) (issuer.fresh c) db

  unfoldable pub issue_object : Option ConsentObject → Database → Option (Decision × Database)
  unfolding issue_decided validate_each
  issue_object none db =
      some (deny_with undecodable now (s.lib.hash_text (or_empty parsed.consent_jws)) db)
  issue_object (some obj) db = issue_decided obj (
      validate_each (λ c d. validate_jws s now (for_controller c) (issuer.fresh c) d)
        (controllers_of parsed obj) db)

  -- The consent in the JWS; a token is refused like an undecodable one.
  unfoldable pub consent_in : Option (P × JwsHeader) → Option ConsentObject
  consent_in none = none
  consent_in (some (claims, header)) =
      if is_token header.typ then none else consent_object s.lib claims

  unfoldable pub unless_refused : Option String → Database → Option (Decision × Database)
  unfolding issue_object
  unless_refused none db =
      issue_object (consent_in (decode_jws s.lib (or_empty parsed.consent_jws))) db
  unless_refused (some detail) db = some (
      deny_with
        (record (refusal ReasonCode.receipt_presenter_not_allowed detail) {
          data_controller = parsed.data_controller;
        })
        now (s.lib.hash_text (or_empty parsed.consent_jws)) db)

  -- VerificationService._validate_and_issue; None where the code raises.
  unfoldable pub validate_and_issue : Database → Option (Decision × Database)
  unfolding unless_refused
  validate_and_issue db = unless_refused (issuing_refusal s.config parsed.partner_id) db
