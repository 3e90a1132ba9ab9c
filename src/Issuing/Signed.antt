-- ===== src/Issuing/Signed.antt =====
-- The tokens that are signed for decisions: each has its decision's fields.
use consent_manager.Base.{◌/◌, String, Option, none, some, List, [], ◌∷◌, ◌≡◌, refl, sym, ap}
use consent_manager.Models.Rows.{Time, SubjectId}
use consent_manager.Models.Database.{Database}
use consent_manager.Verification.Request.{Decision}
use consent_manager.Exchange.Tokens.{
  TokenSource, Permit, TokenClaims, permit_of, permit_fields, scopes_or_none, token_claims, issue,
}
use consent_manager.Issuing.Dispatch.{Service}
use consent_manager.Issuing.Tokens.{
  Issuer, Decided, permits_of, permits_with, issue_permits, with_tokens,
}

pub answer-injective :
    {a d : Decision} {x after : Database}
    → ◌≡◌ {A = Option (Decision × Database)} (some (a, x)) (some (d, after))
    → a ≡ d
answer-injective h = cc

permit-injective : {p q : Permit} → ◌≡◌ {A = Option Permit} (some p) (some q) → p ≡ q
permit-injective h = cc

abbrev pub given_scopes : Option (List String) → List String
given_scopes none = []
given_scopes (some scopes) = scopes

-- The fields that a token takes from a decision are the decision's.
abbrev pub IsPermitOf : Decision → Permit → Type 0
IsPermitOf d p =
    (d.consent_id ≡ some p.consent_id)
    × (d.data_controller ≡ some p.data_controller)
    × (d.subject_id ≡ some p.subject_id)
    × (p.scopes ≡ given_scopes d.effective_data_scopes)
    × (d.valid_until ≡ some p.valid_until)

scopes_or_none-given : (scopes : Option (List String)) → scopes_or_none scopes ≡ given_scopes scopes
unfolding scopes_or_none
scopes_or_none-given none = refl
scopes_or_none-given (some scopes) = refl

permit_fields-made :
    (consent_id controller : Option String) (subject : Option SubjectId)
    (scopes : Option (List String)) (valid_until : Option Time) {p : Permit}
    → permit_fields consent_id controller subject scopes valid_until ≡ some p
    → (consent_id ≡ some p.consent_id)
      × (controller ≡ some p.data_controller)
      × (subject ≡ some p.subject_id)
      × (p.scopes ≡ given_scopes scopes)
      × (valid_until ≡ some p.valid_until)
unfolding permit_fields
permit_fields-made none controller subject scopes valid_until h = cc
permit_fields-made (some i) none subject scopes valid_until h = cc
permit_fields-made (some i) (some c) none scopes valid_until h = cc
permit_fields-made (some i) (some c) (some s) scopes none h = cc
permit_fields-made (some i) (some c) (some s) scopes (some t) h =
    let made = permit-injective h in
    (
      ap (λ (p : Permit). some p.consent_id) made,
      ap (λ (p : Permit). some p.data_controller) made,
      ap (λ (p : Permit). some p.subject_id) made,
      cc (ap (λ (p : Permit). p.scopes) made, scopes_or_none-given scopes),
      ap (λ (p : Permit). some p.valid_until) made,
    )

permit_of-IsPermitOf : (d : Decision) {p : Permit} → permit_of d ≡ some p → IsPermitOf d p
unfolding permit_of
permit_of-IsPermitOf d h =
    permit_fields-made d.consent_id d.data_controller d.subject_id d.effective_data_scopes
      d.valid_until h

-- The permits that were found are of these decisions, in order.
pub AreOf : List Decided → Option (List (String × Permit)) → Type 0
AreOf ds none = Unit
AreOf [] (some []) = Unit
AreOf (d ∷ ds) (some ((c, p) ∷ ps)) =
    (c ≡ d.controller) × IsPermitOf d.decision p × AreOf ds (some ps)
AreOf _ _ = ⊥

permits_with-AreOf :
    (d : Decided) (found : Option Permit) (ds : List Decided)
    (rest : Option (List (String × Permit)))
    → permit_of d.decision ≡ found
    → AreOf ds rest
    → AreOf (d ∷ ds) (permits_with d.controller found rest)
unfolding AreOf
permits_with-AreOf d none ds rest e h = tt
permits_with-AreOf d (some p) ds none e h = tt
permits_with-AreOf d (some p) ds (some ps) e h = (refl, permit_of-IsPermitOf d.decision e, h)

pub permits_of-AreOf : (ds : List Decided) → AreOf ds (permits_of ds)
unfolding permits_of AreOf
permits_of-AreOf [] = tt
permits_of-AreOf (d ∷ ds) =
    permits_with-AreOf d (permit_of d.decision) ds (permits_of ds) refl (permits_of-AreOf ds)

module _ {P : Type 0} (s : Service P) (issuer : Issuer) where
  -- A token for the controller of a decision: signed claims under a new id, with the decision's consent,
  -- controller, subject, scopes and end, and the consent's partner and purpose, for the presenter.
  abbrev pub IsTokenOf : TokenSource → String → Decided → String × String → Type 0
  IsTokenOf consent presenter d t =
      (p : Permit) × (claims : TokenClaims) × IsPermitOf d.decision p
      × (t ≡ (d.controller, issuer.sign_jws claims))
      × (claims.jti ≡ issuer.jtis d.controller)
      × (claims.iss ≡ s.config.receipt_issuer)
      × (claims.consent_id ≡ p.consent_id)
      × (claims.aud ≡ p.data_controller)
      × (claims.sub ≡ p.subject_id)
      × (claims.scopes ≡ p.scopes)
      × (claims.consent_exp ≡ p.valid_until / 1000000)
      × (claims.presenter ≡ presenter)
      × (claims.partner ≡ consent.aud)
      × (claims.purpose ≡ consent.purpose.code)

  -- One token for each decision, in order.
  abbrev pub AreTokens : TokenSource → String → List Decided → List (String × String) → Type 0
  AreTokens consent presenter [] [] = Unit
  AreTokens consent presenter (d ∷ ds) (t ∷ ts) =
      IsTokenOf consent presenter d t × AreTokens consent presenter ds ts
  AreTokens consent presenter _ _ = ⊥

  issue_permits-AreTokens :
      (consent : TokenSource) (presenter : String) (now : Time) (ds : List Decided)
      (ps : List (String × Permit)) (db : Database)
      → AreOf ds (some ps)
      → AreTokens consent presenter ds (issue_permits s issuer consent presenter now ps db).0
  unfolding issue_permits issue AreOf
  issue_permits-AreTokens consent presenter now [] [] db h = tt
  issue_permits-AreTokens consent presenter now [] (p ∷ ps) db h = absurd h
  issue_permits-AreTokens consent presenter now (d ∷ ds) [] db h = absurd h
  issue_permits-AreTokens consent presenter now (d ∷ ds) ((c, p) ∷ ps) db (named, own, rest) = (
    (
      p,
      token_claims s.config consent p presenter (issuer.jtis c) now,
      own,
      cc named,
      ap issuer.jtis named,
      refl,
      refl,
      refl,
      refl,
      refl,
      refl,
      refl,
      refl,
      refl,
    ),
    issue_permits-AreTokens consent presenter now ds ps
        (issue s.config consent p presenter (issuer.jtis c) now db).1 rest,
  )

  pub with_tokens-AreTokens :
      (consent : TokenSource) (presenter : String) (now : Time) (ds : List Decided)
      (found : Option (List (String × Permit))) (db : Database) {d : Decision} {after : Database}
      → AreOf ds found
      → with_tokens s issuer consent presenter now ds found db ≡ some (d, after)
      → (tokens : List (String × String)) × (d.receipts ≡ some tokens)
        × AreTokens consent presenter ds tokens
  unfolding with_tokens
  with_tokens-AreTokens consent presenter now ds none db e h = cc
  with_tokens-AreTokens consent presenter now ds (some ps) db {d} e h =
      let tokens = (issue_permits s issuer consent presenter now ps db).0 in
      let made = ap (λ (a : Decision). a.receipts) (answer-injective h) in
      (tokens, sym made, issue_permits-AreTokens consent presenter now ds ps db e)
