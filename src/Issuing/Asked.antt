-- ===== src/Issuing/Asked.antt =====
-- What a request for tokens is, in plain terms: who may ask, for which consent and which controllers.
use consent_manager.Base.{
  String, true, false, not, Option, none, some, List, [], ◌∷◌, map, ◌≡◌, ◌≢◌, ◌⊎◌, inl, inr, refl,
  ap, arith, has_text, truthy, given_text, or_empty, Bool-cases,
}
use consent_manager.Models.Rows.{ConsentGrant}
use consent_manager.Config.{Settings}
use consent_manager.Scopes.{member}
use consent_manager.Policy.Records.{ConsentObject, one_shape, shape, is_none}
use consent_manager.Verification.Request.{ValidateRequest}
use consent_manager.Verification.Jws.{Libraries, consent_object, shaped}
use consent_manager.Exchange.Tokens.{issuing_refusal}
use consent_manager.Issuing.Dispatch.{is_token}
use consent_manager.Issuing.Tokens.{controllers_in, controllers_of}

-- The issuer and its presenters are configured, and the caller is one of them.
abbrev pub MayIssue : Settings → ValidateRequest → Type 0
MayIssue config parsed =
    (has_text config.receipt_issuer ≡ true)
    × ((presenter : String) × (parsed.partner_id ≡ some presenter)
        × (member presenter config.receipt_presenters ≡ true))

pub issuing_refusal-MayIssue :
    (config : Settings) (parsed : ValidateRequest)
    → issuing_refusal config parsed.partner_id ≡ none
    → MayIssue config parsed
unfolding issuing_refusal
issuing_refusal-MayIssue config parsed h = (
  ground arith,
  (or_empty parsed.partner_id, given_text parsed.partner_id (ground arith), ground arith),
)

-- The controllers that tokens are asked for: the one that the request names, else those of the grants,
-- else the consent's only one.
abbrev pub AreAsked : ValidateRequest → ConsentObject → List String → Type 0
AreAsked parsed obj cs =
    ((c : String) × (has_text c ≡ true) × (parsed.data_controller ≡ some c) × (cs ≡ c ∷ []))
    ⊎ ((truthy parsed.data_controller ≡ false)
        × (((grants : List ConsentGrant) × (obj.grants ≡ some grants)
              × (cs ≡ map (λ (g : ConsentGrant). g.data_controller) grants))
            ⊎ ((c : String) × (obj.grants ≡ none)
                × (obj.data_controller ≡ some c)
                × (cs ≡ c ∷ []))))

is_token_token : is_token (some "consent-token+jwt") ≡ true
is_token_token = refl

is_token_receipt : is_token (some "consent-receipt+jwt") ≡ true
is_token_receipt = refl

pub not_token :
    (typ : Option String)
    → is_token typ ≡ false
    → (typ ≢ some "consent-token+jwt") × (typ ≢ some "consent-receipt+jwt")
not_token none h = (λ e. cc e, λ e. cc e)
not_token (some t) h =
    (λ e. cc (ap is_token e, h, is_token_token), λ e. cc (ap is_token e, h, is_token_receipt))

given_controller : (c : Option String) → not (is_none c) ≡ true → (x : String) × (c ≡ some x)
unfolding is_none
given_controller none h = cc
given_controller (some c) h = (c, refl)

asked_in :
    (obj : ConsentObject) (grants : Option (List ConsentGrant))
    → shape grants obj ≡ true
    → ((gs : List ConsentGrant) × (grants ≡ some gs)
        × (controllers_in grants obj ≡ map (λ (g : ConsentGrant). g.data_controller) gs))
      ⊎ ((c : String) × (grants ≡ none)
          × (obj.data_controller ≡ some c)
          × (controllers_in grants obj ≡ c ∷ []))
unfolding shape controllers_in
asked_in obj (some gs) h = inl (gs, refl, refl)
asked_in obj none h =
    let (c, given) = given_controller obj.data_controller (ground arith) in
    inr (c, refl, given, rw given refl)

has_text-given : (t : Option String) → truthy t ≡ true → has_text (or_empty t) ≡ true
has_text-given none h = cc
has_text-given (some t) h = h

pub controllers_of-AreAsked :
    (parsed : ValidateRequest) (obj : ConsentObject)
    → one_shape obj ≡ true
    → AreAsked parsed obj (controllers_of parsed obj)
unfolding controllers_of one_shape
controllers_of-AreAsked parsed obj h = elim (Bool-cases (truthy parsed.data_controller)) [
  | inl named ↦
      let given = given_text parsed.data_controller named in
      rw named (
        inl (
          or_empty parsed.data_controller,
          has_text-given parsed.data_controller named,
          given,
          refl,
        ))
  | inr unnamed ↦ rw unnamed (inr (refl, asked_in obj obj.grants h))
]

object-injective : {a b : ConsentObject} → ◌≡◌ {A = Option ConsentObject} (some a) (some b) → a ≡ b
object-injective h = cc

shaped-one_shape :
    (found : Option ConsentObject) {obj : ConsentObject}
    → shaped found ≡ some obj
    → one_shape obj ≡ true
unfolding shaped
shaped-one_shape none h = cc
shaped-one_shape (some o) {obj} h = elim (Bool-cases (one_shape o)) [
  | inl fits ↦
      let same_object : o ≡ obj = object-injective (rw fits at h) in
      cc (fits, ap one_shape same_object)
  | inr unfit ↦ absurd (cc (rw unfit at h))
]

pub consent_object-one_shape :
    {P : Type 0} (lib : Libraries P) (claims : P) {obj : ConsentObject}
    → consent_object lib claims ≡ some obj
    → one_shape obj ≡ true
unfolding consent_object
consent_object-one_shape lib claims h = shaped-one_shape (lib.parse_consent claims) h
