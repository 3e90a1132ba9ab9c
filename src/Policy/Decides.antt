-- ===== src/Policy/Decides.antt =====
-- PolicyService.evaluate against an independent statement of what a partner's policy permits.
use mathlib.Core.Logic.{◌↔◌}
use consent_manager.Base.{
  String, true, false, ◌&&◌, ◌-◌, ◌≤◌, Option, none, some, List, [], ◌∷◌, ◌≡◌, refl, ◌==◌, ◌⊎◌, inl,
  inr, arith, eq_iff, eq_refl, same-true, ltb, Bool-cases,
}
use consent_manager.Models.Rows.{Time, Duration, ConsentGrant}
use consent_manager.Scopes.{member, nonempty}
use consent_manager.Scopes.Laws.{member-sorted}
use consent_manager.Policy.Records.{Material, ConsentObject, RequestContext, is_use_case}
use consent_manager.Policy.Evaluate.{
  allowed_by, controller_ok, max_delta, longer_than, effective_of, evaluate, requested_of,
}
use consent_manager.Policy.Ceiling.{
  asks_for, lets_through, member-effective_of, nonempty-member, member-nonempty,
}

-- A list of a policy admits a value: an empty list admits any, another those it names.
abbrev pub Admits : List String → Option String → Type 0
Admits allowed value =
    (allowed ≡ []) ⊎ ((v : String) × (value ≡ some v) × (member v allowed ≡ true))

-- What the policy of `material` permits of one grant at time `now`.
pub record Permitted (now : Time) (material : Material) (obj : ConsentObject)
    (ctx : Option RequestContext) (grant : ConsentGrant) : Type 0 where
  pub to_partner : obj.aud ≡ material.partner.audience
  pub at_controller :
      (is_use_case material.policy ≡ true)
      ⊎ (some grant.data_controller ≡ material.partner.controller_id)
  pub subject : Admits material.policy.allowed_subject_id_types (some obj.subject_id.type)
  pub purpose : Admits material.policy.allowed_purposes obj.purpose.code
  pub scope :
      (s : String) × (member s grant.data_scopes ≡ true)
      × (lets_through material.policy s ≡ true)
      × (asks_for (requested_of ctx) s ≡ true)
  pub begun : obj.valid_from ≤ now
  pub not_over : now ≤ obj.valid_until
  pub short_enough :
      (limit : Duration)
      → max_delta material.policy ≡ some limit
      → obj.valid_until - obj.valid_from ≤ limit

allowed_by-Admits :
    (allowed : List String) (value : Option String)
    → allowed_by allowed value ≡ true
    → Admits allowed value
allowed_by-Admits [] value h = inl refl
allowed_by-Admits (a ∷ as') none h = cc
allowed_by-Admits (a ∷ as') (some v) h = inr (v, refl, h)

Admits-allowed_by :
    (allowed : List String) (value : Option String)
    → Admits allowed value
    → allowed_by allowed value ≡ true
Admits-allowed_by [] value h = refl
Admits-allowed_by (a ∷ as') none h = ground arith
Admits-allowed_by (a ∷ as') (some v) h = ground arith

module _ (now : Time) (material : Material) (obj : ConsentObject) (ctx : Option RequestContext)
    (grant : ConsentGrant) where
  -- The Boolean checks of `evaluate`, in the order of the code.
  record Passes : Type 0 where
    aud : (obj.aud == material.partner.audience) ≡ true
    controller : controller_ok material.policy material.partner grant ≡ true
    subject : allowed_by material.policy.allowed_subject_id_types (some obj.subject_id.type) ≡ true
    purpose : allowed_by material.policy.allowed_purposes obj.purpose.code ≡ true
    scope : nonempty (effective_of material.policy grant ctx) ≡ true
    begun : ltb now obj.valid_from ≡ false
    not_over : ltb obj.valid_until now ≡ false
    short_enough : longer_than (max_delta material.policy) obj.valid_from obj.valid_until ≡ false

  permit-Passes : (evaluate now material obj ctx (some grant)).permit ≡ true → Passes
  unfolding evaluate
  permit-Passes h = ground arith

  Passes-permit : Passes → (evaluate now material obj ctx (some grant)).permit ≡ true
  unfolding evaluate
  Passes-permit p = ground arith

  controller-Passes :
      controller_ok material.policy material.partner grant ≡ true
      → (is_use_case material.policy ≡ true)
        ⊎ (some grant.data_controller ≡ material.partner.controller_id)
  controller-Passes h = elim (Bool-cases (is_use_case material.policy)) [
    | inl u ↦ inl u
    | inr n ↦ inr (same-true _ _ (rw n at h))
  ]

  controller-Permitted :
      (is_use_case material.policy ≡ true)
        ⊎ (some grant.data_controller ≡ material.partner.controller_id)
      → controller_ok material.policy material.partner grant ≡ true
  controller-Permitted (inl u) = rw u
  controller-Permitted (inr e) = rw (← e) (ground (arith, eq_refl grant.data_controller))

  scope-Passes :
      nonempty (effective_of material.policy grant ctx) ≡ true
      → (s : String) × (member s grant.data_scopes ≡ true)
        × (lets_through material.policy s ≡ true)
        × (asks_for (requested_of ctx) s ≡ true)
  scope-Passes h =
      let (s, m) = nonempty-member (effective_of material.policy grant ctx) h in
      (
        s,
        ground (arith, member-effective_of s material.policy grant ctx, m),
        ground (arith, member-effective_of s material.policy grant ctx, m),
        ground (arith, member-effective_of s material.policy grant ctx, m),
      )

  short-Passes :
      (limit : Option Duration)
      → longer_than limit obj.valid_from obj.valid_until ≡ false
      → (d : Duration) → limit ≡ some d
      → obj.valid_until - obj.valid_from ≤ d
  short-Passes none h d e = cc
  short-Passes (some l) h d e = ground arith

  short-Permitted :
      (limit : Option Duration)
      → ((d : Duration) → limit ≡ some d → obj.valid_until - obj.valid_from ≤ d)
      → longer_than limit obj.valid_from obj.valid_until ≡ false
  short-Permitted none h = refl
  short-Permitted (some l) h = ground (arith, h l refl)

  Passes-Permitted : Passes → Permitted now material obj ctx grant
  Passes-Permitted p = record {
    to_partner = (eq_iff _ _).0 p.aud;
    at_controller = controller-Passes p.controller;
    subject = allowed_by-Admits _ _ p.subject;
    purpose = allowed_by-Admits _ _ p.purpose;
    scope = scope-Passes p.scope;
    begun = ground (arith, p.begun);
    not_over = ground (arith, p.not_over);
    short_enough = short-Passes (max_delta material.policy) p.short_enough;
  }

  Permitted-Passes : Permitted now material obj ctx grant → Passes
  Permitted-Passes p =
      let s = p.scope.0 in
      record {
        aud = (eq_iff _ _).1 p.to_partner;
        controller = controller-Permitted p.at_controller;
        subject = Admits-allowed_by _ _ p.subject;
        purpose = Admits-allowed_by _ _ p.purpose;
        scope = member-nonempty s _ (
            ground (
              arith,
              member-effective_of s material.policy grant ctx,
              p.scope.1,
              p.scope.2,
              p.scope.3,
            ));
        begun = ground (arith, p.begun);
        not_over = ground (arith, p.not_over);
        short_enough = short-Permitted (max_delta material.policy) p.short_enough;
      }

  -- `evaluate` permits a grant exactly when the partner's policy permits it: the consent names the
  -- partner, the grant is for the policy's controller (or the policy is a use case's), the subject's
  -- ID type and the purpose are admitted, some granted scope is let through and asked for, and now
  -- lies in the consent's window, which is no longer than the policy's limit.
  pub evaluate-Permitted :
      ((evaluate now material obj ctx (some grant)).permit ≡ true)
      ↔ Permitted now material obj ctx grant
  evaluate-Permitted =
      (λ h. Passes-Permitted (permit-Passes h), λ p. Passes-permit (Permitted-Passes p))

  -- A permit carries exactly the granted scopes that the policy lets through and the request asks for.
  pub evaluate-scopes :
      (s : String)
      → (evaluate now material obj ctx (some grant)).permit ≡ true
      → member s (evaluate now material obj ctx (some grant)).effective_scopes
        ≡ member s grant.data_scopes
          && lets_through material.policy s
          && asks_for (requested_of ctx) s
  unfolding evaluate
  evaluate-scopes s h = ground (
    arith,
    member-sorted s (effective_of material.policy grant ctx),
    member-effective_of s material.policy grant ctx,
  )
