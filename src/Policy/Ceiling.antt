-- ===== src/Policy/Ceiling.antt =====
-- The scope ceiling of PolicyService.evaluate: which scopes a permit can carry.
use consent_manager.Base.{
  String, Bool, true, ◌&&◌, ◌||◌, Option, none, some, List, [], ◌∷◌, ◌≡◌, refl, eq_refl, arith, inl,
  inr, Bool-cases,
}
use consent_manager.Models.Rows.{ConsentGrant}
use consent_manager.Scopes.{member, nonempty, to_set, inter}
use consent_manager.Scopes.Laws.{member-inter, member-to_set}
use consent_manager.Policy.Records.{PmPolicy, RequestContext, is_use_case}
use consent_manager.Policy.Evaluate.{ceiling, narrow, requested_of, effective_of}

-- Whether the request asks for a scope: without requested scopes it asks for all.
abbrev pub asks_for : Option (List String) → String → Bool
asks_for none s = true
asks_for (some wanted) s = member s wanted

-- Whether a policy lets a consented scope through: a use-case policy lets all of them through.
abbrev pub lets_through : PmPolicy → String → Bool
lets_through policy s = is_use_case policy || member s policy.allowed_data_scopes

pub member-narrow :
    (s : String) (wanted : Option (List String)) (scopes : List String)
    → member s (narrow wanted scopes) ≡ member s scopes && asks_for wanted s
member-narrow s none scopes = ground arith
member-narrow s (some wanted) scopes =
    ground (arith, member-inter s scopes (to_set wanted), member-to_set s wanted)

member-ceiling :
    (s : String) (policy : PmPolicy) (consented : List String)
    → (member s consented && member s (ceiling policy consented))
      ≡ (member s consented && lets_through policy s)
member-ceiling s policy consented = elim (Bool-cases (is_use_case policy)) [
  | inl u ↦ rw u (ground arith)
  | inr n ↦ rw n (ground (arith, member-to_set s policy.allowed_data_scopes))
]

-- The effective scopes are those granted, let through by the policy and asked for.
pub member-effective_of :
    (s : String) (policy : PmPolicy) (grant : ConsentGrant) (ctx : Option RequestContext)
    → member s (effective_of policy grant ctx)
      ≡ member s grant.data_scopes && lets_through policy s && asks_for (requested_of ctx) s
unfolding effective_of
member-effective_of s policy grant ctx =
    let consented = to_set grant.data_scopes in
    ground (
      arith,
      member-narrow s (requested_of ctx) (inter consented (ceiling policy consented)),
      member-inter s consented (ceiling policy consented),
      member-ceiling s policy consented,
      member-to_set s grant.data_scopes,
    )

-- A list has a member exactly when it is not empty.
pub nonempty-member : (xs : List String) → nonempty xs ≡ true → (s : String) × (member s xs ≡ true)
unfolding member
nonempty-member [] h = cc
nonempty-member (x ∷ xs) h = (x, rw eq_refl)

pub member-nonempty : (s : String) (xs : List String) → member s xs ≡ true → nonempty xs ≡ true
unfolding member
member-nonempty s [] h = cc
member-nonempty s (x ∷ xs) h = refl
