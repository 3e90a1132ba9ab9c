-- ===== src/Stored/Narrowed.antt =====
-- What the narrowing of stored grants keeps: never more than was recorded, than the partner's current
-- policy admits, and than the caller asks for.
use mathlib.Core.List.{Memᴰ}
use mathlib.Core.Path.{subst}
use consent_manager.Base.{
  String, true, ◌&&◌, Option, none, some, List, [], ◌∷◌, ◌≡◌, refl, arith, inl, inr, Bool-cases,
  Option-cases, truthy, or_empty,
}
use consent_manager.Models.Table.{All}
use consent_manager.Scopes.{member, nonempty, inter, to_set, sorted}
use consent_manager.Scopes.Laws.{member-inter, member-to_set, member-sorted}
use consent_manager.Policy.Records.{PmPolicy, Material}
use consent_manager.Policy.Ceiling.{asks_for, member-narrow}
use consent_manager.Verification.Partners.{
  Answer, unavailable, answered, PolicySource, get_verification_material,
}
use consent_manager.Stored.Grants.{
  RecordedGrant, Narrowed, put, put_narrowed, narrowed_scopes, under_policy, narrow_grant,
  narrow_grants,
}

-- The scopes are of a recorded grant and asked for.
pub record IsOf (wanted : Option (List String)) (g : RecordedGrant) (n : Narrowed) : Type 0 where
  pub controller : g.data_controller ≡ some n.data_controller
  pub recorded_on : n.consent_id ≡ g.consent_id
  pub within :
      (s : String)
      → member s n.scopes ≡ true
      → (member s g.effective_data_scopes && asks_for wanted s) ≡ true

-- The policy is the use case's, in use-case mode; or the partner's for the controller, and it allows
-- the scopes.
abbrev pub IsCurrent : PolicySource → String → Option PmPolicy → Narrowed → Type 0
IsCurrent source audience (some policy) n = n.policy ≡ policy
IsCurrent source audience none n =
    (m : Material) × (get_verification_material source audience (some n.data_controller) none
      ≡ answered (some m))
    × (n.policy ≡ m.policy)
    × ((s : String) → member s n.scopes ≡ true → member s n.policy.allowed_data_scopes ≡ true)

module _ (source : PolicySource) (audience : String) (mode : Option PmPolicy)
    (wanted : Option (List String)) where
  abbrev pub IsJustified : List RecordedGrant → Narrowed → Type 0
  IsJustified gs n =
      (g : RecordedGrant) × Memᴰ g gs × IsOf wanted g n × IsCurrent source audience mode n

put-All :
    (P : Narrowed → Type 0) (new : Narrowed) (ns : List Narrowed)
    → P new
    → All P ns
    → All P (put new ns)
unfolding put
put-All P new [] p h = (p, tt)
put-All P new (n ∷ ns) p h = ground (arith, put-All P new ns p h.1)

member-narrowed_scopes :
    (s : String) (g : RecordedGrant) (allowed : List String) (wanted : Option (List String))
    → member s (sorted (narrowed_scopes g allowed wanted))
      ≡ member s g.effective_data_scopes && member s allowed && asks_for wanted s
member-narrowed_scopes s g allowed wanted =
    let own = to_set g.effective_data_scopes in
    ground (
      arith,
      member-sorted s (narrowed_scopes g allowed wanted),
      member-narrow s wanted (inter own (to_set allowed)),
      member-inter s own (to_set allowed),
      member-to_set s allowed,
      member-to_set s g.effective_data_scopes,
    )

truthy-some : (o : Option String) → truthy o ≡ true → o ≡ some (or_empty o)
truthy-some none h = cc
truthy-some (some t) h = refl

-- Narrowing by a list of allowed scopes keeps what holds of the grants so far and of the new one.
put_narrowed-All :
    (P : Narrowed → Type 0) (g : RecordedGrant) (controller : String) (policy : PmPolicy)
    (allowed : List String) (wanted : Option (List String)) (granted : List Narrowed)
    → P (record {
      data_controller = controller;
      scopes = sorted (narrowed_scopes g allowed wanted);
      policy = policy;
      consent_id = g.consent_id;
    })
    → All P granted
    → All P (put_narrowed g controller policy allowed wanted granted)
unfolding put_narrowed
put_narrowed-All P g controller policy allowed wanted granted p h =
    elim (Bool-cases (nonempty (narrowed_scopes g allowed wanted))) [
      | inl e ↦ rw e (put-All P _ granted p h)
      | inr d ↦ rw d h
    ]

-- A property of all the grants, where the policies could be read.
abbrev pub AllIn : (Narrowed → Type 0) → Option (List Narrowed) → Type 0
AllIn P none = Unit
AllIn P (some ns) = All P ns

module _ (source : PolicySource) (audience : String) (wanted : Option (List String))
    (gs : List RecordedGrant) (g : RecordedGrant) (among : Memᴰ g gs) (granted : List Narrowed)
    (named : truthy g.data_controller ≡ true) where
  under_policy-AllIn :
      (answer : Answer Material)
      → get_verification_material source audience g.data_controller none ≡ answer
      → All (IsJustified source audience none wanted gs) granted
      → AllIn
          (IsJustified source audience none wanted gs)
          (under_policy g (or_empty g.data_controller) wanted granted answer)
  unfolding under_policy
  under_policy-AllIn unavailable read h = tt
  under_policy-AllIn (answered none) read h = h
  under_policy-AllIn (answered (some m)) read h =
      let controller = truthy-some g.data_controller named in
      let allowed = m.policy.allowed_data_scopes in
      put_narrowed-All (IsJustified source audience none wanted gs) g (or_empty g.data_controller)
        m.policy allowed wanted granted
        (
          g,
          among,
          record {
            controller = controller;
            recorded_on = refl;
            within = λ s mem. ground (arith, member-narrowed_scopes s g allowed wanted, mem);
          },
          (
            m,
            cc (read, controller),
            refl,
            λ s mem. ground (arith, member-narrowed_scopes s g allowed wanted, mem),
          ),
        )
        h

  under_use_case-All :
      (policy : PmPolicy)
      → All (IsJustified source audience (some policy) wanted gs) granted
      → All (IsJustified source audience (some policy) wanted gs) (
          put_narrowed g (or_empty g.data_controller) policy g.effective_data_scopes wanted granted)
  under_use_case-All policy h =
      put_narrowed-All (IsJustified source audience (some policy) wanted gs) g
        (or_empty g.data_controller) policy g.effective_data_scopes wanted granted
        (
          g,
          among,
          record {
            controller = truthy-some g.data_controller named;
            recorded_on = refl;
            within = λ s mem.
                ground (arith, member-narrowed_scopes s g g.effective_data_scopes wanted, mem);
          },
          refl,
        )
        h

module _ (source : PolicySource) (audience : String) (wanted : Option (List String)) where
  narrow_grant-AllIn :
      (mode : Option PmPolicy) (gs : List RecordedGrant) (g : RecordedGrant)
      (granted : List Narrowed)
      → Memᴰ g gs
      → All (IsJustified source audience mode wanted gs) granted
      → AllIn
          (IsJustified source audience mode wanted gs)
          (narrow_grant source audience mode wanted g granted)
  unfolding narrow_grant
  narrow_grant-AllIn (some policy) gs g granted among h =
      elim (Bool-cases (truthy g.data_controller)) [
        | inl t ↦ rw t (under_use_case-All source audience wanted gs g among granted t policy h)
        | inr f ↦ rw f h
      ]
  narrow_grant-AllIn none gs g granted among h = elim (Bool-cases (truthy g.data_controller)) [
    | inl t ↦ rw t (
        under_policy-AllIn source audience wanted gs g among granted t
          (get_verification_material source audience g.data_controller none) refl h)
    | inr f ↦ rw f h
  ]

  -- The grants still to come are among all the recorded grants.
  narrow_grants-AllIn :
      (mode : Option PmPolicy) (gs rest : List RecordedGrant) (granted : List Narrowed)
      → ((g : RecordedGrant) → Memᴰ g rest → Memᴰ g gs)
      → All (IsJustified source audience mode wanted gs) granted
      → AllIn
          (IsJustified source audience mode wanted gs)
          (narrow_grants source audience mode wanted rest granted)
  unfolding narrow_grants
  narrow_grants-AllIn mode gs [] granted sub h = h
  narrow_grants-AllIn mode gs (g ∷ rest) granted sub h =
      let here = narrow_grant-AllIn mode gs g granted (sub g (Memᴰ.head refl)) h in
      elim (Option-cases (narrow_grant source audience mode wanted g granted)) [
        | inl e ↦ rw (narrow_grants, e) tt
        | inr (next, e) ↦
            rw (narrow_grants, e)
              (narrow_grants-AllIn mode gs rest next (λ x m. sub x (Memᴰ.tail m))
                (subst (AllIn (IsJustified source audience mode wanted gs)) e here))
      ]

  pub narrow_grants-IsJustified :
      (mode : Option PmPolicy) (gs : List RecordedGrant) {ns : List Narrowed}
      → narrow_grants source audience mode wanted gs [] ≡ some ns
      → All (IsJustified source audience mode wanted gs) ns
  narrow_grants-IsJustified mode gs e =
      subst (AllIn (IsJustified source audience mode wanted gs)) e
        (narrow_grants-AllIn mode gs gs [] (λ g m. m) tt)
