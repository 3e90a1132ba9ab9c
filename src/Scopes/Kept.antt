-- ===== src/Scopes/Kept.antt =====
-- The members of a list that a query keeps.
use mathlib.Core.List.{Memᴰ}
use consent_manager.Base.{Bool, true, List, [], ◌∷◌, ◌≡◌, ap, inl, inr, Bool-cases}
use consent_manager.Scopes.{keep}

module _ {ℓ} {A : Type ℓ} (test : A → Bool) where
  pub Memᴰ-keep : (rows : List A) (a : A) → Memᴰ a (keep test rows) → Memᴰ a rows × (test a ≡ true)
  unfolding keep
  Memᴰ-keep [] a m = elim m [ ]
  Memᴰ-keep (r ∷ rows) a m = elim (Bool-cases (test r)) [
    | inl t ↦ elim (rw t at m) [
      | Memᴰ.head e ↦ (Memᴰ.head e, cc (t, ap test e))
      | Memᴰ.tail k ↦ let (inside, passes) = Memᴰ-keep rows a k in (Memᴰ.tail inside, passes)
    ]
    | inr f ↦ let (inside, passes) = Memᴰ-keep rows a (rw f at m) in (Memᴰ.tail inside, passes)
  ]

  pub keep-Memᴰ : (rows : List A) (a : A) → Memᴰ a rows → test a ≡ true → Memᴰ a (keep test rows)
  unfolding keep
  keep-Memᴰ [] a m t = elim m [ ]
  keep-Memᴰ (r ∷ rows) a (Memᴰ.head e) t =
      let kept : test r ≡ true = cc (ap test e, t) in rw kept (Memᴰ.head e)
  keep-Memᴰ (r ∷ rows) a (Memᴰ.tail m) t =
      let inside = keep-Memᴰ rows a m t in
      elim (Bool-cases (test r)) [
        | inl kept ↦ rw kept (Memᴰ.tail inside)
        | inr left ↦ rw left inside
      ]
