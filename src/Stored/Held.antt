-- ===== src/Stored/Held.antt =====
-- When a stored consent answers a lookup, apart from the query that finds it.
use mathlib.Core.List.{Memᴰ}
use mathlib.Core.Logic.{◌↔◌}
use consent_manager.Base.{
  ◌≤◌, ◌<◌, ◌&&◌, String, true, false, Option, none, some, List, [], ◌∷◌, ◌==◌, ◌≡◌, ◌≢◌, ◌⊎◌, refl,
  ap, arith, inl, inr, Bool-cases, same, same-true, same_refl, eq-true, eq_refl,
}
use consent_manager.Models.Status.{is_active-active, ArtefactStatus, ArtefactSource, is_receipt}
use consent_manager.Models.Rows.{Time, SubjectId, ConsentArtefact, ApprovedGrant}
use consent_manager.Verification.Request.{identifiers_of}
use consent_manager.Stored.Lookup.{
  LookupKey, is_candidate, is_of_subject, has_identifier, has_grant_for, serves_key,
}

-- The subject is the consent's own, or one of its other identifiers.
abbrev pub IsOfSubject : SubjectId → ConsentArtefact → Type 0
IsOfSubject s a =
    ((a.subject_id_type ≡ s.type) × (a.subject_id_value ≡ s.value))
    ⊎ Memᴰ s (identifiers_of a.subject_identifiers)

-- A consent for the use case of the key, or one that is for no use case and for its controller, alone
-- or as one of the grants.
abbrev pub ServesKey : LookupKey → ConsentArtefact → Type 0
ServesKey k a =
    ((k.by_use_case ≡ true) × (a.use_case ≡ some k.key))
    ⊎ ((k.by_use_case ≡ false)
        × (a.use_case ≡ none)
        × ((a.controller_id ≡ some k.key)
            ⊎ ((a.controller_id ≡ none)
                × ((grants : List ApprovedGrant) × (a.grants ≡ some grants)
                    × ((g : ApprovedGrant) × Memᴰ g grants × (g.data_controller ≡ k.key))))))

-- The partner's consent for the key, active and within its validity, that is no foreign token's.
abbrev pub IsHeld : LookupKey → Time → ConsentArtefact → Type 0
IsHeld k now a =
    (a.partner_id ≡ k.partner)
    × IsOfSubject k.subject a
    × ServesKey k a
    × (a.source ≢ ArtefactSource.receipt)
    × (a.status ≡ ArtefactStatus.active)
    × (a.valid_from ≤ now)
    × (now < a.valid_until)

has_identifier-Memᴰ :
    (s : SubjectId) (ids : List SubjectId) → has_identifier s ids ≡ true → Memᴰ s ids
unfolding has_identifier
has_identifier-Memᴰ s [] h = cc
has_identifier-Memᴰ s (i ∷ ids) h = elim (Bool-cases (i.type == s.type && i.value == s.value)) [
  | inl own ↦
      let t : i.type ≡ s.type = eq-true i.type s.type (ground arith) in
      let v : i.value ≡ s.value = eq-true i.value s.value (ground arith) in Memᴰ.head (cc (t, v))
  | inr other ↦ Memᴰ.tail (has_identifier-Memᴰ s ids (ground arith))
]

Memᴰ-has_identifier :
    (s : SubjectId) (ids : List SubjectId) → Memᴰ s ids → has_identifier s ids ≡ true
unfolding has_identifier
Memᴰ-has_identifier s [] m = elim m [ ]
Memᴰ-has_identifier s (i ∷ ids) (Memᴰ.head e) = rw e (rw (eq_refl i.type, eq_refl i.value) refl)
Memᴰ-has_identifier s (i ∷ ids) (Memᴰ.tail m) = rw (Memᴰ-has_identifier s ids m) (ground arith)

is_of_subject-IsOfSubject :
    (s : SubjectId) (a : ConsentArtefact) → is_of_subject s a ≡ true → IsOfSubject s a
is_of_subject-IsOfSubject s a h =
    elim (Bool-cases (a.subject_id_type == s.type && a.subject_id_value == s.value)) [
      | inl own ↦ inl (
        eq-true a.subject_id_type s.type (ground arith),
        eq-true a.subject_id_value s.value (ground arith),
      )
      | inr other ↦
          inr (has_identifier-Memᴰ s (identifiers_of a.subject_identifiers) (ground arith))
    ]

IsOfSubject-is_of_subject :
    (s : SubjectId) (a : ConsentArtefact) → IsOfSubject s a → is_of_subject s a ≡ true
IsOfSubject-is_of_subject s a (inl (t, v)) = rw (t, v) (rw (eq_refl s.type, eq_refl s.value) refl)
IsOfSubject-is_of_subject s a (inr m) =
    let given = Memᴰ-has_identifier s (identifiers_of a.subject_identifiers) m in ground arith

has_grant_for-Memᴰ :
    (key : String) (grants : List ApprovedGrant)
    → has_grant_for key (some grants) ≡ true
    → (g : ApprovedGrant) × Memᴰ g grants × (g.data_controller ≡ key)
unfolding has_grant_for
has_grant_for-Memᴰ key [] h = cc
has_grant_for-Memᴰ key (g ∷ gs) h = elim (Bool-cases (g.data_controller == key)) [
  | inl own ↦ (g, Memᴰ.head refl, eq-true g.data_controller key own)
  | inr other ↦
      let (found, inside, named) = has_grant_for-Memᴰ key gs (ground arith) in
      (found, Memᴰ.tail inside, named)
]

Memᴰ-has_grant_for :
    (key : String) (grants : List ApprovedGrant) (g : ApprovedGrant)
    → Memᴰ g grants
    → g.data_controller ≡ key
    → has_grant_for key (some grants) ≡ true
unfolding has_grant_for
Memᴰ-has_grant_for key [] g m e = elim m [ ]
Memᴰ-has_grant_for key (x ∷ xs) g (Memᴰ.head e) named =
    let own : x.data_controller ≡ key =
      cc (named, ap (λ (y : ApprovedGrant). y.data_controller) e) in
    rw own (rw (eq_refl key) refl)
Memᴰ-has_grant_for key (x ∷ xs) g (Memᴰ.tail m) named =
    rw (Memᴰ-has_grant_for key xs g m named) (ground arith)

granted_to :
    (key : String) (grants : Option (List ApprovedGrant))
    → has_grant_for key grants ≡ true
    → (gs : List ApprovedGrant) × (grants ≡ some gs)
      × ((g : ApprovedGrant) × Memᴰ g gs × (g.data_controller ≡ key))
unfolding has_grant_for
granted_to key none h = cc
granted_to key (some gs) h = (gs, refl, has_grant_for-Memᴰ key gs h)

serves_key-ServesKey : (k : LookupKey) (a : ConsentArtefact) → serves_key k a ≡ true → ServesKey k a
unfolding serves_key
serves_key-ServesKey k a h = elim (Bool-cases k.by_use_case) [
  | inl by_case ↦ inl (by_case, same-true a.use_case (some k.key) (ground arith))
  | inr direct ↦
      let free : a.use_case ≡ none = same-true a.use_case none (ground arith) in
      elim (Bool-cases (same a.controller_id (some k.key))) [
        | inl own ↦ inr (direct, free, inl (same-true a.controller_id (some k.key) own))
        | inr other ↦
            let no_controller : a.controller_id ≡ none =
              same-true a.controller_id none (ground arith) in
            inr (direct, free, inr (no_controller, granted_to k.key a.grants (ground arith)))
      ]
]

ServesKey-serves_key : (k : LookupKey) (a : ConsentArtefact) → ServesKey k a → serves_key k a ≡ true
unfolding serves_key
ServesKey-serves_key k a (inl (by_case, own)) = rw (by_case, own) (same_refl (some k.key))
ServesKey-serves_key k a (inr (direct, free, inl own)) =
    rw (direct, free, own) (rw (eq_refl k.key) refl)
ServesKey-serves_key k a (inr (direct, free, inr (alone, (gs, given, (g, m, named))))) =
    let granted = Memᴰ-has_grant_for k.key gs g m named in
    rw (direct, free, alone, given) (rw granted refl)

is_receipt-receipt : (s : ArtefactSource) → s ≢ ArtefactSource.receipt → is_receipt s ≡ false
is_receipt-receipt ArtefactSource.embedded h = refl
is_receipt-receipt ArtefactSource.originated h = refl
is_receipt-receipt ArtefactSource.receipt h = absurd (h refl)

-- The query's condition holds exactly for the consents that answer the lookup.
pub is_candidate-IsHeld :
    (k : LookupKey) (now : Time) (a : ConsentArtefact)
    → (is_candidate k now a ≡ true) ↔ IsHeld k now a
unfolding is_candidate serves_key
is_candidate-IsHeld k now a = (
  λ h. (
    eq-true a.partner_id k.partner (ground arith),
    is_of_subject-IsOfSubject k.subject a (ground arith),
    serves_key-ServesKey k a (ground arith),
    λ foreign.
        let own : is_receipt a.source ≡ false = ground arith in cc (ap is_receipt foreign, own),
    is_active-active a.status (ground arith),
    ground arith,
    ground arith,
  ),
  λ (partner, subject, key, own, act, begun, lasting).
      let of_subject = IsOfSubject-is_of_subject k.subject a subject in
      let serves = ServesKey-serves_key k a key in
      let not_foreign = is_receipt-receipt a.source own in
      rw (partner, of_subject, serves, not_foreign, act) (rw (eq_refl k.partner) (ground arith)),
)
