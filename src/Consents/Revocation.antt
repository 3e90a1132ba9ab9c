-- ===== src/Consents/Revocation.antt =====
-- Revocation: who may revoke, what it records, and what later calls see of it.
use consent_manager.Base.{
  String, true, false, ◌&&◌, Option, none, some, List, ◌≡◌, ◌≢◌, ◌⊎◌, inl, inr, refl, sym, ap,
  arith, eq_refl, same-true, Bool-cases,
}
use consent_manager.Models.Status.{is_active-active, ArtefactStatus, is_active}
use consent_manager.Models.Rows.{Time, ConsentArtefact, RevocationRecord}
use consent_manager.Models.Table
use consent_manager.Models.Database.{Database, artefact_key, get_artefact, save_artefact, add}
use consent_manager.Consents.Service.{
  SubjectClaims, Revocation, Revoked, get_status, status_of_row, revoke, is_subject, revoked_row,
  revocation_row, revoke_row,
}
use consent_manager.Consents.Steps.{Op, perform_all, perform_all-ended}

done-row :
    (k : String) (call : Revocation) (fresh : String) (now : Time) (db : Database)
    (a : ConsentArtefact) {a' : ConsentArtefact}
    → (revoke_row k call fresh now (some a) db).0 ≡ Revoked.done a'
    → (is_active a.status ≡ true) × (is_subject call.subject_claims a ≡ true)
unfolding revoke_row
done-row k call fresh now db a h = ground arith

refused-row :
    (k : String) (call : Revocation) (fresh : String) (now : Time) (db : Database)
    (a : ConsentArtefact)
    → (is_active a.status && is_subject call.subject_claims a) ≡ false
    → (revoke_row k call fresh now (some a) db).1 ≡ db
unfolding revoke_row
refused-row k call fresh now db a h = ground arith

-- The caller is no subject, or the subject of the consent.
abbrev pub MayRevoke : Option SubjectClaims → ConsentArtefact → Type 0
MayRevoke none a = Unit
MayRevoke (some claims) a =
    (claims.subject_id_type ≡ some a.subject_id_type)
    × (claims.subject_id_value ≡ some a.subject_id_value)

MayRevoke-is_subject :
    (claims : Option SubjectClaims) (a : ConsentArtefact)
    → is_subject claims a ≡ true
    → MayRevoke claims a
unfolding is_subject
MayRevoke-is_subject none a h = tt
MayRevoke-is_subject (some claims) a h = (
  sym (same-true (some a.subject_id_type) claims.subject_id_type (ground arith)),
  sym (same-true (some a.subject_id_value) claims.subject_id_value (ground arith)),
)

is_subject-MayRevoke :
    (claims : Option SubjectClaims) (a : ConsentArtefact)
    → MayRevoke claims a
    → is_subject claims a ≡ true
unfolding is_subject
is_subject-MayRevoke none a h = refl
is_subject-MayRevoke (some claims) a h =
    rw (h.0, h.1) (rw (eq_refl a.subject_id_type, eq_refl a.subject_id_value) refl)

-- The row and the record that a revocation writes.
abbrev pub marked : Time → ConsentArtefact → ConsentArtefact
marked now a = record a { status = ArtefactStatus.revoked; revoked_at = some now }

abbrev pub recorded : String → Revocation → String → Time → RevocationRecord
recorded k call fresh now = record {
  id = fresh;
  created_at = now;
  consent_id = k;
  originated_by = call.originated_by;
  reason = call.reason;
  revoked_by = call.revoked_by;
}

module _ (k : String) (call : Revocation) (fresh : String) (now : Time) (db : Database)
    {a : ConsentArtefact} (found : get_artefact k db ≡ some a) where
  -- What a revocation that is made returns and writes.
  revoke_active :
      is_active a.status ≡ true
      → is_subject call.subject_claims a ≡ true
      → revoke k call fresh now db ≡ (
        Revoked.done (revoked_row now a),
        record (save_artefact (revoked_row now a) db) {
          revocations = add (revocation_row fresh k now call) db.revocations;
        },
      )
  unfolding revoke
  revoke_active act own = rw (found, revoke_row) (rw (own, act))

  -- Only an active consent is revoked, and only by its subject where the caller is a subject.
  pub revoke-done :
      {a' : ConsentArtefact}
      → (revoke k call fresh now db).0 ≡ Revoked.done a'
      → (is_active a.status ≡ true) × (is_subject call.subject_claims a ≡ true)
  unfolding revoke
  revoke-done h = done-row k call fresh now db a (rw found at h)

  -- A revocation of a consent that is not active, or by another subject, changes nothing.
  pub revoke_refused :
      (is_active a.status && is_subject call.subject_claims a) ≡ false
      → (revoke k call fresh now db).1 ≡ db
  unfolding revoke
  revoke_refused h = rw found (refused-row k call fresh now db a h)

  refused_other :
      is_subject call.subject_claims a ≡ false
      → revoke k call fresh now db ≡ (Revoked.not_the_subject, db)
  unfolding revoke
  refused_other other = rw (found, revoke_row) (rw other)

  refused_ended :
      is_subject call.subject_claims a ≡ true
      → is_active a.status ≡ false
      → revoke k call fresh now db ≡ (Revoked.already a.status, db)
  unfolding revoke
  refused_ended own ended = rw (found, revoke_row) (rw (own, ended))

  pub read_back :
      is_active a.status ≡ true
      → is_subject call.subject_claims a ≡ true
      → get_artefact k (revoke k call fresh now db).1 ≡ some (revoked_row now a)
  read_back act own =
      rw (revoke_active act own)
        (Table.get-save_found artefact_key k a (revoked_row now a) db.artefacts found refl)

  -- How a revocation ends: the caller may revoke and the consent is active, and then its row is marked,
  -- the record of the call is appended and no other table changes; or nothing is written, since the
  -- caller is another subject or the consent is not active, which the answer says.
  abbrev pub Ends : Type 0
  Ends =
      (MayRevoke call.subject_claims a
        × (a.status ≡ ArtefactStatus.active)
        × (revoke k call fresh now db ≡ (
          Revoked.done (marked now a),
          record (save_artefact (marked now a) db) {
            revocations = add (recorded k call fresh now) db.revocations;
          },
        )))
      ⊎ ((¬ MayRevoke call.subject_claims a)
          × (revoke k call fresh now db ≡ (Revoked.not_the_subject, db)))
      ⊎ (MayRevoke call.subject_claims a
          × (a.status ≢ ArtefactStatus.active)
          × (revoke k call fresh now db ≡ (Revoked.already a.status, db)))

  -- The revocation of a stored consent: if the caller is no subject, or the subject of the consent, and
  -- the consent is active, its status becomes revoked at the time of the call, a record with the
  -- caller's fields is appended, and nothing else changes. Any other subject is told so, and of a
  -- consent that has ended the status is told, in this order; both write nothing.
  pub revoke-Ends : Ends
  revoke-Ends = elim (Bool-cases (is_subject call.subject_claims a)) [
    | inr other ↦ inr (
        inl
          (λ own. cc (is_subject-MayRevoke call.subject_claims a own, other), refused_other other))
    | inl own ↦ elim (Bool-cases (is_active a.status)) [
      | inl act ↦ inl (
        MayRevoke-is_subject call.subject_claims a own,
        is_active-active a.status act,
        revoke_active act own,
      )
      | inr ended ↦ inr (
          inr (
            MayRevoke-is_subject call.subject_claims a own,
            λ e. cc (ap is_active e, ended),
            refused_ended own ended,
          ))
    ]
  ]

  -- After a revocation every later status read reports `revoked`, whatever happened in between.
  pub revoke-final :
      is_active a.status ≡ true
      → is_subject call.subject_claims a ≡ true
      → (ops : List (Time × Op)) (later : Time)
      → (get_status k later (perform_all ops (revoke k call fresh now db).1)).0
        ≡ some (record {
          consent_id = a.id;
          status = ArtefactStatus.revoked;
          valid_until = a.valid_until;
          checked_at = later;
        })
  unfolding get_status status_of_row
  revoke-final act own ops later =
      rw
        (perform_all-ended ops k (revoked_row now a) (revoke k call fresh now db).1
          (read_back act own) refl)
        refl
