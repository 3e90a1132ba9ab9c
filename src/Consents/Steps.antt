-- ===== src/Consents/Steps.antt =====
-- What the operations of ConsentService do to a stored consent: a step relation on its row, which
-- every operation follows, and what histories of operations keep.
use consent_manager.Base.{
  String, true, false, Option, none, some, List, [], ◌∷◌, ◌==◌, ◌<◌, ◌≡◌, refl, ◌⊎◌, inl, inr,
  arith, eq_iff, Bool-cases,
}
use consent_manager.Models.Status.{is_active}
use consent_manager.Models.Rows.{Time, ConsentArtefact}
use consent_manager.Models.Table
use consent_manager.Models.Database.{Database, artefact_key, get_artefact, save_artefact}
use consent_manager.Consents.Service.{
  Revocation, get_status, revoke, is_subject, status_of_row, revoke_row, expire_stale, lapsed,
  expire, expire_if_stale, revoked_row,
}

-- One operation of the service, at its time.
pub data Op : Type 0 where
  status_read : String → Op
  revocation : String → Revocation → String → Op
  sweep : Op

unfoldable pub perform : Time → Op → Database → Database
perform now (status_read k) db = (get_status k now db).1
perform now (revocation k call fresh) db = (revoke k call fresh now db).1
perform now sweep db = (expire_stale now db).1

unfoldable pub perform_all : List (Time × Op) → Database → Database
perform_all [] db = db
perform_all ((now, op) ∷ ops) db = perform_all ops (perform now op db)

-- A consent stays as it is; or, while active, is revoked, or is expired after its validity.
pub data Step (now : Time) (a a' : ConsentArtefact) : Type 0 where
  stays : a' ≡ a → Step now a a'
  revokes : is_active a.status ≡ true → a' ≡ revoked_row now a → Step now a a'
  expires : is_active a.status ≡ true → a.valid_until < now → a' ≡ expire now a → Step now a a'

-- The row of a key after an operation, one step from the row before.
abbrev Stepped : Time → String → ConsentArtefact → Database → Type 0
Stepped now k a db' = (a' : ConsentArtefact) × (get_artefact k db' ≡ some a') × Step now a a'

lapsed-Step :
    (now : Time) (a : ConsentArtefact)
    → lapsed now a ≡ true
    → (is_active a.status ≡ true) × (a.valid_until < now)
lapsed-Step now a h = (ground arith, ground arith)

expire_if_stale-Step : (now : Time) (a : ConsentArtefact) → Step now a (expire_if_stale now a)
expire_if_stale-Step now a = elim (Bool-cases (lapsed now a)) [
  | inl l ↦ let (act, past) = lapsed-Step now a l in expires act past (rw l)
  | inr n ↦ stays (rw n)
]

sweep-Stepped :
    (now : Time) (k : String) (a : ConsentArtefact) (db : Database)
    → get_artefact k db ≡ some a
    → Stepped now k a (perform now sweep db)
unfolding perform expire_stale
sweep-Stepped now k a db h = (
  expire_if_stale now a,
  rw (Table.get-map artefact_key (expire_if_stale now) (λ r. ground arith) k db.artefacts, h),
  expire_if_stale-Step now a,
)

-- The row that was found and written back has the key that it was found under.
saved :
    (k j : String) (old new a : ConsentArtefact) (db : Database)
    → get_artefact j db ≡ some old
    → new.id ≡ old.id
    → get_artefact k db ≡ some a
    → ((k ≡ j) × (get_artefact k (save_artefact new db) ≡ some new) × (a ≡ old))
      ⊎ (get_artefact k (save_artefact new db) ≡ some a)
saved k j old new a db found same_id h =
    let key = Table.key-get artefact_key j db.artefacts found in
    elim (Bool-cases (new.id == k)) [
      | inl e ↦
          let kj : k ≡ j = cc ((eq_iff new.id k).0 e, same_id, key) in
          inl (
            kj,
            rw (← (eq_iff new.id k).0 e) (
                Table.get-save_self artefact_key new db.artefacts {old = old}
                  (cc ((eq_iff new.id k).0 e, kj, found))),
            cc (h, found, kj),
          )
      | inr d ↦ inr (cc (Table.get-save_ne artefact_key new k db.artefacts d, h))
    ]

status_of_row-Stepped :
    (now : Time) (k j : String) (a : ConsentArtefact) (found : Option ConsentArtefact)
    (db : Database)
    → get_artefact j db ≡ found
    → get_artefact k db ≡ some a
    → Stepped now k a (status_of_row now found db).1
unfolding status_of_row
status_of_row-Stepped now k j a none db at h = (a, h, stays refl)
status_of_row-Stepped now k j a (some old) db at h = elim (Bool-cases (lapsed now old)) [
  | inr n ↦ rw n (a, h, stays refl)
  | inl l ↦ rw l (elim (saved k j old (expire now old) a db at refl h) [
    | inl (same_key, read, same_row) ↦
        let (act, past) = lapsed-Step now old l in
        (expire now old, read, rw same_row (expires act past refl))
    | inr kept ↦ (a, kept, stays refl)
  ])
]

revoke_row-Stepped :
    (now : Time) (k j : String) (call : Revocation) (fresh : String) (a : ConsentArtefact)
    (found : Option ConsentArtefact) (db : Database)
    → get_artefact j db ≡ found
    → get_artefact k db ≡ some a
    → Stepped now k a (revoke_row j call fresh now found db).1
unfolding revoke_row
revoke_row-Stepped now k j call fresh a none db at h = (a, h, stays refl)
revoke_row-Stepped now k j call fresh a (some old) db at h =
    elim (Bool-cases (is_subject call.subject_claims old)) [
      | inr other ↦ rw other (a, h, stays refl)
      | inl own ↦ rw own (elim (Bool-cases (is_active old.status)) [
        | inr ended ↦ rw ended (a, h, stays refl)
        | inl act ↦ rw act (elim (saved k j old (revoked_row now old) a db at refl h) [
          | inl (same_key, read, same_row) ↦
              (revoked_row now old, read, rw same_row (revokes act refl))
          | inr kept ↦ (a, kept, stays refl)
        ])
      ])
    ]

-- Every operation moves every stored consent by at most one step: it stays as it is; or, being active,
-- it is revoked; or, being active and past its validity, it is expired. Nothing but its status and
-- the time of the change is written, and no row disappears.
pub perform-Step :
    (now : Time) (op : Op) (k : String) (a : ConsentArtefact) (db : Database)
    → get_artefact k db ≡ some a
    → (a' : ConsentArtefact) × (get_artefact k (perform now op db) ≡ some a') × Step now a a'
unfolding perform get_status revoke
perform-Step now (status_read j) k a db h =
    status_of_row-Stepped now k j a (get_artefact j db) db refl h
perform-Step now (revocation j call fresh) k a db h =
    revoke_row-Stepped now k j call fresh a (get_artefact j db) db refl h
perform-Step now sweep k a db h = sweep-Stepped now k a db h

ended-stays :
    {now : Time} (a a' : ConsentArtefact) → is_active a.status ≡ false → Step now a a' → a' ≡ a
ended-stays a a' h (stays e) = e
ended-stays a a' h (revokes act e) = cc
ended-stays a a' h (expires act past e) = cc

-- A consent that was revoked or has expired never changes again, whatever operations follow.
pub perform_all-ended :
    (ops : List (Time × Op)) (k : String) (a : ConsentArtefact) (db : Database)
    → get_artefact k db ≡ some a
    → is_active a.status ≡ false
    → get_artefact k (perform_all ops db) ≡ some a
unfolding perform_all
perform_all-ended [] k a db h ended = h
perform_all-ended ((now, op) ∷ ops) k a db h ended =
    let (a', read, step) = perform-Step now op k a db h in
    perform_all-ended ops k a (perform now op db) (cc (read, ended-stays a a' ended step)) ended

-- What a consent grants: everything but its status and the times of its end.
abbrev pub SameTerms : ConsentArtefact → ConsentArtefact → Type 0
SameTerms a b =
    a ≡ record b { status = a.status; revoked_at = a.revoked_at; expired_at = a.expired_at }

Step-SameTerms : {now : Time} (a a' : ConsentArtefact) → Step now a a' → SameTerms a' a
Step-SameTerms a a' (stays e) = cc
Step-SameTerms a a' (revokes act e) = cc
Step-SameTerms a a' (expires act past e) = cc

-- No history of operations changes the terms of a consent: its subject, partner, purpose, grants,
-- scopes and validity.
pub perform_all-SameTerms :
    (ops : List (Time × Op)) (k : String) (a : ConsentArtefact) (db : Database)
    → get_artefact k db ≡ some a
    → (a' : ConsentArtefact) × (get_artefact k (perform_all ops db) ≡ some a') × SameTerms a' a
unfolding perform_all
perform_all-SameTerms [] k a db h = (a, h, refl)
perform_all-SameTerms ((now, op) ∷ ops) k a db h =
    let (b, read, step) = perform-Step now op k a db h in
    let (c, last, same_terms) = perform_all-SameTerms ops k b (perform now op db) read in
    (c, last, cc (same_terms, Step-SameTerms a b step))
