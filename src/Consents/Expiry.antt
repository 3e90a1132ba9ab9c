-- ===== src/Consents/Expiry.antt =====
-- The expiry sweep: what it leaves, that it is idempotent, and that the lazy expiry of a status read
-- agrees with it.
use mathlib.Core.Option
use mathlib.Core.Logic.{◌↔◌}
use consent_manager.Base.{
  String, true, false, Option, none, some, List, [], ◌∷◌, map, ◌≡◌, ◌≢◌, ◌⊎◌, ◌≤◌, ◌<◌, refl, ap,
  arith, inl, inr, Bool-cases,
}
use consent_manager.Models.Status.{is_active-active, ArtefactStatus, is_active}
use consent_manager.Models.Rows.{Time, ConsentArtefact}
use consent_manager.Models.Table
use consent_manager.Models.Table.{All}
use consent_manager.Models.Database.{Database, artefact_key, get_artefact}
use consent_manager.Consents.Service.{
  StatusReport, get_status, status_of_row, expire_stale, lapsed, expire_if_stale, count_stale,
  artefact_status,
}

-- A row that the sweep has nothing to do with.
abbrev IsKept : Time → ConsentArtefact → Type 0
IsKept now a = lapsed now a ≡ false

swept-IsKept :
    (now : Time) (rows : List ConsentArtefact) → All (IsKept now) (map (expire_if_stale now) rows)
swept-IsKept now [] = tt
swept-IsKept now (a ∷ rows) = (ground arith, swept-IsKept now rows)

count_stale-fresh :
    (now : Time) (rows : List ConsentArtefact) → All (IsKept now) rows → count_stale now rows ≡ 0
unfolding count_stale
count_stale-fresh now [] h = refl
count_stale-fresh now (a ∷ rows) h = rw h.0 (count_stale-fresh now rows h.1)

map-fresh :
    (now : Time) (rows : List ConsentArtefact)
    → All (IsKept now) rows
    → map (expire_if_stale now) rows ≡ rows
map-fresh now [] h = refl
map-fresh now (a ∷ rows) h = rw (h.0, map-fresh now rows h.1)

-- What became of a row: it had ended while active and is expired now, or it is as it was, and then it
-- is not active or its validity has not passed.
abbrev pub IsSwept : Time → ConsentArtefact → ConsentArtefact → Type 0
IsSwept now a a' =
    ((a.status ≡ ArtefactStatus.active)
      × (a.valid_until < now)
      × (a' ≡ record a { status = ArtefactStatus.expired; expired_at = some now }))
    ⊎ ((a' ≡ a) × ((a.status ≢ ArtefactStatus.active) ⊎ (now ≤ a.valid_until)))

-- Each row, in the table's order.
abbrev pub AreSwept : Time → List ConsentArtefact → List ConsentArtefact → Type 0
AreSwept now [] [] = Unit
AreSwept now (a ∷ rows) (a' ∷ rows') = IsSwept now a a' × AreSwept now rows rows'
AreSwept now _ _ = ⊥

expire_if_stale-IsSwept : (now : Time) (a : ConsentArtefact) → IsSwept now a (expire_if_stale now a)
expire_if_stale-IsSwept now a = elim (Bool-cases (lapsed now a)) [
  | inl old ↦ rw old (inl (is_active-active a.status (ground arith), ground arith, refl))
  | inr kept ↦ rw kept (
      inr (
        refl,
        elim (Bool-cases (is_active a.status)) [
          | inl act ↦ inr (ground arith)
          | inr ended ↦ inl (λ e. cc (ap is_active e, ended))
        ],
      ))
]

map-AreSwept :
    (now : Time) (rows : List ConsentArtefact) → AreSwept now rows (map (expire_if_stale now) rows)
map-AreSwept now [] = tt
map-AreSwept now (a ∷ rows) = (expire_if_stale-IsSwept now a, map-AreSwept now rows)

-- A sweep goes through all rows in order: a row that is active and whose valid_until is before the
-- time of the sweep becomes expired at that time and keeps its other columns, and every other row
-- stays as it is, so that no active consent is past its validity afterwards.
pub expire_stale-AreSwept :
    (now : Time) (db : Database) → AreSwept now db.artefacts (expire_stale now db).1.artefacts
unfolding expire_stale
expire_stale-AreSwept now db = map-AreSwept now db.artefacts

-- A second sweep at the same time expires nothing and changes nothing: the job may run on several
-- replicas.
pub expire_stale_idem :
    (now : Time) (db : Database)
    → expire_stale now (expire_stale now db).1 ≡ (0, (expire_stale now db).1)
unfolding expire_stale
expire_stale_idem now db =
    let rows = map (expire_if_stale now) db.artefacts in
    cc (
      count_stale-fresh now rows (swept-IsKept now db.artefacts),
      map-fresh now rows (swept-IsKept now db.artefacts),
    )

-- What a reader is told of a consent at `now`: its terms' end and its status, expiry applied.
told : Time → String → Option ConsentArtefact → Option StatusReport
told now k none = none
told now k (some a) = some (record {
  consent_id = a.id;
  status = artefact_status now a;
  valid_until = a.valid_until;
  checked_at = now;
})

status_of_row-told :
    (now : Time) (k : String) (found : Option ConsentArtefact) (db : Database)
    → (status_of_row now found db).0 ≡ told now k found
unfolding status_of_row told artefact_status
status_of_row-told now k none db = refl
status_of_row-told now k (some a) db = ground arith

told-swept :
    (before now : Time) (k : String) (found : Option ConsentArtefact)
    → before ≤ now
    → told now k (Option.map (expire_if_stale before) found) ≡ told now k found
unfolding told artefact_status
told-swept before now k none h = refl
told-swept before now k (some a) h = ground arith

-- A status read at `now` reports the same whether or not the sweep has run before it, then or earlier.
pub get_status-expire_stale :
    (k : String) (before now : Time) (db : Database)
    → before ≤ now
    → (get_status k now (expire_stale before db).1).0 ≡ (get_status k now db).0
unfolding get_status expire_stale
get_status-expire_stale k before now db h = cc (
  status_of_row-told now k (get_artefact k (expire_stale before db).1) (expire_stale before db).1,
  Table.get-map artefact_key (expire_if_stale before) (λ r. ground arith) k db.artefacts,
  told-swept before now k (get_artefact k db) h,
  status_of_row-told now k (get_artefact k db) db,
)

told-active :
    (now : Time) (k : String) (a : ConsentArtefact) (r : StatusReport)
    → told now k (some a) ≡ some r
    → (is_active r.status ≡ true) ↔ ((is_active a.status ≡ true) × (now ≤ a.valid_until))
unfolding told artefact_status
told-active now k a r e =
    let read = ap (Option.map (λ (x : StatusReport). x.status)) e in
    (λ act. (ground (arith, read), ground (arith, read)), λ p. ground (arith, read))

-- The status that a read reports is active exactly when the consent is stored as active and its
-- validity has not passed.
pub get_status-active :
    (k : String) (now : Time) (db : Database) {a : ConsentArtefact} {r : StatusReport}
    → get_artefact k db ≡ some a
    → (get_status k now db).0 ≡ some r
    → (is_active r.status ≡ true) ↔ ((is_active a.status ≡ true) × (now ≤ a.valid_until))
unfolding get_status
get_status-active k now db {a} {r} h e =
    told-active now k a r (cc (status_of_row-told now k (get_artefact k db) db, h, e))
