-- ===== src/Origination/Once.antt =====
-- At most one consent is made of a request, and only of one that is then closed.
use mathlib.Core.Path.{subst}
use consent_manager.Base.{
  String, Bool, true, false, ◌||◌, Option, none, some, List, [], ◌∷◌, ◌==◌, ◌≡◌, refl, sym, ap, inl,
  inr, Bool-cases, eq-true, eq_sym,
}
use consent_manager.Models.Status.{is_pending, is_pending_verification}
use consent_manager.Models.Rows.{ConsentRequest, ConsentArtefact}
use consent_manager.Models.Table
use consent_manager.Models.Database.{
  Database, ConsentReceipt, get_request, save_request, request_key, add,
}
use consent_manager.Lifecycle.Artefacts.{commit_consent}

-- A request that can still be approved.
abbrev pub is_open : ConsentRequest → Bool
is_open r = is_pending r.status || is_pending_verification r.status

abbrev pub IsClosed : Option ConsentRequest → Type 0
IsClosed none = ⊥
IsClosed (some r) = is_open r ≡ false

abbrev pub SettledIn : List ConsentRequest → Option String → Type 0
SettledIn requests none = Unit
SettledIn requests (some k) = IsClosed (Table.get request_key k requests)

-- The request that an artefact was made of is stored and closed.
abbrev pub Settled : List ConsentRequest → ConsentArtefact → Type 0
Settled requests a = SettledIn requests a.consent_request_id

abbrev pub same_origin : Option String → Option String → Bool
same_origin (some j) (some k) = j == k
same_origin _ _ = false

-- No two artefacts were made of one request.
abbrev pub OnlyOnce : List ConsentArtefact → Type 0
OnlyOnce [] = Unit
OnlyOnce (a ∷ rows) =
    Table.All
      (λ (b : ConsentArtefact). same_origin a.consent_request_id b.consent_request_id ≡ false) rows
    × OnlyOnce rows

abbrev pub IsOnce : Database → Type 0
IsOnce db = Table.All (Settled db.requests) db.artefacts × OnlyOnce db.artefacts

All-map :
    (P Q : ConsentArtefact → Type 0) (rows : List ConsentArtefact)
    → ((a : ConsentArtefact) → P a → Q a)
    → Table.All P rows
    → Table.All Q rows
All-map P Q [] f h = tt
All-map P Q (a ∷ rows) f h = (f a h.0, All-map P Q rows f h.1)

IsClosed-get :
    (requests : List ConsentRequest) (j k : String) {req : ConsentRequest}
    → Table.get request_key k requests ≡ some req
    → is_open req ≡ true
    → IsClosed (Table.get request_key j requests)
    → (k == j) ≡ false
IsClosed-get requests j k {req} found opened closed = elim (Bool-cases (k == j)) [
  | inr d ↦ d
  | inl e ↦
      let here : Table.get request_key j requests ≡ some req =
        cc (found, ap (λ x. Table.get request_key x requests) (eq-true k j e)) in
      let not_open : is_open req ≡ false = subst IsClosed here closed in
      absurd (cc (opened, not_open))
]

-- An open request can change as it will: no artefact was made of it.
save-SettledIn :
    (requests : List ConsentRequest) (k : String) (req new : ConsentRequest)
    (origin : Option String)
    → Table.get request_key k requests ≡ some req
    → is_open req ≡ true
    → new.id ≡ req.id
    → SettledIn requests origin
    → SettledIn (Table.save request_key new requests) origin
save-SettledIn requests k req new none found opened same_id h = tt
save-SettledIn requests k req new (some j) found opened same_id h =
    let apart = IsClosed-get requests j k {req = req} found opened h in
    let key = Table.key-get request_key k requests found in
    let other : (new.id == j) ≡ false = cc (apart, key, same_id) in
    subst IsClosed (sym (Table.get-save_ne request_key new j requests other)) h

pub save_open-IsOnce :
    (db : Database) (k : String) (req new : ConsentRequest)
    → get_request k db ≡ some req
    → is_open req ≡ true
    → new.id ≡ req.id
    → IsOnce db
    → IsOnce (save_request new db)
save_open-IsOnce db k req new found opened same_id once = (
  All-map (Settled db.requests) (Settled (save_request new db).requests) db.artefacts
      (λ a h. save-SettledIn db.requests k req new a.consent_request_id found opened same_id h)
      once.0,
  once.1,
)

IsClosed-append :
    (requests : List ConsentRequest) (new : ConsentRequest) (j : String)
    → IsClosed (Table.get request_key j requests)
    → IsClosed (Table.get request_key j (add new requests))
unfolding Table.get
IsClosed-append [] new j h = absurd h
IsClosed-append (r ∷ rs) new j h = elim (Bool-cases (r.id == j)) [
  | inl own ↦ rw own (rw own at h)
  | inr other ↦ rw other (IsClosed-append rs new j (rw other at h))
]

append-SettledIn :
    (requests : List ConsentRequest) (new : ConsentRequest) (origin : Option String)
    → SettledIn requests origin
    → SettledIn (add new requests) origin
append-SettledIn requests new none h = tt
append-SettledIn requests new (some j) h = IsClosed-append requests new j h

-- A new request has no artefact, whatever its id.
pub add_request-IsOnce :
    (db : Database) (new : ConsentRequest)
    → IsOnce db
    → IsOnce (record db { requests = add new db.requests })
add_request-IsOnce db new once = (
  All-map (Settled db.requests) (Settled (add new db.requests)) db.artefacts
      (λ a h. append-SettledIn db.requests new a.consent_request_id h) once.0,
  once.1,
)

same_origin-open :
    (requests : List ConsentRequest) (k : String) (req : ConsentRequest) (origin : Option String)
    → Table.get request_key k requests ≡ some req
    → is_open req ≡ true
    → SettledIn requests origin
    → same_origin origin (some k) ≡ false
same_origin-open requests k req none found opened h = refl
same_origin-open requests k req (some j) found opened h =
    cc (IsClosed-get requests j k {req = req} found opened h, eq_sym j k)

OnlyOnce-add :
    (rows : List ConsentArtefact) (a : ConsentArtefact)
    → OnlyOnce rows
    → Table.All
        (λ (b : ConsentArtefact). same_origin b.consent_request_id a.consent_request_id ≡ false)
        rows
    → OnlyOnce (add a rows)
OnlyOnce-add [] a once apart = (tt, tt)
OnlyOnce-add (b ∷ rows) a once apart = (
  Table.All-append
      (λ (c : ConsentArtefact). same_origin b.consent_request_id c.consent_request_id ≡ false) rows
      (a ∷ []) once.0 (apart.0, tt),
  OnlyOnce-add rows a once.1 apart.1,
)

-- The commit of an approval: the open request is closed, and its one artefact stored.
pub commit_consent-IsOnce :
    (db : Database) (k : String) (req new : ConsentRequest) (a : ConsentArtefact)
    (receipt : ConsentReceipt)
    → get_request k db ≡ some req
    → is_open req ≡ true
    → new.id ≡ req.id
    → is_open new ≡ false
    → a.consent_request_id ≡ some req.id
    → IsOnce db
    → IsOnce (commit_consent new a receipt db)
commit_consent-IsOnce db k req new a receipt found opened same_id closed origin once =
    let requests = Table.save request_key new db.requests in
    let kept = (save_open-IsOnce db k req new found opened same_id once).0 in
    let key = Table.key-get request_key k db.requests found in
    let own : a.consent_request_id ≡ some k = cc (origin, key) in
    let stored = Table.get-save_found request_key k req new db.requests found same_id in
    let made : Settled requests a =
      subst (SettledIn requests) (sym own) (subst IsClosed (sym stored) closed) in
    (
      Table.All-append (Settled requests) db.artefacts (a ∷ []) kept (made, tt),
      OnlyOnce-add db.artefacts a once.1 (
          All-map (Settled db.requests)
            (λ (b : ConsentArtefact). same_origin b.consent_request_id a.consent_request_id ≡ false)
            db.artefacts
            (λ b h. rw own (same_origin-open db.requests k req b.consent_request_id found opened h))
            once.0),
    )
