-- ===== src/Assisted/Files.antt =====
-- The evidence of a request: never more files than the settings allow, and fixed once it is submitted.
use consent_manager.Base.{
  suc, ◌≤◌, String, true, false, Option, none, some, List, [], ◌∷◌, ◌++◌, ◌==◌, ◌≡◌, refl, inl, inr,
  eq_iff, Bool-cases, arith, ok, err, if◌then◌else◌,
}
use consent_manager.Models.Status.{is_pending}
use consent_manager.Models.Rows.{ConsentRequest, ConsentEvidence}
use consent_manager.Models.Database.{Database, get_request, add}
use consent_manager.Models.Table
use consent_manager.Config.{Settings}
use consent_manager.Scopes.{keep}
use consent_manager.Lifecycle.Errors.{LifecycleError}
use consent_manager.Assisted.Requests.{visible, count_kept}
use consent_manager.Assisted.Evidence.{
  evidence_key, is_of, evidence_of, save_to, save_evidence, delete_from, delete_of, delete_evidence,
  FileCall, upload, removal, change_files,
}

count_kept-keep_append :
    (k : String) (es : List ConsentEvidence) (e : ConsentEvidence)
    → count_kept (keep (is_of k) (es ++ e ∷ [])) ≡ (
        if e.consent_request_id == k
        then suc (count_kept (keep (is_of k) es))
        else count_kept (keep (is_of k) es))
unfolding count_kept keep
count_kept-keep_append k [] e = ground arith
count_kept-keep_append k (x ∷ es) e = ground (arith, count_kept-keep_append k es e)

save_to-bound :
    (config : Settings) (evidence : ConsentEvidence) (row : Option ConsentRequest) (db : Database)
    {db' : Database}
    → save_to config evidence row db ≡ ok db'
    → (k : String) → count_kept (evidence_of k db) ≤ config.evidence_max_files_per_request
    → count_kept (evidence_of k db') ≤ config.evidence_max_files_per_request
unfolding save_to
save_to-bound config evidence none db h k bound = cc
save_to-bound config evidence (some r) db {db'} h k bound =
    ground
      (arith, count_kept-keep_append k db.evidence evidence, eq_iff evidence.consent_request_id k)

-- No request ever has more files than the settings allow: an upload keeps the bound of every request.
pub save_evidence-bound :
    (config : Settings) (evidence : ConsentEvidence) (db : Database) {db' : Database} (k : String)
    → save_evidence config evidence db ≡ ok db'
    → count_kept (evidence_of k db) ≤ config.evidence_max_files_per_request
    → count_kept (evidence_of k db') ≤ config.evidence_max_files_per_request
unfolding save_evidence
save_evidence-bound config evidence db k h bound =
    save_to-bound config evidence (get_request evidence.consent_request_id db) db h k bound

keep-append_other :
    (k : String) (es : List ConsentEvidence) (e : ConsentEvidence)
    → (e.consent_request_id == k) ≡ false
    → keep (is_of k) (es ++ e ∷ []) ≡ keep (is_of k) es
unfolding keep
keep-append_other k [] e other = rw other refl
keep-append_other k (x ∷ es) e other = rw (keep-append_other k es e other) refl

keep-delete_other :
    (k i : String) (es : List ConsentEvidence) (e : ConsentEvidence)
    → Table.get evidence_key i es ≡ some e
    → (e.consent_request_id == k) ≡ false
    → keep (is_of k) (Table.delete evidence_key i es) ≡ keep (is_of k) es
unfolding keep Table.get Table.delete
keep-delete_other k i [] e found other = cc
keep-delete_other k i (x ∷ es) e found other = elim (Bool-cases (x.id == i)) [
  | inl hit ↦
      let same_row : ◌≡◌ {A = Option ConsentEvidence} (some x) (some e) = rw hit at found in
      let differs : (x.consent_request_id == k) ≡ false = cc (same_row, other) in
      rw hit (rw differs refl)
  | inr miss ↦ rw miss (rw (keep-delete_other k i es e (rw miss at found) other) refl)
]

ended_twice :
    (r old : ConsentRequest)
    → r ≡ old
    → is_pending r.status ≡ false
    → ¬ (is_pending old.status ≡ true)
ended_twice r old e ended pending = cc

-- A request that is pending is another one than a request that is not.
apart :
    (k j : String) (db : Database) {r old : ConsentRequest}
    → get_request k db ≡ some r
    → is_pending r.status ≡ false
    → get_request j db ≡ some old
    → is_pending old.status ≡ true
    → (j == k) ≡ false
apart k j db {r} {old} found ended other pending = elim (Bool-cases (j == k)) [
  | inl e ↦ absurd (ended_twice r old (cc ((eq_iff j k).0 e, found, other)) ended pending)
  | inr d ↦ d
]

save_to-frozen :
    (config : Settings) (evidence : ConsentEvidence) (row : Option ConsentRequest) (db : Database)
    (k : String) {r : ConsentRequest} {db' : Database}
    → get_request evidence.consent_request_id db ≡ row
    → get_request k db ≡ some r
    → is_pending r.status ≡ false
    → save_to config evidence row db ≡ ok db'
    → evidence_of k db' ≡ evidence_of k db
unfolding save_to
save_to-frozen config evidence none db k read found ended h = cc
save_to-frozen config evidence (some old) db k {r} {db'} read found ended h =
    let pending : is_pending old.status ≡ true = ground arith in
    let stored : db' ≡ record db { evidence = add evidence db.evidence } = ground arith in
    let other = apart k evidence.consent_request_id db found ended read pending in
    rw stored (keep-append_other k db.evidence evidence other)

delete_from-frozen :
    (j i k : String) (old : ConsentRequest) (row : Option ConsentEvidence) (db : Database)
    {r : ConsentRequest} {db' : Database}
    → Table.get evidence_key i db.evidence ≡ row
    → get_request j db ≡ some old
    → get_request k db ≡ some r
    → is_pending r.status ≡ false
    → delete_from old j i row db ≡ ok db'
    → evidence_of k db' ≡ evidence_of k db
unfolding delete_from
delete_from-frozen j i k old none db at read found ended h = cc
delete_from-frozen j i k old (some e) db {r} {db'} at read found ended h =
    let mine : (e.consent_request_id == j) ≡ true = ground arith in
    let pending : is_pending old.status ≡ true = ground arith in
    let stored : db' ≡ record db { evidence = Table.delete evidence_key i db.evidence } =
      ground arith in
    let other = apart k j db found ended read pending in
    rw stored
      (keep-delete_other k i db.evidence e at (cc ((eq_iff e.consent_request_id j).0 mine, other)))

never_ok : {e : LifecycleError} {d : Database} → ¬ (err e ≡ ok d)
never_ok h = cc

delete_of-frozen :
    (j i audience k : String) (row : Option ConsentRequest) (db : Database) {r : ConsentRequest}
    {db' : Database}
    → get_request j db ≡ row
    → get_request k db ≡ some r
    → is_pending r.status ≡ false
    → delete_of j i audience row db ≡ ok db'
    → evidence_of k db' ≡ evidence_of k db
unfolding delete_of
delete_of-frozen j i audience k none db read found ended h = cc
delete_of-frozen j i audience k (some old) db read found ended h =
    elim (Bool-cases (visible (some audience) old)) [
      | inl seen ↦
          delete_from-frozen j i k old (Table.get evidence_key i db.evidence) db refl read found
            ended (rw seen at h)
      | inr hidden ↦ absurd (never_ok (rw hidden at h))
    ]

-- The evidence of a request that is not pending (any more) is fixed: no upload and no removal that
-- succeeds, of whatever request, changes it.
pub change_files-frozen :
    (config : Settings) (call : FileCall) (k : String) (db : Database) {r : ConsentRequest}
    {db' : Database}
    → get_request k db ≡ some r
    → is_pending r.status ≡ false
    → change_files config call db ≡ ok db'
    → evidence_of k db' ≡ evidence_of k db
unfolding save_evidence delete_evidence
change_files-frozen config (upload evidence) k db found ended h =
    save_to-frozen config evidence (get_request evidence.consent_request_id db) db k refl found
      ended h
change_files-frozen config (removal j i audience) k db found ended h =
    delete_of-frozen j i audience k (get_request j db) db refl found ended h
