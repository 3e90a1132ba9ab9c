-- ===== src/Assisted/Submitted.antt =====
-- What a submission of an assisted request rests on.
use mathlib.Core.List.{Memᴰ}
use mathlib.Core.Path.{subst}
use consent_manager.Base.{
  ◌<◌, String, true, false, ◌&&◌, Option, none, some, List, [], ◌∷◌, ◌≡◌, ◌⊎◌, inl, inr, refl,
  arith, ◌==◌, same, same-true, eq-true, ok, Bool-cases, ltb,
}
use consent_manager.Models.Status.{
  RequestStatus, RequestMethod, SubjectAuthStatus, EvidenceKind, is_signed_form,
}
use consent_manager.Models.Rows.{
  Time, ConsentRequest, ConsentEvidence, SubjectAuthSession, AuthContext,
}
use consent_manager.Models.Database.{Database, get_request, save_request}
use consent_manager.Config.{Settings}
use consent_manager.Scopes.{keep}
use consent_manager.Scopes.Kept.{Memᴰ-keep}
use consent_manager.Lifecycle.Authenticate.{latest_context, later_context}
use consent_manager.Assisted.Requests.{
  visible, is_assisted, is_success, on_visible, is_form_of, forms, count_kept, has_session,
  authenticated, is_given, submit_checked, submit,
}
use consent_manager.Assisted.Moves.{on_visible-ok, commit-ok, submit_checked-ok, is_pending-pending}

-- A signed form of the request.
abbrev pub HasForm : String → Database → Type 0
HasForm k db =
    (e : ConsentEvidence) × Memᴰ e db.evidence
    × (e.consent_request_id ≡ k)
    × (e.kind ≡ EvidenceKind.signed_form)

-- A session of the request that succeeded.
abbrev pub IsLogin : String → String → SubjectAuthSession → Type 0
IsLogin k context s =
    (s.consent_request_id ≡ k)
    × (s.status ≡ SubjectAuthStatus.success)
    × (s.auth_context_id ≡ some context)

-- An authentication of the request's subject: a session that succeeded, with its context.
abbrev pub HasLogin : String → Database → Type 0
HasLogin k db =
    (c : AuthContext) × Memᴰ c db.auth_contexts
    × ((s : SubjectAuthSession) × Memᴰ s db.auth_sessions × IsLogin k c.id s)

is_success-success : (s : SubjectAuthStatus) → is_success s ≡ true → s ≡ SubjectAuthStatus.success
is_success-success s h = ground arith

is_signed_form-form :
    (kind : EvidenceKind) → is_signed_form kind ≡ true → kind ≡ EvidenceKind.signed_form
is_signed_form-form kind h = ground arith

is_assisted-assisted :
    (m : Option RequestMethod) → is_assisted m ≡ true → m ≡ some RequestMethod.assisted
is_assisted-assisted none h = cc
is_assisted-assisted (some RequestMethod.assisted) h = refl
is_assisted-assisted (some RequestMethod.sms) h = cc
is_assisted-assisted (some RequestMethod.self_service) h = cc

counted : (es : List ConsentEvidence) → 0 < count_kept es → (e : ConsentEvidence) × Memᴰ e es
unfolding count_kept
counted [] h = absurd (ground arith)
counted (e ∷ es) h = (e, Memᴰ.head refl)

forms-HasForm : (k : String) (db : Database) → 0 < forms k db → HasForm k db
forms-HasForm k db h =
    let (e, kept) = counted (keep (is_form_of k) db.evidence) h in
    let (inside, own) = Memᴰ-keep (is_form_of k) db.evidence e kept in
    (
      e,
      inside,
      eq-true e.consent_request_id k (ground arith),
      is_signed_form-form e.kind (ground arith),
    )

has_session-IsLogin :
    (k : String) (c : AuthContext) (ss : List SubjectAuthSession)
    → has_session k c ss ≡ true
    → (s : SubjectAuthSession) × Memᴰ s ss × IsLogin k c.id s
unfolding has_session
has_session-IsLogin k c [] h = cc
has_session-IsLogin k c (s ∷ ss) h =
    elim (Bool-cases
      (s.consent_request_id == k && is_success s.status && same s.auth_context_id (some c.id))) [
        | inl own ↦ (
          s,
          Memᴰ.head refl,
          (
            eq-true s.consent_request_id k (ground arith),
            is_success-success s.status (ground arith),
            same-true s.auth_context_id (some c.id) (ground arith),
          ),
        )
        | inr other ↦
            let (found, inside, own) = has_session-IsLogin k c ss (ground arith) in
            (found, Memᴰ.tail inside, own)
      ]

context-injective : {a b : AuthContext} → ◌≡◌ {A = Option AuthContext} (some a) (some b) → a ≡ b
context-injective h = cc

later_context-Memᴰ :
    (c : AuthContext) (cs : List AuthContext) (best : Option AuthContext)
    → ((b : AuthContext) → best ≡ some b → Memᴰ b cs)
    → Memᴰ (later_context c best) (c ∷ cs)
unfolding later_context
later_context-Memᴰ c cs none inside = Memᴰ.head refl
later_context-Memᴰ c cs (some b) inside = elim (Bool-cases (ltb c.created_at b.created_at)) [
  | inl later ↦ rw later (Memᴰ.tail (inside b refl))
  | inr first ↦ rw first (Memᴰ.head refl)
]

latest_context-Memᴰ :
    (cs : List AuthContext) (c : AuthContext) → latest_context cs ≡ some c → Memᴰ c cs
unfolding latest_context
latest_context-Memᴰ [] c h = cc
latest_context-Memᴰ (x ∷ xs) c h =
    subst (λ y. Memᴰ y (x ∷ xs)) (context-injective h)
      (later_context-Memᴰ x xs (latest_context xs) (latest_context-Memᴰ xs))

is_given-some : {A : Type 0} (found : Option A) → is_given found ≡ true → (a : A) × (found ≡ some a)
is_given-some none h = cc
is_given-some (some a) h = (a, refl)

authenticated-HasLogin :
    (k : String) (db : Database) → is_given (authenticated k db) ≡ true → HasLogin k db
unfolding authenticated
authenticated-HasLogin k db h =
    let (c, found) = is_given-some (authenticated k db) h in
    let (inside, own) =
      Memᴰ-keep (λ x. has_session k x db.auth_sessions) db.auth_contexts c
        (latest_context-Memᴰ (keep (λ x. has_session k x db.auth_sessions) db.auth_contexts) c
          found) in
    (c, inside, has_session-IsLogin k c db.auth_sessions own)

-- A submission succeeds only for a pending assisted request of the caller's partner with a signed form
-- and, where subjects must authenticate, with a session of the request that succeeded and its context.
-- The request then waits for verification, submitted at the time of the call, with its other columns
-- as they were, and it is the only row that is written.
pub submit-IsSubmitted :
    (config : Settings) (now : Time) (k audience : String) (db : Database) {r' : ConsentRequest}
    {db' : Database}
    → submit config now k audience db ≡ ok (r', db')
    → (r : ConsentRequest) × (get_request k db ≡ some r)
      × (r.method ≡ some RequestMethod.assisted)
      × (r.partner_audience ≡ some audience)
      × (r.status ≡ RequestStatus.pending)
      × HasForm k db
      × ((config.subject_auth_enabled ≡ false) ⊎ HasLogin k db)
      × (r' ≡ record r { status = RequestStatus.pending_verification; submitted_at = some now })
      × (db' ≡ save_request r' db)
unfolding submit visible
submit-IsSubmitted config now k audience db {r'} h =
    let found = get_request k db in
    let (change, saved) =
      commit-ok (on_visible (some audience) (submit_checked config now k db) found) db h in
    let (r, e, seen, checked) =
      on_visible-ok (some audience) (submit_checked config now k db) found change in
    let (pending, form, present, moved) = submit_checked-ok config now k db r {r' = r'} checked in
    (
      r,
      e,
      is_assisted-assisted r.method (ground arith),
      same-true r.partner_audience (some audience) (ground arith),
      is_pending-pending r.status pending,
      forms-HasForm k db form,
      elim (Bool-cases config.subject_auth_enabled) [
        | inr off ↦ inl off
        | inl on ↦ inr (authenticated-HasLogin k db (ground arith))
      ],
      moved,
      saved,
    )
