-- ===== src/Assisted/Unchanged.antt =====
-- While the partner's policies stay as they are, an approval gives all that was requested.
use consent_manager.Base.{
  ◌<◌, String, true, false, not, ◌&&◌, Option, none, some, List, [], ◌∷◌, ◌≡◌, refl, truthy, ok,
  leb, arith,
}
use consent_manager.Models.Status.{is_pending_verification}
use consent_manager.Models.Rows.{Time, RequestedGrant, ConsentRequest, ConsentArtefact}
use consent_manager.Models.Table
use consent_manager.Models.Database.{Database, get_request}
use consent_manager.Config.{Settings}
use consent_manager.Receipts.{Signer, build_receipt}
use consent_manager.Verification.Decide.{Fresh}
use consent_manager.Scopes.{member, nonempty, is_subset, to_set}
use consent_manager.Scopes.Laws.{member-narrowed, member-to_set, is_subset-member}
use consent_manager.Policy.Records.{PmPolicy}
use consent_manager.Policy.Ceiling.{nonempty-member, member-nonempty}
use consent_manager.Lifecycle.Errors.{Fallible}
use consent_manager.Lifecycle.UseCases.{Systems, use_case_ceiling, audience_of, has_mark}
use consent_manager.Lifecycle.Narrow.{
  Kept, collect, keep_grant, kept_grant, limits_for, limits_of_policy, effective, approved_grants,
}
use consent_manager.Lifecycle.Artefacts.{commit_consent}
use consent_manager.Lifecycle.Create.{grants_in}
use consent_manager.Lifecycle.Resolved.{IsResolved}
use consent_manager.Assisted.Requests.{visible, authenticated, is_given}
use consent_manager.Assisted.Approve.{
  all_of, approve, approve_checked, visible_request, assisted_artefact, assurance_of, kinds_of,
  verified_request,
}

abbrev pub HasScopes : RequestedGrant × PmPolicy → Type 0
HasScopes (g, policy) = nonempty g.data_scopes ≡ true

-- Grant for grant: what is kept has exactly the requested scopes.
abbrev pub IsWhole : List (RequestedGrant × PmPolicy) → List Kept → Type 0
IsWhole [] [] = Unit
IsWhole [] (k ∷ ks) = ⊥
IsWhole (r ∷ rs) [] = ⊥
IsWhole (r ∷ rs) (k ∷ ks) =
    (k.grant.data_controller ≡ r.0.data_controller)
    × ((s : String) → member s k.grant.effective_data_scopes ≡ member s r.0.data_scopes)
    × IsWhole rs ks

whole_scopes :
    (scopes allowed : List String) (s : String)
    → is_subset (to_set scopes) (to_set allowed) ≡ true
    → member s (effective scopes (to_set allowed)) ≡ member s scopes
whole_scopes scopes allowed s sub = ground (
  arith,
  member-narrowed s scopes (to_set allowed),
  member-to_set s scopes,
  is_subset-member s (to_set scopes) (to_set allowed),
)

whole_nonempty :
    (scopes allowed : List String)
    → nonempty scopes ≡ true
    → is_subset (to_set scopes) (to_set allowed) ≡ true
    → nonempty (effective scopes (to_set allowed)) ≡ true
whole_nonempty scopes allowed some_scope sub =
    let (s, m) = nonempty-member scopes some_scope in
    member-nonempty s (effective scopes (to_set allowed))
      (cc (whole_scopes scopes allowed s sub, m))

module _ (out : Systems) (audience : String) where
  pub collect-IsWhole :
      (rs : List (RequestedGrant × PmPolicy))
      → Table.All (IsResolved out audience) rs
      → Table.All HasScopes rs
      → (kept : List Kept) × (collect out audience none (all_of (grants_in rs)) ≡ ok kept)
        × IsWhole rs kept
  unfolding collect limits_for limits_of_policy keep_grant
  collect-IsWhole [] within scoped = ([], refl, tt)
  collect-IsWhole ((g, policy) ∷ rs) within scoped =
      let (found, sub, fields, unmarked) = within.0 in
      let (kept, collected, whole) = collect-IsWhole rs within.1 scoped.1 in
      let left = whole_nonempty g.data_scopes policy.allowed_data_scopes scoped.0 sub in
      (
        kept_grant (record { grant = g; scopes = g.data_scopes }) policy
              (to_set policy.allowed_data_scopes)
            ∷ kept,
        rw (found, collected, left) refl,
        (refl, (λ s. whole_scopes g.data_scopes policy.allowed_data_scopes s sub), whole),
      )

  -- Grants that were resolved from scope policies have no mark.
  unmarked :
      (use_case : Option String) (rs : List (RequestedGrant × PmPolicy))
      → Table.All (IsResolved out audience) rs
      → (truthy use_case && has_mark use_case (grants_in rs)) ≡ false
  unfolding has_mark
  unmarked none rs within = refl
  unmarked (some u) [] within = ground arith
  unmarked (some u) ((g, policy) ∷ rs) within =
      let (found, sub, fields, bare) = within.0 in
      let rest = unmarked (some u) rs within.1 in rw bare (ground arith)

nonempty-IsWhole :
    (rs : List (RequestedGrant × PmPolicy)) (kept : List Kept)
    → nonempty rs ≡ true
    → IsWhole rs kept
    → nonempty kept ≡ true
nonempty-IsWhole [] kept h w = cc
nonempty-IsWhole (r ∷ rs) [] h w = absurd w
nonempty-IsWhole (r ∷ rs) (k ∷ ks) h w = refl

module _ (config : Settings) (out : Systems) (fresh : Fresh) (now : Time) (k verified_by : String)
    (db : Database) (req : ConsentRequest) (rs : List (RequestedGrant × PmPolicy)) where
  -- The grants that approve keeps, and what it makes.
  abbrev pub GivesAll : Fallible ConsentArtefact → Type 0
  GivesAll call =
      (a : ConsentArtefact) × (kept : List Kept) × (call ≡ ok a)
      × (a.grants ≡ some (approved_grants kept))
      × IsWhole rs kept

  approve_checked-GivesAll :
      {until : Time}
      → is_pending_verification req.status ≡ true
      → req.grants ≡ some (grants_in rs)
      → Table.All (IsResolved out (audience_of req)) rs
      → Table.All HasScopes rs
      → nonempty rs ≡ true
      → (config.subject_auth_enabled && not (is_given (authenticated k db))) ≡ false
      → req.valid_until ≡ some until
      → now < until
      → GivesAll (approve_checked config out fresh now k verified_by db req)
  unfolding approve_checked use_case_ceiling
  approve_checked-GivesAll {until} waiting grants within scoped some_grant present ends later =
      let (kept, collected, whole) = collect-IsWhole out (audience_of req) rs within scoped in
      let left = nonempty-IsWhole rs kept some_grant whole in
      let bare = unmarked out (audience_of req) req.use_case rs within in
      let open_ended : leb until now ≡ false = ground arith in
      (
        assisted_artefact fresh now req none kept
            (assurance_of now verified_by (kinds_of k db) (authenticated k db)),
        kept,
        rw (waiting, grants, bare, collected, left, present, ends, open_ended) refl,
        refl,
        whole,
      )

  -- An assisted request that waits for verification, with its grants resolved from policies that are
  -- still current, the subject's authentication where that is needed, and a validity that ends later,
  -- is approved, and its consent has each requested grant with exactly the requested scopes.
  pub approve-GivesAll :
      {until : Time} (signer : Signer) (remark : Option String)
      → get_request k db ≡ some req
      → visible none req ≡ true
      → is_pending_verification req.status ≡ true
      → req.grants ≡ some (grants_in rs)
      → Table.All (IsResolved out (audience_of req)) rs
      → Table.All HasScopes rs
      → nonempty rs ≡ true
      → (config.subject_auth_enabled && not (is_given (authenticated k db))) ≡ false
      → req.valid_until ≡ some until
      → now < until
      → (a : ConsentArtefact) × (db' : Database) × (approve config out signer fresh now k
            verified_by remark db
          ≡ ok (verified_request now verified_by remark req, a, db'))
        × ((kept : List Kept) × (a.grants ≡ some (approved_grants kept)) × IsWhole rs kept)
  unfolding approve visible_request
  approve-GivesAll {until} signer remark found seen waiting grants within scoped some_grant present
        ends later =
      let (a, kept, made, own, whole) =
        approve_checked-GivesAll {until = until} waiting grants within scoped some_grant present
          ends later in
      (
        a,
        commit_consent (verified_request now verified_by remark req) a
            (build_receipt signer fresh.receipt_id (some now) a) db,
        rw (found, seen, made) refl,
        (kept, own, whole),
      )
