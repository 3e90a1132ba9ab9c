-- ===== src/SubjectAuth/Sound.antt =====
-- What a successful login rests on.
use mathlib.Core.Path.{subst}
use consent_manager.Base.{
  String, true, not, Option, none, some, ◌≡◌, refl, sym, inl, inr, arith, same, truthy, or_empty,
  has_text, Result, ok, err, raise_if-ok, bind-ok, ok-injective, Bool-cases, ap,
}
use consent_manager.Models.Status.{is_pending}
use consent_manager.Models.Rows.{Time, ConsentRequest, SubjectAuthSession, AuthContext}
use consent_manager.Models.Table
use consent_manager.Models.Database.{Database, get_request}
use consent_manager.Config.{Settings}
use consent_manager.Assisted.Requests.{is_success}
use consent_manager.SubjectAuth.Sessions.{
  session_key, claim, Ending, succeeded, failed, finished, finish_row, finish,
}
use consent_manager.SubjectAuth.Provider.{
  Provider, Redirect, IdClaims, TokenReply, unreachable, refused, tokens, same_subject, userinfo_of,
  verified_token, authenticate_subject, authenticate_row, stored_request, authenticate,
  login_context,
}
use consent_manager.SubjectAuth.Complete.{ending_of, finish_claimed, complete}

-- What the provider has vouched for: for an open request, an ID token for the redirect's code and the
-- session's verifier, verified and with the session's nonce, of the request's subject.
abbrev pub IsLogin :
    Settings
    → Provider
    → Time
    → Redirect
    → SubjectAuthSession
    → ConsentRequest
    → AuthContext
    → Type 0
IsLogin config provider now redirect row req ctx =
    (is_pending req.status ≡ true)
    × (id_token : String) × (access : Option String) × (claims : IdClaims) × (all : IdClaims)
    × (provider.exchange (or_empty redirect.code) row.code_verifier ≡ tokens (some id_token) access)
    × (provider.verify id_token ≡ ok claims)
    × (same claims.nonce (some row.nonce) ≡ true)
    × (userinfo_of provider claims access ≡ ok all)
    × (truthy all.subject ≡ true)
    × (same_subject all.subject req.subject_id_value ≡ true)
    × (ctx ≡ login_context config provider now req id_token claims all)

row-injective :
    {a b : SubjectAuthSession} → ◌≡◌ {A = Option SubjectAuthSession} (some a) (some b) → a ≡ b
row-injective h = cc

stored_request-ok :
    (found : Option ConsentRequest) {req : ConsentRequest}
    → stored_request found ≡ ok req
    → found ≡ some req
unfolding stored_request
stored_request-ok none h = cc
stored_request-ok (some r) h = cc

module _ (config : Settings) (provider : Provider) (now : Time) (redirect : Redirect) where
  verified_token-ok :
      (reply : TokenReply) {id_token : String} {access : Option String} {claims : IdClaims}
      → verified_token provider reply ≡ ok (id_token, access, claims)
      → (reply ≡ tokens (some id_token) access) × (provider.verify id_token ≡ ok claims)
  unfolding verified_token
  verified_token-ok (unreachable detail) h = cc
  verified_token-ok (refused shown) h = cc
  verified_token-ok (tokens none access) h = cc
  verified_token-ok (tokens (some t) given) {id_token} {access} {claims} h =
      let (there, h1) = raise_if-ok (not (has_text t)) _ _ h in
      let (c, verified, made) = bind-ok (provider.verify t) _ h1 in
      subst
        (λ (x : String × Option String × IdClaims).
          (◌≡◌ {A = TokenReply} (tokens (some t) given) (tokens (some x.0) x.1))
          × (provider.verify x.0 ≡ ok x.2))
        (ok-injective made) (refl, verified)

  authenticate_subject-IsLogin :
      (row : SubjectAuthSession) (req : ConsentRequest) {ctx : AuthContext}
      → authenticate_subject config provider now row req (or_empty redirect.code) ≡ ok ctx
      → IsLogin config provider now redirect row req ctx
  unfolding authenticate_subject
  authenticate_subject-IsLogin row req {ctx} h =
      let (waiting, h1) = raise_if-ok (not (is_pending req.status)) _ _ h in
      let (_, is_ready, h2) = bind-ok provider.ready _ h1 in
      let reply = provider.exchange (or_empty redirect.code) row.code_verifier in
      let ((id_token, access, claims), read, h3) = bind-ok (verified_token provider reply) _ h2 in
      let (nonce, h4) = raise_if-ok (not (same claims.nonce (some row.nonce))) _ _ h3 in
      let (all, info, h5) = bind-ok (userinfo_of provider claims access) _ h4 in
      let (there, h6) = raise_if-ok (not (truthy all.subject)) _ _ h5 in
      let (person, made) =
        raise_if-ok (not (same_subject all.subject req.subject_id_value)) _ _ h6 in
      let (exchanged, verified) =
        verified_token-ok reply {id_token = id_token} {access = access} {claims = claims} read in
      (
        ground arith,
        id_token,
        access,
        claims,
        all,
        exchanged,
        verified,
        ground arith,
        info,
        ground arith,
        ground arith,
        sym (ok-injective made),
      )

  -- The session and the request that an authentication is of.
  abbrev pub IsLoginOf : Option SubjectAuthSession → Database → AuthContext → Type 0
  IsLoginOf found db ctx =
      (row : SubjectAuthSession) × (req : ConsentRequest) × (found ≡ some row)
      × (get_request row.consent_request_id db ≡ some req)
      × IsLogin config provider now redirect row req ctx

  authenticate_row-IsLoginOf :
      (found : Option SubjectAuthSession) (db : Database) {ctx : AuthContext}
      → authenticate_row config provider now redirect found db ≡ ok ctx
      → IsLoginOf found db ctx
  unfolding authenticate_row
  authenticate_row-IsLoginOf none db h = cc
  authenticate_row-IsLoginOf (some row) db h =
      let (req, found, h1) = bind-ok (stored_request (get_request row.consent_request_id db)) _ h in
      (
        row,
        req,
        refl,
        stored_request-ok (get_request row.consent_request_id db) {req = req} found,
        authenticate_subject-IsLogin row req h1,
      )

  authenticate-IsLoginOf :
      (session_id : String) (db : Database) {ctx : AuthContext}
      → authenticate config provider now redirect session_id db ≡ ok ctx
      → IsLoginOf (Table.get session_key session_id db.auth_sessions) db ctx
  unfolding authenticate
  authenticate-IsLoginOf session_id db h =
      let (accepted, h1) = raise_if-ok (truthy redirect.error) _ _ h in
      let (coded, h2) = raise_if-ok (not (truthy redirect.code)) _ _ h1 in
      authenticate_row-IsLoginOf (Table.get session_key session_id db.auth_sessions) db h2

  -- A session that is finished as a success was given its context.
  finish_row-success :
      (ending : Ending) (found : Option SubjectAuthSession) (db : Database)
      {row : SubjectAuthSession}
      → (finish_row now ending found db).0 ≡ some row
      → is_success row.status ≡ true
      → (ctx : AuthContext) × (ending ≡ succeeded ctx) × (row.auth_context_id ≡ some ctx.id)
  unfolding finish_row
  finish_row-success ending none db h success = cc
  finish_row-success (failed message) (some r) db {row} h success =
      let ended : finished now (failed message) r ≡ row = row-injective h in
      absurd (cc (ap (λ (x : SubjectAuthSession). is_success x.status) ended, success))
  finish_row-success (succeeded ctx) (some r) db {row} h success =
      let ended : finished now (succeeded ctx) r ≡ row = row-injective h in
      (ctx, refl, sym (ap (λ (x : SubjectAuthSession). x.auth_context_id) ended))

  ending_of-succeeded :
      (call : Result String AuthContext) {ctx : AuthContext}
      → ending_of call ≡ succeeded ctx
      → call ≡ ok ctx
  ending_of-succeeded (err message) h = cc
  ending_of-succeeded (ok c) h = cc

  finish_claimed-success :
      (meanwhile : Database → Database) (claimed : Option String) (db : Database)
      {row : SubjectAuthSession}
      → (finish_claimed config provider meanwhile now redirect (claimed, db)).0 ≡ ok (some row)
      → is_success row.status ≡ true
      → (session_id : String) × (ctx : AuthContext) × (claimed ≡ some session_id)
        × (row.auth_context_id ≡ some ctx.id)
        × IsLoginOf (Table.get session_key session_id db.auth_sessions) db ctx
  unfolding finish_claimed finish
  finish_claimed-success meanwhile none db h success = cc
  finish_claimed-success meanwhile (some session_id) db {row} h success =
      let call = authenticate config provider now redirect session_id db in
      let found = Table.get session_key session_id (meanwhile db).auth_sessions in
      let (ctx, ended, own) =
        finish_row-success (ending_of call) found (meanwhile db) {row = row} (ok-injective h)
          success in
      (
        session_id,
        ctx,
        refl,
        own,
        authenticate-IsLoginOf session_id db (ending_of-succeeded call ended),
      )

  -- A redirect completes a login with success only if it claimed a session by its state, and the
  -- provider vouched for the subject: the session's request is still pending, the code was exchanged
  -- with the session's verifier for an ID token that verified and has the session's nonce, and the
  -- authenticated person is the request's subject. The session then names the context of that token.
  pub complete-IsLogin :
      (meanwhile : Database → Database) (state : Option String) (db : Database)
      {row : SubjectAuthSession}
      → (complete config provider meanwhile now redirect state db).0 ≡ ok (some row)
      → is_success row.status ≡ true
      → (session_id : String) × (ctx : AuthContext) × ((claim (or_empty state) now db).0
          ≡ some session_id)
        × (row.auth_context_id ≡ some ctx.id)
        × IsLoginOf
            (Table.get session_key session_id (claim (or_empty state) now db).1.auth_sessions)
            (claim (or_empty state) now db).1
            ctx
  unfolding complete
  complete-IsLogin meanwhile state db {row} h success = elim (Bool-cases (truthy state)) [
    | inr missing ↦ absurd (cc (rw missing at h))
    | inl given ↦
        finish_claimed-success meanwhile (claim (or_empty state) now db).0
          (claim (or_empty state) now db).1 {row = row} (rw given at h) success
  ]
