-- ===== src/Exchange/Lifetime.antt =====
-- The life of a consent token: it ends with its consent, however that ends.
use mathlib.Core.Logic.{◌↔◌}
use consent_manager.Base.{
  ◌+◌, ◌≤◌, ◌<◌, String, true, Option, none, some, List, [], ◌∷◌, ◌≡◌, refl, arith,
}
use consent_manager.Models.Status.{is_active}
use consent_manager.Models.Rows.{Time, ConsentArtefact, IssuedReceipt}
use consent_manager.Models.Database.{Database, get_artefact}
use consent_manager.Models.Table
use consent_manager.Config.{Settings}
use consent_manager.Consents.Service.{
  Revocation, is_subject, revoke, get_status, expire_stale, status_of_row, revoke_row,
}
use consent_manager.Consents.Steps.{
  Op, status_read, revocation, sweep, perform, perform_all, perform_all-ended,
}
use consent_manager.Consents.Revocation.{read_back}
use consent_manager.Exchange.Tokens.{
  TokenSource, Permit, token_active, token_revoked, issue, token_key, receipt_status,
  status_of_issued, status_of_token,
}

-- A token never outlives its consent nor its own lifetime, and it carries the scopes of the permit.
pub issue-bounds :
    (config : Settings) (consent : TokenSource) (p : Permit) (presenter jti : String) (now : Time)
    (db : Database)
    → let (token, after) = issue config consent p presenter jti now db in
      (token.exp ≤ token.consent_exp)
      × (token.exp ≤ token.iat + config.receipt_ttl_seconds)
      × (token.scopes ≡ p.scopes)
unfolding issue
issue-bounds config consent p presenter jti now db = (ground arith, ground arith, refl)

abbrev pub IsLive : Time → IssuedReceipt → Option ConsentArtefact → Type 0
IsLive now token found =
    (a : ConsentArtefact) × (found ≡ some a)
    × (is_active a.status ≡ true)
    × (now ≤ a.valid_until)
    × (now < token.expires_at)

status_of_token-IsLive :
    (now : Time) (token : IssuedReceipt) (found : Option ConsentArtefact)
    → (status_of_token now token found ≡ token_active) ↔ IsLive now token found
unfolding status_of_token
status_of_token-IsLive now token none = (λ h. cc, λ (a, e, act, valid, lasts). cc)
status_of_token-IsLive now token (some a) = (
  λ h. (a, refl, ground arith, ground arith, ground arith),
  λ (b, e, act, valid, lasts). ground arith,
)

status_of_row-issued :
    (now : Time) (found : Option ConsentArtefact) (db : Database)
    → (status_of_row now found db).1.issued ≡ db.issued
unfolding status_of_row
status_of_row-issued now none db = refl
status_of_row-issued now (some a) db = ground arith

revoke_row-issued :
    (k : String) (call : Revocation) (fresh : String) (now : Time) (found : Option ConsentArtefact)
    (db : Database)
    → (revoke_row k call fresh now found db).1.issued ≡ db.issued
unfolding revoke_row
revoke_row-issued k call fresh now none db = refl
revoke_row-issued k call fresh now (some a) db = ground arith

revoke-issued :
    (k : String) (call : Revocation) (fresh : String) (now : Time) (db : Database)
    → (revoke k call fresh now db).1.issued ≡ db.issued
unfolding revoke
revoke-issued k call fresh now db = revoke_row-issued k call fresh now (get_artefact k db) db

perform-issued : (now : Time) (op : Op) (db : Database) → (perform now op db).issued ≡ db.issued
unfolding perform get_status expire_stale
perform-issued now (status_read k) db = status_of_row-issued now (get_artefact k db) db
perform-issued now (revocation k call fresh) db = revoke-issued k call fresh now db
perform-issued now sweep db = refl

perform_all-issued :
    (ops : List (Time × Op)) (db : Database) → (perform_all ops db).issued ≡ db.issued
unfolding perform_all
perform_all-issued [] db = refl
perform_all-issued ((now, op) ∷ ops) db =
    cc (perform_all-issued ops (perform now op db), perform-issued now op db)

module _ (jti : String) (db : Database) {token : IssuedReceipt}
    (issued : Table.get token_key jti db.issued ≡ some token) where
  -- A token is reported active exactly while its consent is stored, active and within its validity,
  -- and the token's own lifetime has not ended.
  pub receipt_status-active :
      (now : Time)
      → (receipt_status jti now db ≡ some token_active)
        ↔ IsLive now token (get_artefact token.consent_id db)
  unfolding receipt_status status_of_issued
  receipt_status-active now =
      let found = get_artefact token.consent_id db in
      rw issued (
        λ h. (status_of_token-IsLive now token found).0 (cc h),
        λ l. cc ((status_of_token-IsLive now token found).1 l),
      )

  -- Once a token's consent is revoked, the token is reported revoked for ever, whatever operations
  -- follow.
  pub receipt_status_revoked :
      (call : Revocation) (fresh : String) (now : Time) {a : ConsentArtefact}
      → get_artefact token.consent_id db ≡ some a
      → is_active a.status ≡ true
      → is_subject call.subject_claims a ≡ true
      → (ops : List (Time × Op)) (later : Time)
      → receipt_status jti later (perform_all ops (revoke token.consent_id call fresh now db).1)
        ≡ some token_revoked
  unfolding receipt_status status_of_issued status_of_token
  receipt_status_revoked call fresh now {a} found act own ops later =
      let k = token.consent_id in
      let after = (revoke k call fresh now db).1 in
      let row =
        perform_all-ended ops k _ after (read_back k call fresh now db found act own) refl in
      rw (perform_all-issued ops after, revoke-issued k call fresh now db, issued) (rw row refl)
