-- ===== src/Examples/Exchange.antt =====
-- A consent token for the example consent.
use mathlib.Core.Logic.{◌↔◌}
use consent_manager.Base.{◌≡◌, ◌≤◌, ◌+◌, refl, some, [], ◌∷◌}
use consent_manager.Models.Rows.{IssuedReceipt}
use consent_manager.Models.Table
use consent_manager.Models.Database.{Database, get_artefact}
use consent_manager.Consents.Service.{revoke, is_subject}
use consent_manager.Consents.Steps.{sweep, perform_all}
use consent_manager.Exchange.Tokens.{
  TokenSource, Permit, token_active, token_revoked, issue, receipt_status,
}
use consent_manager.Exchange.Lifetime.{
  IsLive, issue-bounds, receipt_status-active, receipt_status_revoked,
}
use consent_manager.Examples.Data.{config, db}
use consent_manager.Examples.Consents.{staff_call, found}

abbrev token : IssuedReceipt
token = record {
  id = "t1";
  consent_id = "c1";
  data_controller = "farmers";
  presenter = "composite";
  partner = "bank-a";
  expires_at = 4000;
}

abbrev issued_db : Database
issued_db = record db { issued = token ∷ [] }

abbrev consent_read : TokenSource
consent_read = record { aud = "bank-a"; purpose = record { code = some "loan" }; issued_at = 900 }

abbrev permitted : Permit
permitted = record {
  consent_id = "c1";
  data_controller = "farmers";
  subject_id = record { type = "national_id"; value = "42" };
  scopes = "name" ∷ [];
  valid_until = 5000;
}

issue-bounds_example :
    let (t, after) = issue config consent_read permitted "composite" "t2" 2000 db in
    (t.exp ≤ t.consent_exp)
    × (t.exp ≤ t.iat + config.receipt_ttl_seconds)
    × (t.scopes ≡ permitted.scopes)
issue-bounds_example = issue-bounds config consent_read permitted "composite" "t2" 2000 db

receipt_status-active_example :
    (receipt_status "t1" 2000 issued_db ≡ some token_active)
    ↔ IsLive 2000 token (get_artefact "c1" issued_db)
unfolding Table.get
receipt_status-active_example = receipt_status-active "t1" issued_db {token = token} refl 2000

receipt_status_revoked_example :
    receipt_status "t1" 3000
      (perform_all ((2500, sweep) ∷ []) (revoke "c1" staff_call "v1" 2000 issued_db).1)
    ≡ some token_revoked
unfolding Table.get is_subject
receipt_status_revoked_example =
    receipt_status_revoked "t1" issued_db {token = token} refl staff_call "v1" 2000 found refl refl
      ((2500, sweep) ∷ []) 3000
