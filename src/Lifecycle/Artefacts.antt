-- ===== src/Lifecycle/Artefacts.antt =====
-- The consent that an approval makes, and its commit.
use consent_manager.Base.{◌*◌, none, some, List, []}
use consent_manager.Models.Status.{ArtefactStatus, ArtefactSource}
use consent_manager.Models.Rows.{Time, Duration, ConsentRequest, ConsentArtefact}
use consent_manager.Models.Database.{Database, ConsentReceipt, save_request, add}
use consent_manager.Config.{seconds}
use consent_manager.Policy.Records.{no_policy_fields}
use consent_manager.Verification.Decide.{Fresh}
use consent_manager.Lifecycle.Narrow.{
  Kept, approved_grants, sole_controller, all_effective, common_policy_fields, fetch_type_of,
}

-- `timedelta(days=365)`
abbrev pub default_validity : Duration
default_validity = seconds (365 * 86400)

-- ConsentArtefact(...) with the columns that each originated consent has of its request.
abbrev pub originated : Fresh → ConsentRequest → Time → Time → ConsentArtefact
originated fresh req valid_from valid_until = record {
  id = fresh.artefact_id;
  created_at = fresh.created_at;
  subject_id_type = req.subject_id_type;
  subject_id_value = req.subject_id_value;
  subject_identifiers = none;
  controller_id = req.controller_id;
  partner_id = req.partner_id;
  purpose = req.purpose;
  data_scopes = req.requested_scopes;
  effective_data_scopes = [];
  fetch_type = "oneshot";
  valid_from = valid_from;
  valid_until = valid_until;
  source = ArtefactSource.originated;
  policy = no_policy_fields;
  auth_context_id = none;
  object_jti = none;
  grants = none;
  assurance = none;
  consent_request_id = some req.id;
  use_case = none;
  status = ArtefactStatus.active;
  revoked_at = none;
  expired_at = none;
}

-- The columns that come of the grants that stay.
abbrev pub with_kept : List Kept → ConsentArtefact → ConsentArtefact
with_kept kept a =
    let grants = approved_grants kept in
    record a {
      controller_id = sole_controller grants;
      effective_data_scopes = all_effective grants;
      grants = some grants;
      fetch_type = fetch_type_of kept;
      policy = common_policy_fields grants;
    }

-- The commit: the approved request, the artefact and its receipt, in one transaction.
abbrev pub commit_consent : ConsentRequest → ConsentArtefact → ConsentReceipt → Database → Database
commit_consent req a receipt db = record (save_request req db) {
  artefacts = add a db.artefacts;
  receipts = add receipt db.receipts;
}
