-- ===== src/Stored/Lookup.antt =====
-- VerificationService._validate_lookup: a request without a consent is answered from a consent that
-- the Consent Manager holds.
use consent_manager.Base.{
  String, Bool, true, false, not, ◌&&◌, ◌||◌, Option, none, some, List, [], ◌∷◌, ◌==◌, same, truthy,
  or_empty, ltb, leb, text_of, if◌then◌else◌,
}
use consent_manager.Models.Status.{ReasonCode, is_active, is_receipt}
use consent_manager.Models.Rows.{Time, SubjectId, ConsentArtefact, ApprovedGrant, deny}
use consent_manager.Models.Database.{Database}
use consent_manager.Config.{Settings}
use consent_manager.Scopes.{keep}
use consent_manager.Verification.Request.{
  ValidateRequest, Decision, bare, refusal, deny_with, use_case_mode, use_case_of, subject_of,
  identifiers_of,
}
use consent_manager.Stored.Permit.{Outside}
use consent_manager.Stored.Validate.{validate_stored}

-- What is looked for: a consent of the partner for the subject, by use case or by data controller.
pub record LookupKey : Type 0 where
  pub partner : String
  pub subject : SubjectId
  pub key : String
  pub by_use_case : Bool

unfoldable pub key_of : Bool → Option SubjectId → Option String → Option String → Option LookupKey
key_of mode none partner key = none
key_of mode (some subject) partner key =
    if truthy partner && truthy key
    then some (record {
      partner = or_empty partner;
      subject = subject;
      key = or_empty key;
      by_use_case = mode;
    })
    else none

-- None is a malformed request. A use case is always there in use-case mode.
unfoldable pub lookup_key : Settings → ValidateRequest → Option LookupKey
unfolding key_of
lookup_key config parsed =
    if use_case_mode config parsed
    then key_of true (subject_of parsed.request_context) parsed.consent_partner_id
        (use_case_of parsed.request_context)
    else key_of false (subject_of parsed.request_context) parsed.partner_id parsed.data_controller

-- `subject_identifiers` contains the type with the value.
unfoldable pub has_identifier : SubjectId → List SubjectId → Bool
has_identifier s [] = false
has_identifier s (i ∷ is) = (i.type == s.type && i.value == s.value) || has_identifier s is

unfoldable pub has_grant_for : String → Option (List ApprovedGrant) → Bool
has_grant_for key none = false
has_grant_for key (some []) = false
has_grant_for key (some (g ∷ gs)) = g.data_controller == key || has_grant_for key (some gs)

abbrev pub is_of_subject : SubjectId → ConsentArtefact → Bool
is_of_subject s a =
    (a.subject_id_type == s.type && a.subject_id_value == s.value)
    || has_identifier s (identifiers_of a.subject_identifiers)

-- A consent for a use case is never one for a direct call to the registry.
unfoldable pub serves_key : LookupKey → ConsentArtefact → Bool
serves_key k a =
    if k.by_use_case
    then same a.use_case (some k.key)
    else same a.use_case none
      && (same a.controller_id (some k.key)
          || (same a.controller_id none && has_grant_for k.key a.grants))

unfoldable pub is_candidate : LookupKey → Time → ConsentArtefact → Bool
is_candidate k now a =
    a.partner_id == k.partner
    && is_of_subject k.subject a
    && serves_key k a
    && not (is_receipt a.source)
    && is_active a.status
    && leb a.valid_from now
    && ltb now a.valid_until

-- `a` comes before `b` in the order: the later valid_until, then the newer.
abbrev pub precedes : ConsentArtefact → ConsentArtefact → Bool
precedes a b =
    ltb b.valid_until a.valid_until
    || (leb b.valid_until a.valid_until && ltb b.created_at a.created_at)

-- The first in the order; of equals, the one that the table has first.
unfoldable pub first_of : ConsentArtefact → Option ConsentArtefact → ConsentArtefact
first_of a none = a
first_of a (some b) = if precedes b a then b else a

unfoldable pub first_in_order : List ConsentArtefact → Option ConsentArtefact
unfolding first_of
first_in_order [] = none
first_in_order (a ∷ rows) = some (first_of a (first_in_order rows))

unfoldable pub look_up : LookupKey → Time → Database → Option ConsentArtefact
look_up k now db = first_in_order (keep (is_candidate k now) db.artefacts)

abbrev pub what : LookupKey → String
what k =
    if k.by_use_case
    then text_of ("use case '" ∷ k.key ∷ "'" ∷ [])
    else text_of ("data controller '" ∷ k.key ∷ "'" ∷ [])

lookup_malformed : Time → Decision
lookup_malformed now = record (bare deny ReasonCode.malformed_object now) {
  detail = some (
      text_of (
        "give 'consent_jws' or 'consent_id', or for consent by lookup "
        ∷ "request_context.subject_id with either (a configured presenter) "
        ∷ "consent_partner_id and request_context.use_case, or partner_id and " ∷ "data_controller"
        ∷ []));
}

-- The request as the stored path reads it: the consent's id and, for a registry, its partner.
abbrev pub with_consent : ValidateRequest → LookupKey → ConsentArtefact → ValidateRequest
with_consent parsed k a = record parsed {
  consent_id = some a.id;
  consent_partner_id = if k.by_use_case then parsed.consent_partner_id else some k.partner;
}

unfoldable pub answer_found :
    Settings
    → Outside
    → ValidateRequest
    → LookupKey
    → Option ConsentArtefact
    → Time
    → Database
    → Decision × Database
answer_found config out parsed k none now db =
    deny_with
      (record (refusal ReasonCode.consent_not_found (
        text_of (
          "no active consent of partner '"
          ∷ k.partner
          ∷ "' for this subject and "
          ∷ what k
          ∷ []))) { partner_id = some k.partner; data_controller = parsed.data_controller })
      now
      (out.hash_text (
        text_of (
          "lookup:" ∷ k.partner ∷ ":" ∷ k.subject.type ∷ ":" ∷ k.subject.value ∷ ":" ∷ k.key ∷ [])))
      db
answer_found config out parsed k (some a) now db =
    validate_stored config out (with_consent parsed k a) (some a) now db

unfoldable pub answer_lookup :
    Settings → Outside → ValidateRequest → Option LookupKey → Time → Database → Decision × Database
unfolding lookup_malformed
answer_lookup config out parsed none now db = (lookup_malformed now, db)
answer_lookup config out parsed (some k) now db =
    answer_found config out parsed k (look_up k now db) now db

-- VerificationService._validate_lookup. Its two readings of the clock are taken as one.
unfoldable pub validate_lookup :
    Settings → Outside → ValidateRequest → Time → Database → Decision × Database
validate_lookup config out parsed now db =
    answer_lookup config out parsed (lookup_key config parsed) now db
