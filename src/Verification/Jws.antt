-- ===== src/Verification/Jws.antt =====
-- VerificationService._decode_jws, and what the service takes from libraries and from other services.
use Prim.Native.Char.{code}
use Prim.Native.String.{String, ◌∷◌ as consc, ◌++◌ as append}
use consent_manager.Base.{Bool, Option, none, some, List, [], ◌∷◌, eqb, if◌then◌else◌}
use consent_manager.Policy.Records.{ConsentObject, one_shape}
use consent_manager.Receipts.{Signer}
use consent_manager.Models.Database.{Database}
use consent_manager.Verification.Partners.{PolicySource}

-- The protected header of a JWS, as far as it is read.
pub record JwsHeader : Type 0 where
  pub typ : Option String
  pub alg : Option String
  pub kid : Option String

-- `P` is the type of decoded payloads.
pub record Libraries (P : Type 0) : Type 0 where
  -- json.loads of a base64url segment: None where either raises
  pub load_header : String → Option JwsHeader
  pub load_payload : String → Option P
  -- ConsentObject(**claims) before its own validator: None where a field is missing or ill-typed
  pub parse_consent : P → Option ConsentObject
  -- CryptoHelper.verify_jwt of a JWS with the keys of a Partner Management id; false also where it
  -- raises
  pub verify_jwt : String → String → Bool
  -- sha256_hex of a text's UTF-8
  pub hash_text : String → String
  pub signer : Signer
  pub policies : PolicySource
  -- What other requests commit between this request's reads and its own commit.
  pub meanwhile : Database → Database

add_char : String → List String → List String
add_char c [] = c ∷ []
add_char c (s ∷ rest) = append c s ∷ rest

-- `jws.split(".")`
pub split_dots : String → List String
unfolding add_char
split_dots String.[] = "" ∷ []
split_dots (consc c s) =
    let rest = split_dots s in
    if eqb (code c) b'.' then "" ∷ rest else add_char (consc c String.[]) rest

unfoldable pub shaped : Option ConsentObject → Option ConsentObject
shaped none = none
shaped (some obj) = if one_shape obj then some obj else none

module _ {P : Type 0} where
  both : Option JwsHeader → Option P → Option (P × JwsHeader)
  both (some h) (some p) = some (p, h)
  both _ _ = none

  decode_parts : Libraries P → List String → Option (P × JwsHeader)
  unfolding both
  decode_parts lib (h ∷ p ∷ sig ∷ []) = both (lib.load_header h) (lib.load_payload p)
  decode_parts lib _ = none

  -- A compact JWS has three parts; any other text is refused.
  unfoldable pub decode_jws : Libraries P → String → Option (P × JwsHeader)
  unfolding decode_parts split_dots
  decode_jws lib jws = decode_parts lib (split_dots jws)

  -- `ConsentObject(**claims)`, its validator included
  unfoldable pub consent_object : Libraries P → P → Option ConsentObject
  unfolding shaped
  consent_object lib claims = shaped (lib.parse_consent claims)
