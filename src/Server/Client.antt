-- ===== src/Server/Client.antt =====
-- server/client.go: a registered client, its setup, validation and secrets. `cloneClient` copies the
-- slices of a client; values do not change here, so it has no definition. SHA-256 is the parameter
-- `sum256`.
pub mod Digests
pub mod Validation
pub mod Secrets
use orionis.Base.{
  ℕ, ◌+◌, ◌-◌, ◌*◌, ◌≡◌, refl, Bool, true, false, not, ◌&&◌, ◌||◌, Option, none, some, List, [],
  ◌∷◌, ◌++◌, map, leb, ◌==◌, if◌then◌else◌, is_nil, length, first_error, ◌>>=◌,
}
use orionis.Text.{Text, codes, text_eq, trim_space}
use orionis.Stringset
use orionis.Scopes.{normalize_scopes, contains_scope_wildcard, validate_scope_wildcard}
use orionis.Server.Scopes.{is_scope_allowed}

pub record Client : Type 0 where
  pub id : Text
  pub secrets : List Text
  pub secret_sha256_hex : List Text
  pub allowed_audiences : List Text
  pub allowed_scopes : List Text
  pub default_scopes : List Text
  pub disabled : Bool

unfoldable pub new_client : Text → Client
new_client id = record {
  id = trim_space id;
  secrets = [];
  secret_sha256_hex = [];
  allowed_audiences = [];
  allowed_scopes = [];
  default_scopes = [];
  disabled = false;
}

unfoldable pub add_secret : Client → Text → Client
add_secret c secret = if is_nil secret then c else record c { secrets = c.secrets ++ secret ∷ [] }

unfoldable pub add_secret_sha256 : Client → Text → Client
add_secret_sha256 c hex_value =
    if is_nil (trim_space hex_value)
    then c
    else record c { secret_sha256_hex = c.secret_sha256_hex ++ trim_space hex_value ∷ [] }

unfoldable pub add_audiences : Client → List Text → Client
add_audiences c audiences = record c {
  allowed_audiences = c.allowed_audiences ++ Stringset.normalize audiences;
}

unfoldable pub add_scopes : Client → List Text → Client
add_scopes c scopes = record c { allowed_scopes = c.allowed_scopes ++ scopes }

unfoldable pub add_defaults : Client → List Text → Client
add_defaults c scopes = record c { default_scopes = c.default_scopes ++ scopes }

unfoldable pub disable : Client → Client
disable c = record c { disabled = true }

unfoldable pub normalize_hashes : List Text → List Text
normalize_hashes values = map trim_space values

unfoldable pub normalize : Client → Client
normalize c = record c {
  id = trim_space c.id;
  secret_sha256_hex = normalize_hashes c.secret_sha256_hex;
  allowed_audiences = Stringset.normalize c.allowed_audiences;
  allowed_scopes = normalize_scopes c.allowed_scopes;
  default_scopes = normalize_scopes c.default_scopes;
}

-- The value of a hexadecimal digit.
hex_digit : ℕ → Option ℕ
hex_digit c =
    if leb b'0' c && leb c b'9'
    then some (c - b'0')
    else if leb b'a' c && leb c b'f'
    then some (c - b'a' + 10)
    else if leb b'A' c && leb c b'F'
    then some (c - b'A' + 10)
    else none

-- `hex.DecodeString`; `none` is an error.
unfoldable pub hex_decode : Text → Option (List ℕ)
unfolding hex_digit
hex_decode [] = some []
hex_decode (c ∷ []) = none
hex_decode (c ∷ d ∷ s) =
    let rest = hex_decode s in
    do high ← hex_digit c; low ← hex_digit d; bytes ← rest; some ((16 * high + low) ∷ bytes)

abbrev pub sha256_size : ℕ
sha256_size = 32

-- The bytes of a stored digest, if it is one.
unfoldable pub decode_digest : Text → Option (List ℕ)
unfolding hex_decode
decode_digest hash = do
  decoded ← hex_decode hash
  if length decoded == sha256_size then some decoded else none

unfoldable pub has_secret : List Text → Bool
has_secret [] = false
has_secret (secret ∷ secrets) = not (is_nil secret) || has_secret secrets

unfoldable pub has_credentials : Client → Bool
has_credentials c = has_secret c.secrets || not (is_nil c.secret_sha256_hex)

pub data ClientError : Type 0 where
  id_required secret_required audience_required : ClientError
  invalid_digest : Text → ClientError
  invalid_wildcard : Text → ClientError
  wildcard_default : Text → ClientError
  default_not_allowed : Text → ClientError

-- The loops of `Validate` and `ValidateScopePolicy`: the first item that is at fault.
check_digests : List Text → Option ClientError
check_digests [] = none
check_digests (hash ∷ hashes) = elim (decode_digest hash) [
  | none ↦ some (invalid_digest hash)
  | some d ↦ check_digests hashes
]

check_wildcards : List Text → Option ClientError
check_wildcards [] = none
check_wildcards (scope ∷ scopes) =
    if validate_scope_wildcard scope then check_wildcards scopes else some (invalid_wildcard scope)

check_plain : List Text → Option ClientError
check_plain [] = none
check_plain (scope ∷ scopes) =
    if contains_scope_wildcard scope then some (wildcard_default scope) else check_plain scopes

check_allowed : List Text → List Text → Option ClientError
check_allowed [] allowed = none
check_allowed (scope ∷ scopes) allowed =
    if is_scope_allowed scope allowed
    then check_allowed scopes allowed
    else some (default_not_allowed scope)

-- The checks of a client that is normalised.
scope_policy : Client → Option ClientError
scope_policy c = first_error (check_wildcards c.allowed_scopes) (check_plain c.default_scopes)

unfoldable pub validate_scope_policy : Client → Option ClientError
unfolding scope_policy check_wildcards check_plain
validate_scope_policy c = scope_policy (normalize c)

require : Bool → ClientError → Option ClientError
require true e = none
require false e = some e

-- The checks of `Validate`, on the normalised client; `ValidateScopePolicy` normalises it again.
checks : Client → Option ClientError
checks c = first_error (require (not (is_nil c.id)) id_required) (
    first_error (require (has_credentials c) secret_required) (
      first_error (check_digests c.secret_sha256_hex) (
        first_error (require (not (is_nil c.allowed_audiences)) audience_required) (
          first_error (validate_scope_policy c)
            (check_allowed c.default_scopes c.allowed_scopes)))))

-- `none` is a nil error.
unfoldable pub validate : Client → Option ClientError
unfolding checks require check_digests check_allowed
validate c = checks (normalize c)

module _ (sum256 : Text → List ℕ) where
  -- `subtle.ConstantTimeCompare` of two digests is their equality.
  verify_plain : Text → List Text → Bool
  verify_plain secret [] = false
  verify_plain secret (plain ∷ secrets) =
      text_eq (sum256 secret) (sum256 plain) || verify_plain secret secrets

  digest_matches : Text → Option (List ℕ) → Bool
  digest_matches secret none = false
  digest_matches secret (some decoded) = text_eq (sum256 secret) decoded

  verify_digest : Text → List Text → Bool
  verify_digest secret [] = false
  verify_digest secret (hash ∷ hashes) =
      digest_matches secret (decode_digest (trim_space hash)) || verify_digest secret hashes

  unfoldable pub verify_secret : Client → Text → Bool
  unfolding verify_plain verify_digest digest_matches
  verify_secret c secret =
      if is_nil secret
      then false
      else if verify_plain secret c.secrets
      then true
      else verify_digest secret c.secret_sha256_hex
