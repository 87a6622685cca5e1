-- ===== src/Jwk/Ed25519.antt =====
-- jwk/ed25519.go: the Ed25519 signer, and the file that its key is kept in. The disk is an unknown
-- state that the calls of os pass on; a pointer that may be nil is an `Option`, and `Must` panics where
-- `Build` fails. What rand.Reader gives is the argument `generated`.
pub mod Creating
pub mod Keeping
pub mod Preserving
pub mod Publishing
use orionis.Base.{
  ℕ, ◌≡◌, refl, Bool, true, false, not, Option, none, some, List, [], if◌then◌else◌, is_nil, length,
  ◌==◌, ◌∷◌,
}
use orionis.Text.{Text, codes, trim_space}
use orionis.Claims.{Claims}
use orionis.Jwk.Key.{Key, Codec, alg_ed_dsa, new_ed25519_key}
use orionis.Jwk.Static.{StaticResult, static_builder, build}

-- What os.ReadFile answers; `not_exist` is an error that is os.ErrNotExist.
pub data ReadResult : Type 0 where
  read : List ℕ → ReadResult
  not_exist read_error : ReadResult

-- os and path/filepath. `true` is a nil error.
pub record Files : Type 1 where
  pub State : Type 0
  pub read_file : State → Text → ReadResult
  pub mkdir_all : State → Text → State × Bool
  pub write_file : State → Text → List ℕ → State × Bool
  pub dir : Text → Text

-- What x509.ParsePKCS8PrivateKey answers.
pub data Pkcs8 : Type 0 where
  ed25519_key : List ℕ → Pkcs8
  other_key parse_error : Pkcs8

-- encoding/pem, crypto/x509, crypto/ed25519 with the private key of a seed, and `SignedString` of the
-- JWT library for an algorithm, a kid, claims and a key. `none` is an error, and a nil block.
pub record Crypto : Type 0 where
  pub decode_pem : List ℕ → Option (List ℕ)
  pub encode_to_memory : Text → List ℕ → List ℕ
  pub parse_pkcs8 : List ℕ → Pkcs8
  pub marshal_pkcs8 : List ℕ → Option (List ℕ)
  pub new_key_from_seed : List ℕ → List ℕ
  pub public_key : List ℕ → List ℕ
  pub signed_string : Text → Text → Claims → List ℕ → Option Text

abbrev pub private_key_size : ℕ
private_key_size = 64

abbrev pub default_ed25519_kid : Text
default_ed25519_kid = codes "orionis-ed25519-1"

pub record Ed25519Signer : Type 0 where
  pub kid : Text
  pub private_key : List ℕ

pub data SignerError : Type 0 where
  nil_builder generate_failed read_failed empty_pem not_pkcs8 not_ed25519 : SignerError
  marshal_failed mkdir_failed write_failed : SignerError

pub data SignerResult : Type 0 where
  signer_ok : Ed25519Signer → SignerResult
  signer_failed : SignerError → SignerResult

unfoldable pub default_kid : Text → Text
default_kid kid = if is_nil (trim_space kid) then default_ed25519_kid else trim_space kid

unfoldable pub generate_ed25519_signer : Option (List ℕ) → Text → SignerResult
generate_ed25519_signer none kid = signer_failed generate_failed
generate_ed25519_signer (some k) kid = signer_ok (record { kid = default_kid kid; private_key = k })

unfoldable pub signer_of_pkcs8 : Pkcs8 → Text → SignerResult
signer_of_pkcs8 parse_error kid = signer_failed not_pkcs8
signer_of_pkcs8 other_key kid = signer_failed not_ed25519
signer_of_pkcs8 (ed25519_key k) kid = signer_ok (record { kid = trim_space kid; private_key = k })

-- The methods of a signer.
unfoldable pub key_id : Option Ed25519Signer → Text
key_id none = []
key_id (some s) = s.kid

zero_key : Key
zero_key = record {
  kty = [];
  use_ = [];
  kid = [];
  alg = [];
  crv = [];
  x = [];
  y = [];
  n = [];
  e = [];
}

module _ (crypto : Crypto) where
  unfoldable pub signer_from_pkcs8 : List ℕ → Text → SignerResult
  signer_from_pkcs8 der kid = signer_of_pkcs8 (crypto.parse_pkcs8 der) kid

  -- The block of a PEM text, and the key in it.
  pub from_block : Option (List ℕ) → Text → SignerResult
  from_block none kid = signer_failed empty_pem
  from_block (some der) kid = signer_from_pkcs8 der kid

  unfoldable pub load_ed25519_signer_pem : List ℕ → Text → SignerResult
  unfolding from_block
  load_ed25519_signer_pem raw kid = from_block (crypto.decode_pem raw) (default_kid kid)

  unfoldable pub public_jwk : Codec → Option Ed25519Signer → Key
  unfolding zero_key
  public_jwk codec none = zero_key
  public_jwk codec (some s) =
      if not (length s.private_key == private_key_size)
      then zero_key
      else new_ed25519_key codec s.kid (crypto.public_key s.private_key)

  -- `none` is the error for a nil signer.
  unfoldable pub static_provider : Codec → Option Ed25519Signer → Option StaticResult
  static_provider codec none = none
  static_provider codec (some s) =
      some (build codec (static_builder (public_jwk codec (some s) ∷ [])))

  unfoldable pub sign : Option Ed25519Signer → Claims → Option Text
  sign none claims = none
  sign (some s) claims =
      if not (length s.private_key == private_key_size)
      then none
      else crypto.signed_string alg_ed_dsa s.kid claims s.private_key

  module _ (F : Files) where
    -- A new signer is stored: its key is marshaled, the directory is made, and the file is written.
    pub written : Ed25519Signer → F.State × Bool → SignerResult × F.State
    written s (disk, false) = (signer_failed write_failed, disk)
    written s (disk, true) = (signer_ok s, disk)

    pub in_directory : Text → Ed25519Signer → List ℕ → F.State × Bool → SignerResult × F.State
    in_directory path s der (disk, false) = (signer_failed mkdir_failed, disk)
    in_directory path s der (disk, true) =
        written s (F.write_file disk path (crypto.encode_to_memory (codes "PRIVATE KEY") der))

    pub marshaled : F.State → Text → Ed25519Signer → Option (List ℕ) → SignerResult × F.State
    marshaled disk path s none = (signer_failed marshal_failed, disk)
    marshaled disk path s (some der) = in_directory path s der (F.mkdir_all disk (F.dir path))

    pub create : F.State → Text → SignerResult → SignerResult × F.State
    create disk path (signer_failed e) = (signer_failed e, disk)
    create disk path (signer_ok s) = marshaled disk path s (crypto.marshal_pkcs8 s.private_key)

    -- `LoadOrCreateEd25519Signer` behind the read of the file.
    pub load_or : Option (List ℕ) → F.State → Text → Text → ReadResult → SignerResult × F.State
    load_or generated disk path kid (read raw) = (from_block (crypto.decode_pem raw) kid, disk)
    load_or generated disk path kid read_error = (signer_failed read_failed, disk)
    load_or generated disk path kid not_exist =
        create disk path (generate_ed25519_signer generated kid)

    unfoldable pub load_or_create : Option (List ℕ) → F.State → Text → Text → SignerResult × F.State
    unfolding load_or from_block create marshaled in_directory written
    load_or_create generated disk path kid =
        if is_nil (trim_space path)
        then (generate_ed25519_signer generated (default_kid kid), disk)
        else load_or generated disk (trim_space path) (default_kid kid)
            (F.read_file disk (trim_space path))

pub record Ed25519Builder : Type 0 where
  pub kid : Text
  pub path : Text

unfoldable pub ed25519_builder : Option Ed25519Builder
ed25519_builder = some (record { kid = default_ed25519_kid; path = [] })

unfoldable pub set_kid : Option Ed25519Builder → Text → Option Ed25519Builder
set_kid none kid = none
set_kid (some b) kid =
    if not (is_nil (trim_space kid)) then some (record b { kid = trim_space kid }) else some b

unfoldable pub set_path : Option Ed25519Builder → Text → Option Ed25519Builder
set_path none path = none
set_path (some b) path = some (record b { path = trim_space path })

unfoldable pub build_signer :
    (crypto : Crypto) (F : Files)
    → Option (List ℕ)
    → F.State
    → Option Ed25519Builder
    → SignerResult × F.State
build_signer crypto F generated disk none = (signer_failed nil_builder, disk)
build_signer crypto F generated disk (some b) = load_or_create crypto F generated disk b.path b.kid
