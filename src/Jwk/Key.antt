-- ===== src/Jwk/Key.antt =====
-- jwk/key.go: keys as they are published, and decoded keys. The decoding of base64 and the test of a
-- point on the curve P-256 are the record `Codec`.
use orionis.Base.{ℕ, Bool, not, ◌&&◌, Option, none, some, List, [], if◌then◌else◌, is_nil}
use orionis.Text.{Text, codes, text_eq, trim_space}

pub record Key : Type 0 where
  pub kty : Text
  pub use_ : Text
  pub kid : Text
  pub alg : Text
  pub crv : Text
  pub x : Text
  pub y : Text
  pub n : Text
  pub e : Text

abbrev pub kty_okp : Text
kty_okp = codes "OKP"

abbrev pub kty_rsa : Text
kty_rsa = codes "RSA"

abbrev pub kty_ec : Text
kty_ec = codes "EC"

abbrev pub use_sig : Text
use_sig = codes "sig"

abbrev pub crv_ed : Text
crv_ed = codes "Ed25519"

abbrev pub crv_p256 : Text
crv_p256 = codes "P-256"

abbrev pub alg_ed_dsa : Text
alg_ed_dsa = codes "EdDSA"

abbrev pub alg_es256 : Text
alg_es256 = codes "ES256"

-- A decoded public key.
pub data PublicKey : Type 0 where
  ed25519 : List ℕ → PublicKey
  rsa : ℕ → ℕ → PublicKey
  ecdsa_p256 : ℕ → ℕ → PublicKey

pub record DecodedKey : Type 0 where
  pub public_key : PublicKey
  pub declared_alg : Text

-- `base64.RawURLEncoding` (`none` is an error), and `ecdh.P256().NewPublicKey` on the uncompressed
-- point.
pub record Codec : Type 0 where
  pub decode_string : Text → Option (List ℕ)
  pub encode_to_string : List ℕ → Text
  pub on_p256 : List ℕ → Bool

unfoldable pub new_ed25519_key : Codec → Text → List ℕ → Key
new_ed25519_key codec kid pub_key = record {
  kty = kty_okp;
  use_ = use_sig;
  kid = trim_space kid;
  alg = alg_ed_dsa;
  crv = crv_ed;
  x = codec.encode_to_string pub_key;
  y = [];
  n = [];
  e = [];
}

-- `none` is an error.
unfoldable pub for_algorithm : DecodedKey → Text → Option PublicKey
for_algorithm k alg =
    if not (is_nil k.declared_alg) && not (is_nil alg) && not (text_eq k.declared_alg alg)
    then none
    else some k.public_key
