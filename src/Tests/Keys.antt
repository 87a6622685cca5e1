-- ===== src/Tests/Keys.antt =====
-- Published keys.
use orionis.Base.{
  ◌≡◌, ◌≢◌, ◌↔◌, refl, ℕ, ◌≤◌, ◌%◌, ◌^◌, ◌-◌, true, some, List, [], ◌∷◌, All, Any, length, arith,
  is_nil, is_some,
}
use orionis.Text.{Text, codes, text_eq, trim_space}
use orionis.Text.Dict.{lookup, insert}
use orionis.Jwk.Key.{for_algorithm, Key, DecodedKey, Codec, ed25519, kty_okp}
use orionis.Jwk.Decode.{set_bytes, rsa_exponent, decode_public_key, validate_declared_algorithm}
use orionis.Jwk.Decode.Exponent.{rsa_exponent_iff}
use orionis.Jwk.Static.{StaticProvider, new_static_provider, static_key, answer_for}
use orionis.Jwk.Static.Serving.{IsPublished, static_key_sound}
use orionis.Jwk.Set.{decode_set}
use orionis.Jwk.Set.Decoding.{HasDistinctKids, IsHeld, decode_set_sound}

abbrev exponent : List ℕ
exponent = 1 ∷ 0 ∷ 1 ∷ []

rsa_exponent_iff_example : (rsa_exponent exponent ≡ some 65537) ↔ (
    (length exponent ≤ 8)
    × (65537 ≡ set_bytes 0 exponent)
    × (3 ≤ 65537)
    × (65537 ≤ 2 ^ 63 - 1)
    × (65537 % 2 ≡ 1))
rsa_exponent_iff_example =
    rsa_exponent_iff exponent 65537 (omega arith, (omega arith, (omega arith, tt)))

-- A codec that takes the characters of a text as its bytes.
abbrev pub plain_codec : Codec
plain_codec = record { decode_string = λ t. some t; encode_to_string = λ t. t; on_p256 = λ p. true }

abbrev pub bytes : List ℕ
bytes = codes "0123456789abcdef0123456789abcdef"

abbrev pub keys : List Key
keys =
    record {
      kty = kty_okp;
      use_ = codes "sig";
      kid = codes "k1";
      alg = codes "EdDSA";
      crv = codes "Ed25519";
      x = bytes;
      y = [];
      n = [];
      e = [];
    }
    ∷ []

abbrev pub held : List (Text × DecodedKey)
held = (codes "k1", record { public_key = ed25519 bytes; declared_alg = codes "EdDSA" }) ∷ []

-- What a run of the decoder computes with.
unfoldable pub run : Text → Text
unfolding trim_space text_eq decode_set decode_public_key validate_declared_algorithm lookup insert
    is_nil is_some
run s = s

decode_set_sound_example : (keys ≢ []) × All (IsHeld plain_codec held) keys × HasDistinctKids keys
unfolding run
decode_set_sound_example = decode_set_sound plain_codec keys held refl

abbrev fixed : StaticProvider
fixed = record { keys = held }

-- What a run of the static provider computes with.
static_run : Text → Text
unfolding run new_static_provider static_key answer_for for_algorithm
static_run s = s

static_key_sound_example :
    Any (IsPublished plain_codec (codes "k1") (codes "EdDSA") (ed25519 bytes)) keys
unfolding static_run
static_key_sound_example =
    static_key_sound plain_codec keys fixed (codes "k1") (codes "EdDSA") (ed25519 bytes) refl refl
