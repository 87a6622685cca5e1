-- ===== src/Jwk/Set.antt =====
-- jwk/decode.go: how a set of keys is decoded.
pub mod Decoding
use orionis.Base.{
  ℕ, ◌≡◌, refl, Bool, true, false, not, ◌&&◌, ◌||◌, Option, none, some, List, [], ◌∷◌,
  if◌then◌else◌, is_nil, is_some,
}
use orionis.Text.{Text, text_eq, trim_space}
use orionis.Text.Dict.{lookup, insert}
use orionis.Jwk.Key.{
  Key, PublicKey, ed25519, rsa, ecdsa_p256, DecodedKey, Codec, kty_okp, kty_rsa, kty_ec, use_sig,
  crv_ed, crv_p256, alg_ed_dsa, alg_es256,
}
use orionis.Jwk.Decode.{decode_public_key, validate_declared_algorithm}

pub data DecodeError : Type 0 where
  no_keys missing_kid : DecodeError
  duplicate_kid unsupported_use incompatible_alg bad_key : Text → DecodeError

pub data DecodeResult : Type 0 where
  decoded : List (Text × DecodedKey) → DecodeResult
  decode_failed : DecodeError → DecodeResult

-- The tests of one key of the set, and the key decoded.
pub data ItemResult : Type 0 where
  item : DecodedKey → ItemResult
  item_failed : DecodeError → ItemResult

decode_item : Codec → List (Text × DecodedKey) → Key → ItemResult
decode_item codec keys k =
    if is_nil (trim_space k.kid)
    then item_failed missing_kid
    else if is_some (lookup k.kid keys)
    then item_failed (duplicate_kid k.kid)
    else if not (is_nil k.use_) && not (text_eq k.use_ use_sig)
    then item_failed (unsupported_use k.kid)
    else if not (validate_declared_algorithm k)
    then item_failed (incompatible_alg k.kid)
    else elim (decode_public_key codec k) [
      | none ↦ item_failed (bad_key k.kid)
      | some public_key ↦ item (record { public_key = public_key; declared_alg = k.alg })
    ]

decode_loop : Codec → List (Text × DecodedKey) → List Key → DecodeResult
decode_loop codec keys [] = decoded keys
decode_loop codec keys (k ∷ rest) = elim (decode_item codec keys k) [
  | item_failed e ↦ decode_failed e
  | item d ↦ decode_loop codec (insert k.kid d keys) rest
]

unfoldable pub decode_set : Codec → List Key → DecodeResult
unfolding decode_loop decode_item
decode_set codec keys = if is_nil keys then decode_failed no_keys else decode_loop codec [] keys
