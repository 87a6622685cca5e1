-- ===== src/Jwk/Decode.antt =====
-- jwk/decode.go: how one published key is decoded.
pub mod Exponent
use orionis.Base.{
  ℕ, suc, ◌+◌, ◌-◌, ◌*◌, ◌/◌, ◌%◌, ◌^◌, ◌≡◌, refl, Bool, true, false, not, ◌&&◌, ◌||◌, Option, none,
  some, List, [], ◌∷◌, ◌++◌, ltb, leb, ◌==◌, if◌then◌else◌, is_nil, length,
}
use orionis.Text.{Text, codes, text_eq}
use orionis.Jwk.Key.{
  Key, PublicKey, ed25519, rsa, ecdsa_p256, DecodedKey, Codec, kty_okp, kty_rsa, kty_ec, use_sig,
  crv_ed, crv_p256, alg_ed_dsa, alg_es256,
}

-- `new(big.Int).SetBytes`
unfoldable pub set_bytes : ℕ → List ℕ → ℕ
set_bytes acc [] = acc
set_bytes acc (b ∷ bytes) = set_bytes (acc * 256 + b) bytes

-- The loop over the bytes of the exponent, in uint64.
exponent_loop : ℕ → List ℕ → ℕ
exponent_loop exponent [] = exponent
exponent_loop exponent (value ∷ bytes) = exponent_loop ((exponent * 2 ^ 8 + value) % 2 ^ 64) bytes

abbrev pub max_int : ℕ
max_int = 2 ^ 63 - 1

-- The exponent of an RSA key; `none` is an error.
unfoldable pub rsa_exponent : List ℕ → Option ℕ
unfolding exponent_loop
rsa_exponent bytes =
    if ltb 8 (length bytes)
    then none
    else if ltb max_int (exponent_loop 0 bytes)
    then none
    else if ltb (exponent_loop 0 bytes) 3 || (exponent_loop 0 bytes % 2) == 0
    then none
    else some (exponent_loop 0 bytes)

-- `decodeBase64URL`
non_empty : Option (List ℕ) → Option (List ℕ)
non_empty none = none
non_empty (some raw) = if is_nil raw then none else some raw

decode_base64_url : Codec → Text → Option (List ℕ)
decode_base64_url codec value = if is_nil value then none else non_empty (codec.decode_string value)

decode_ed25519 : Codec → Key → Option PublicKey
decode_ed25519 codec k =
    if not (text_eq k.crv crv_ed) then none else elim (decode_base64_url codec k.x) [
      | none ↦ none
      | some raw ↦ if length raw == 32 then some (ed25519 raw) else none
    ]

decode_rsa : Codec → Key → Option PublicKey
decode_rsa codec k = elim (decode_base64_url codec k.n) [
  | none ↦ none
  | some n_bytes ↦
      if leb (set_bytes 0 n_bytes) 1 || (set_bytes 0 n_bytes % 2) == 0
      then none
      else elim (decode_base64_url codec k.e) [
        | none ↦ none
        | some e_bytes ↦ elim (rsa_exponent e_bytes) [
          | none ↦ none
          | some exponent ↦ some (rsa (set_bytes 0 n_bytes) exponent)
        ]
      ]
]

-- The uncompressed point: 4, x, y.
point : List ℕ → List ℕ → List ℕ
point x_bytes y_bytes = 4 ∷ (x_bytes ++ y_bytes)

decode_ecdsa : Codec → Key → Option PublicKey
decode_ecdsa codec k =
    if not (text_eq k.crv crv_p256) then none else elim (decode_base64_url codec k.x) [
      | none ↦ none
      | some x_bytes ↦ elim (decode_base64_url codec k.y) [
        | none ↦ none
        | some y_bytes ↦
            if not (length x_bytes == 32) || not (length y_bytes == 32)
            then none
            else if codec.on_p256 (point x_bytes y_bytes)
            then some (ecdsa_p256 (set_bytes 0 x_bytes) (set_bytes 0 y_bytes))
            else none
      ]
    ]

unfoldable pub decode_public_key : Codec → Key → Option PublicKey
unfolding decode_ed25519 decode_rsa decode_ecdsa point decode_base64_url non_empty
decode_public_key codec k =
    if text_eq k.kty kty_okp
    then decode_ed25519 codec k
    else if text_eq k.kty kty_rsa
    then decode_rsa codec k
    else if text_eq k.kty kty_ec
    then decode_ecdsa codec k
    else none

unfoldable pub is_rsa_algorithm : Text → Bool
is_rsa_algorithm alg =
    text_eq alg (codes "RS256")
    || text_eq alg (codes "RS384")
    || text_eq alg (codes "RS512")
    || text_eq alg (codes "PS256")
    || text_eq alg (codes "PS384")
    || text_eq alg (codes "PS512")

-- `true` is a nil error.
unfoldable pub validate_declared_algorithm : Key → Bool
validate_declared_algorithm k =
    if is_nil k.alg
    then true
    else if text_eq k.kty kty_okp
    then text_eq k.crv crv_ed && text_eq k.alg alg_ed_dsa
    else if text_eq k.kty kty_rsa
    then is_rsa_algorithm k.alg
    else if text_eq k.kty kty_ec
    then text_eq k.crv crv_p256 && text_eq k.alg alg_es256
    else false
