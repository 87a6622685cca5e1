-- ===== src/Tokens.antt =====
-- A token from its issue to its verification: server/token_service.go, jwk/ed25519.go, jwk/static.go
-- and verifier.go together. What the JWT library documents of a text that it signed is `IsReader`.
pub mod Passing
pub mod Serving
use orionis.Jwk.Ed25519.Creating.{IsWhole}
use orionis.Base.{ℕ, [], ◌<◌, ◌*◌, ◌≢◌, ◌≡◌, true, false, Option, none, some, List, Has, is_nil}
use orionis.Base.Int.{ℤ, pos, ◌+ℤ◌, ◌≤ℤ◌, ◌<ℤ◌}
use orionis.Text.{Text, trim_space}
use orionis.Claims.{Claims}
use orionis.Jwk.Key.{PublicKey, ed25519, alg_ed_dsa}
use orionis.Jwk.Static.{
  StaticProvider, KeyAnswer, answer, key_not_found, wrong_algorithm, static_key,
}
use orionis.Jwk.Ed25519.{Crypto}
use orionis.Verifier.{
  leeway_of, KeyResult, found, failed, KeyProvider, ParserOptions, TokenHeader, Parsed, parsed,
}

-- `Key` of a static provider, as a verifier calls it.
key_result : KeyAnswer → KeyResult PublicKey
key_result (answer key) = found key
key_result key_not_found = failed
key_result wrong_algorithm = failed

unfoldable pub keys_of : StaticProvider → KeyProvider PublicKey
unfolding key_result
keys_of p kid alg = key_result (static_key p kid alg)

-- A date that the JWT library keeps: whole seconds since 1970, few enough for a float64.
abbrev pub IsDate : ℤ → Type 0
IsDate t = (seconds : ℕ) × (seconds < 9_007_199_254_740_992) × (t ≡ pos (seconds * 1_000_000_000))

-- At time `now`, the claims have begun and are not over, but for the leeway. Their dates are kept.
pub record IsInTime (leeway now : ℤ) (claims : Claims) : Type 0 where
  pub expires : ℤ
  pub begins : ℤ
  pub expires_is : claims.expires_at ≡ some expires
  pub not_before_is : claims.not_before ≡ some begins
  pub issued_at_is : claims.issued_at ≡ some begins
  pub expires_kept : IsDate expires
  pub begins_kept : IsDate begins
  pub not_over : now <ℤ (expires +ℤ leeway)
  pub begun : begins ≤ℤ (now +ℤ leeway)

-- A text that was signed for claims is not blank. It is parsed to them, and valid, at time `now`, if the
-- private key was made from a seed, the key that is found for its key id is the public half, the
-- algorithm is allowed, the issuer and the audience are as asked, if they are, and the claims are in time
-- and have dates of whole seconds.
pub record IsReader (crypto : Crypto)
    (parse : ParserOptions → Text → (TokenHeader → KeyResult PublicKey) → Parsed) (now : ℤ)
    : Type 0 where
  pub signed_given :
      (kid : Text) (claims : Claims) (key : List ℕ) (raw : Text)
      → crypto.signed_string alg_ed_dsa kid claims key ≡ some raw
      → is_nil (trim_space raw) ≡ false
  pub reads :
      (o : ParserOptions) (kid : Text) (claims : Claims) (key : List ℕ) (raw : Text)
      (keys : TokenHeader → KeyResult PublicKey)
      → IsWhole crypto key
      → crypto.signed_string alg_ed_dsa kid claims key ≡ some raw
      → keys (record { kid = some kid; alg = alg_ed_dsa }) ≡ found (ed25519 (crypto.public_key key))
      → Has alg_ed_dsa o.valid_methods
      → ((issuer : Text) → o.issuer ≡ some issuer → claims.issuer ≡ issuer)
      → ((audience : Text)
          → o.audience ≡ some audience
          → (audience ≢ []) × Has audience claims.audience)
      → IsInTime (leeway_of o.leeway) now claims
      → parse o raw keys ≡ parsed true claims
