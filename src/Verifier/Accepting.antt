-- ===== src/Verifier/Accepting.antt =====
-- What a verifier hands to the JWT library, and what it accepts.
use orionis.Base.{
  ◌≡◌, ◌≢◌, [], ◌∷◌, inl, inr, refl, ap, ◌∙◌, true, false, some, arith, Bool-cases, is_nil,
}
use orionis.Base.Int.{pos, ltb_ℤ}
use orionis.Text.{Text, trim_space}
use orionis.Text.Order.{text_eq_iff}
use orionis.Claims.{Claims}
use orionis.Verifier.{
  KeyResult, KeyProvider, Verifier, ParserOptions, TokenHeader, Parsed, parsed, verified,
  effective_algs, given, parser_options, key_func, check_claims, verify,
}

ne_nil_of_given : (s t : Text) → given s ≡ some t → t ≢ []
unfolding given is_nil
ne_nil_of_given [] t e = absurd (ground arith)
ne_nil_of_given (c ∷ s) t e = λ n. ground arith

given-is : (s t : Text) → given s ≡ some t → s ≡ t
unfolding given
given-is s t e = elim (Bool-cases (is_nil s)) [
  | inl k ↦ absurd (ground arith)
  | inr k ↦ ground arith
]

check_claims-verified :
    (require_use raw : Text) (claims : Claims)
    → claims.token_use ≡ require_use
    → is_nil claims.subject ≡ false
    → is_nil claims.client_id ≡ false
    → check_claims require_use raw (parsed true claims)
      ≡ verified (record { raw = raw; claims = claims })
unfolding check_claims
check_claims-verified require_use raw claims u s c =
    ground (arith, s, c, (text_eq_iff claims.token_use require_use).1 u)

module _ {K : Type 0} where
  pub options-issuer :
      (v : Verifier K) (issuer : Text) → (parser_options v).issuer ≡ some issuer → v.issuer ≡ issuer
  unfolding parser_options
  options-issuer v issuer e = given-is v.issuer issuer e

  pub options-audience :
      (v : Verifier K) (audience : Text)
      → (parser_options v).audience ≡ some audience
      → v.audience ≡ audience
  unfolding parser_options
  options-audience v audience e = given-is v.audience audience e

  pub options-audience_given :
      (v : Verifier K) (audience : Text)
      → (parser_options v).audience ≡ some audience
      → audience ≢ []
  unfolding parser_options
  options-audience_given v audience e = ne_nil_of_given v.audience audience e

  pub options-methods :
      (v : Verifier K)
      → is_nil v.valid_algs ≡ false
      → (parser_options v).valid_methods ≡ v.valid_algs
  unfolding parser_options effective_algs
  options-methods v e = rw e refl

  pub options-leeway :
      (v : Verifier K) → ltb_ℤ (pos 0) v.leeway ≡ true → (parser_options v).leeway ≡ some v.leeway
  unfolding parser_options
  options-leeway v e = rw e refl

  pub key_func-given :
      (provider : KeyProvider K) (kid alg : Text)
      → is_nil (trim_space kid) ≡ false
      → key_func provider (record { kid = some kid; alg = alg }) ≡ provider kid alg
  unfolding key_func
  key_func-given provider kid alg n = rw n refl

  -- A text that is parsed to valid claims of the use that is asked for, with a subject and a client id,
  -- is accepted with them.
  pub verify-parsed :
      (parse : ParserOptions → Text → (TokenHeader → KeyResult K) → Parsed) (v : Verifier K)
      (provider : KeyProvider K) (raw : Text) (claims : Claims)
      → v.provider ≡ some provider
      → is_nil (trim_space raw) ≡ false
      → parse (parser_options v) raw (key_func provider) ≡ parsed true claims
      → claims.token_use ≡ v.require_use
      → is_nil claims.subject ≡ false
      → is_nil claims.client_id ≡ false
      → verify parse (some v) raw ≡ verified (record { raw = raw; claims = claims })
  unfolding verify
  verify-parsed parse v provider raw claims p n e u s c =
      rw (n, p)
        (ap (check_claims v.require_use raw) e
          ∙ check_claims-verified v.require_use raw claims u s c)
