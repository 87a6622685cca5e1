-- ===== src/Verifier/Soundness.antt =====
-- What a verified token is known to be.
use orionis.Base.{
  ◌≡◌, ◌≢◌, ◌⊎◌, inl, inr, refl, true, some, none, subst, if◌then◌else◌, [], ◌∷◌, arith, Bool-cases,
  Option-cases, Has, is_nil,
}
use orionis.Base.Int.{ℤ, pos, negsuc, ltb_ℤ, ◌+ℤ◌, ◌≤ℤ◌, ◌<ℤ◌}
use orionis.Claims.{Claims}
use orionis.Text.{Text, trim_space}
use orionis.Text.Order.{text_eq_iff}
use orionis.Verifier.{
  KeyResult, found, KeyProvider, Verifier, ParserOptions, TokenHeader, Parsed, parsed, rejected,
  VerifiedToken, verified, effective_algs, given, parser_options, key_func, check_claims, verify,
  IsParser, Jwt, leeway_of,
}

-- What `Verify` promises of the claims, beside the key.
pub record IsTrusted (issuer audience require_use raw : Text) (t : VerifiedToken) : Type 0 where
  pub raw_kept : t.raw ≡ raw
  pub use_matches : (require_use ≡ []) ⊎ (t.claims.token_use ≡ require_use)
  pub has_subject : t.claims.subject ≢ []
  pub has_client : t.claims.client_id ≢ []
  pub issuer_matches : (issuer ≡ []) ⊎ (t.claims.issuer ≡ issuer)
  pub audience_matches : (audience ≡ []) ⊎ Has audience t.claims.audience

-- What the checks behind the parser establish.
record IsChecked (require_use raw : Text) (p : Parsed) (t : VerifiedToken) : Type 0 where
  was_valid : p ≡ parsed true t.claims
  raw_kept : t.raw ≡ raw
  use_matches : (require_use ≡ []) ⊎ (t.claims.token_use ≡ require_use)
  has_subject : t.claims.subject ≢ []
  has_client : t.claims.client_id ≢ []

check_claims-IsChecked :
    (require_use raw : Text) (p : Parsed) (t : VerifiedToken)
    → check_claims require_use raw p ≡ verified t
    → IsChecked require_use raw p t
unfolding check_claims is_nil
check_claims-IsChecked require_use raw rejected t e = absurd (ground arith)
check_claims-IsChecked require_use raw (parsed valid c) t e = record {
  was_valid = ground arith;
  raw_kept = ground arith;
  use_matches = ground (arith, text_eq_iff c.token_use require_use);
  has_subject = ground arith;
  has_client = ground arith;
}

given-some : (s : Text) → (s ≡ []) ⊎ ((s ≢ []) × (given s ≡ some s))
unfolding given is_nil
given-some [] = inl refl
given-some (c ∷ s) = inr (λ e. cc, refl)

-- A leeway below 0 is none.
abbrev pub tolerance : ℤ → ℤ
tolerance (pos n) = pos n
tolerance (negsuc n) = pos 0

-- The claims have an end, and are neither over nor of the future, but for the leeway.
pub record IsCurrent (now leeway : ℤ) (claims : Claims) : Type 0 where
  pub expires : ℤ
  pub expires_is : claims.expires_at ≡ some expires
  pub not_over : now <ℤ (expires +ℤ tolerance leeway)
  pub begun : (b : ℤ) → claims.not_before ≡ some b → b ≤ℤ (now +ℤ tolerance leeway)
  pub issued_before : (b : ℤ) → claims.issued_at ≡ some b → b ≤ℤ (now +ℤ tolerance leeway)

leeway_tolerance : (l : ℤ) → leeway_of (if ltb_ℤ (pos 0) l then some l else none) ≡ tolerance l
unfolding leeway_of
leeway_tolerance (pos n) = ground arith
leeway_tolerance (negsuc n) = ground arith

module _ {K : Type 0} where
  -- The token's claims are those of the text, and the text is signed by a key that the provider gave for
  -- the kid and the algorithm of the text's header.
  pub record IsKeyed (jwt : Jwt K) (v : Verifier K) (raw : Text) (t : VerifiedToken) : Type 0 where
    pub provider : KeyProvider K
    pub header : TokenHeader
    pub kid : Text
    pub key : K
    pub configured : v.provider ≡ some provider
    pub claims_read : jwt.read_claims raw ≡ some t.claims
    pub header_read : jwt.read_header raw ≡ some header
    pub named : header.kid ≡ some kid
    pub has_kid : trim_space kid ≢ []
    pub provided : provider kid header.alg ≡ found key
    pub signed : jwt.signature_valid raw key ≡ true
    pub allowed : Has header.alg (effective_algs v)

  options_tolerance : (v : Verifier K) → leeway_of (parser_options v).leeway ≡ tolerance v.leeway
  unfolding parser_options leeway_of
  options_tolerance v = leeway_tolerance v.leeway

  key_func_found :
      (provider : KeyProvider K) (h : TokenHeader) (k : K)
      → key_func provider h ≡ found k
      → (kid : Text) × (h.kid ≡ some kid) × (trim_space kid ≢ []) × (provider kid h.alg ≡ found k)
  unfolding key_func is_nil trim_space
  key_func_found provider h k e = elim (Option-cases h.kid) [
    | inl n ↦ absurd (ground arith)
    | inr (kid, s) ↦ (kid, s, ground arith, ground arith)
  ]

  module _ (jwt : Jwt K) (parse : ParserOptions → Text → (TokenHeader → KeyResult K) → Parsed) where
    parser-IsCurrent :
        IsParser jwt parse
        → (v : Verifier K) (raw : Text) (keys : TokenHeader → KeyResult K) (c : Claims)
        → parse (parser_options v) raw keys ≡ parsed true c
        → IsCurrent jwt.now v.leeway c
    unfolding parser_options
    parser-IsCurrent law v raw keys c e =
        let o = parser_options v in
        let (x, is) = law.has_end o raw keys c e refl in
        let same = options_tolerance v in
        record {
          expires = x;
          expires_is = is;
          not_over = subst (λ l. jwt.now <ℤ (x +ℤ l)) same (law.not_over o raw keys c x e is);
          begun = λ b k. subst (λ l. b ≤ℤ (jwt.now +ℤ l)) same (law.begun o raw keys c b e k);
          issued_before = λ b k.
              subst (λ l. b ≤ℤ (jwt.now +ℤ l)) same (law.issued_before o raw keys c b e refl k);
        }

    verify-IsChecked :
        (v : Verifier K) (raw : Text) (t : VerifiedToken)
        → verify parse (some v) raw ≡ verified t
        → (p : KeyProvider K) × (v.provider ≡ some p)
          × IsChecked v.require_use raw (parse (parser_options v) raw (key_func p)) t
    unfolding verify
    verify-IsChecked v raw t e = elim (Bool-cases (is_nil (trim_space raw))) [
      | inl k ↦ absurd (ground arith)
      | inr k ↦ elim (Option-cases v.provider) [
        | inl f ↦ absurd (ground arith)
        | inr (p, f) ↦ (p, f, check_claims-IsChecked v.require_use raw _ t (rw (k, f, verify) at e))
      ]
    ]

    -- If the JWT library keeps what it documents, a verified token carries the text that was given, a
    -- subject and a client id, and the use, the issuer and the audience that the verifier asks for, if
    -- any. Its claims are those of the text, whose signature fits a key that the verifier's provider gave
    -- for the text's kid, which is not blank, and the text's algorithm, which the verifier allows. And at
    -- the time of the check the claims have an expiry, which is to come, and neither begin nor were
    -- issued in the future, but for the verifier's leeway, where it is positive.
    pub verify_sound :
        IsParser jwt parse
        → (v : Verifier K) (raw : Text) (t : VerifiedToken) → verify parse (some v) raw ≡ verified t
        → IsTrusted v.issuer v.audience v.require_use raw t
          × IsKeyed jwt v raw t
          × IsCurrent jwt.now v.leeway t.claims
    unfolding parser_options
    verify_sound law v raw t e =
        let (p, f, c) = verify-IsChecked v raw t e in
        let (h, k, read, used, signed, allowed) =
          law.key_used (parser_options v) raw (key_func p) t.claims c.was_valid in
        let (kid, named, has_kid, provided) = key_func_found p h k used in
        (
          record {
            raw_kept = c.raw_kept;
            use_matches = c.use_matches;
            has_subject = c.has_subject;
            has_client = c.has_client;
            issuer_matches = elim (given-some v.issuer) [
              | inl n ↦ inl n
              | inr (ne, g) ↦ inr (
                  law.issuer_checked (parser_options v) raw (key_func p) t.claims v.issuer
                    c.was_valid g ne)
            ];
            audience_matches = elim (given-some v.audience) [
              | inl n ↦ inl n
              | inr (ne, g) ↦ inr (
                  law.audience_checked (parser_options v) raw (key_func p) t.claims v.audience
                    c.was_valid g ne)
            ];
          },
          record {
            provider = p;
            header = h;
            kid = kid;
            key = k;
            configured = f;
            claims_read = law.claims_read (parser_options v) raw (key_func p) t.claims c.was_valid;
            header_read = read;
            named = named;
            signed = signed;
            has_kid = has_kid;
            provided = provided;
            allowed = allowed;
          },
          parser-IsCurrent law v raw (key_func p) t.claims c.was_valid,
        )
