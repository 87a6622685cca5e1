-- ===== src/Tests/Verifying.antt =====
-- A verifier whose parser accepts one token.
use mathlib.Core.Path.{subst}
use orionis.Base.{
  ◌≡◌, refl, sym, ap, ◌∙◌, true, ◌&&◌, ◌==◌, some, none, [], ◌∷◌, ℕ, is_nil, if◌then◌else◌, arith,
  Has, Option, Bool,
}
use orionis.Base.Int.{ℤ, pos, ltb_ℤ, leb_ℤ, ◌+ℤ◌, ◌≤ℤ◌, ◌<ℤ◌}
use orionis.Text.{Text, codes, text_eq, trim_space, contains}
use orionis.Text.Order.{text_eq_iff, Has-of_contains}
use orionis.Claims.{Claims}
use orionis.Verifier.{
  KeyResult, found, failed, KeyProvider, Verifier, ParserOptions, TokenHeader, Parsed, parsed,
  rejected, VerifiedToken, verify, IsParser, Jwt, leeway_of,
}
use orionis.Verifier.Soundness.{IsTrusted, IsKeyed, IsCurrent, verify_sound}
use orionis.Tests.Scopes.{billing}

abbrev one_key : KeyProvider ℕ
one_key kid alg = found 7

abbrev header : TokenHeader
header = record { kid = some (codes "k1"); alg = codes "EdDSA" }

-- What the parser knows of each text: the claims of `billing`, signed by the key 7.
abbrev pub jwt : Jwt ℕ
jwt = record {
  read_header = λ raw. some header;
  read_claims = λ raw. some billing;
  signature_valid = λ raw k. k == 7;
  now = pos 500;
}

-- A parser that answers each token with the claims of `billing`, if the options allow.
issuer_ok : Option Text → Bool
issuer_ok none = true
issuer_ok (some i) = text_eq billing.issuer i

audience_ok : Option Text → Bool
audience_ok none = true
audience_ok (some a) = contains billing.audience a

in_time : ℤ → Bool
in_time l = ltb_ℤ (pos 500) (pos 900 +ℤ l) && leb_ℤ (pos 0) (pos 500 +ℤ l)

checked : ParserOptions → Bool
checked o =
    contains o.valid_methods header.alg
    && (issuer_ok o.issuer && (audience_ok o.audience && in_time (leeway_of o.leeway)))

accept : KeyResult ℕ → Bool → Parsed
accept failed b = rejected
accept (found k) b = if k == 7 && b then parsed true billing else rejected

pub parse : ParserOptions → Text → (TokenHeader → KeyResult ℕ) → Parsed
parse o raw keys = accept (keys header) (checked o)

accepted :
    (r : KeyResult ℕ) (b : Bool) (c : Claims)
    → accept r b ≡ parsed true c
    → (k : ℕ) × (r ≡ found k) × ((k == 7) ≡ true) × (b ≡ true) × (billing ≡ c)
unfolding accept
accepted failed b c e = absurd (ground arith)
accepted (found k) b c e = (k, refl, ground arith, ground arith, ground arith)

-- What the options allow.
options_checked :
    (o : ParserOptions)
    → checked o ≡ true
    → (contains o.valid_methods header.alg ≡ true)
      × (issuer_ok o.issuer ≡ true)
      × (audience_ok o.audience ≡ true)
      × (pos 500 <ℤ (pos 900 +ℤ leeway_of o.leeway))
      × (pos 0 ≤ℤ (pos 500 +ℤ leeway_of o.leeway))
unfolding checked in_time
options_checked o e = (ground arith, ground arith, ground arith, ground arith, ground arith)

pub parse-IsParser : IsParser jwt parse
unfolding parse issuer_ok audience_ok
parse-IsParser = record {
  claims_read = λ o raw keys c e. let (k, f, s, n, b) = accepted _ _ _ e in ap some b;
  key_used = λ o raw keys c e.
      let (k, f, s, n, b) = accepted _ _ _ e in
      let (m, i', a, t, u) = options_checked o n in
      (header, k, refl, f, s, Has-of_contains o.valid_methods header.alg m);
  issuer_checked = λ o raw keys c i e h ne.
      let (k, f, s, n, b) = accepted _ _ _ e in
      let (m, i', a, t, u) = options_checked o n in
      ap (λ x. x.issuer) (sym b) ∙ (text_eq_iff billing.issuer i).0 (ap issuer_ok (sym h) ∙ i');
  audience_checked = λ o raw keys c x e h ne.
      let (k, f, s, n, b) = accepted _ _ _ e in
      let (m, i', a, t, u) = options_checked o n in
      subst (λ d. Has x d.audience) b
        (Has-of_contains billing.audience x (ap audience_ok (sym h) ∙ a));
  has_end = λ o raw keys c e h.
      let (k, f, s, n, b) = accepted _ _ _ e in (pos 900, ap (λ x. x.expires_at) (sym b));
  not_over = λ o raw keys c x e h.
      let (k, f, s, n, b) = accepted _ _ _ e in
      let (m, i', a, t, u) = options_checked o n in
      let same : some (pos 900) ≡ some x = ap (λ y. y.expires_at) b ∙ h in
      let at_x : pos 900 ≡ x = ground arith in
      subst (λ y. pos 500 <ℤ (y +ℤ leeway_of o.leeway)) at_x t;
  begun = λ o raw keys c x e h.
      let (k, f, s, n, b) = accepted _ _ _ e in
      let (m, i', a, t, u) = options_checked o n in
      let same : some (pos 0) ≡ some x = ap (λ y. y.not_before) b ∙ h in
      let at_x : pos 0 ≡ x = ground arith in
      subst (λ y. y ≤ℤ (pos 500 +ℤ leeway_of o.leeway)) at_x u;
  issued_before = λ o raw keys c x e g h.
      let (k, f, s, n, b) = accepted _ _ _ e in
      let (m, i', a, t, u) = options_checked o n in
      let same : some (pos 0) ≡ some x = ap (λ y. y.issued_at) b ∙ h in
      let at_x : pos 0 ≡ x = ground arith in
      subst (λ y. y ≤ℤ (pos 500 +ℤ leeway_of o.leeway)) at_x u;
}

-- What a run of the verifier computes with.
unfoldable pub run : Text → Text
unfolding trim_space text_eq contains verify is_nil parse checked in_time ◌+ℤ◌ leeway_of accept
    issuer_ok audience_ok
run s = s

abbrev pub checker : Verifier ℕ
checker = record {
  issuer = codes "https://auth";
  audience = codes "orders";
  provider = some one_key;
  leeway = pos 30;
  valid_algs = codes "EdDSA" ∷ [];
  require_use = codes "access";
}

abbrev pub seen : VerifiedToken
seen = record { raw = codes "abc"; claims = billing }

verify_sound_example :
    IsTrusted checker.issuer checker.audience checker.require_use (codes "abc") seen
    × IsKeyed jwt checker (codes "abc") seen
    × IsCurrent jwt.now checker.leeway billing
unfolding run
verify_sound_example = verify_sound jwt parse parse-IsParser checker (codes "abc") seen refl
