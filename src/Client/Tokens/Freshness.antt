-- ===== src/Client/Tokens/Freshness.antt =====
-- A token is used only before it expires.
use orionis.Base.{
  ℕ, ◌+◌, ◌-◌, ◌*◌, ◌^◌, ◌≡◌, ◌↔◌, ap, true, arith, ◌⊎◌, inl, inr, subst, Bool-cases,
}
use orionis.Base.Int.{
  ℤ, pos, negsuc, neg_part, pos_part, ◌+ℤ◌, ◌-ℤ◌, ◌≤ℤ◌, ◌<ℤ◌, ltb_ℤ, leb_ℤ, int_laws, +ℤ_parts,
  -ℤ_parts,
}
use orionis.Base.Time.{seconds, saturate, in_seconds}
use orionis.Text.Order.{text_eq_iff}
use orionis.Client.Tokens.{CachedToken, TokenCacheKey, same_key, effective_skew, fresh_at}

pub same_key_iff : (a b : TokenCacheKey) → (same_key a b ≡ true) ↔ (a ≡ b)
unfolding same_key
same_key_iff a b = ground (arith, text_eq_iff a.audience b.audience, text_eq_iff a.scope b.scope)

-- A token that was received at time `t`, valid for `e` seconds.
pub record IsReceived (token : CachedToken) (t e : ℤ) : Type 0 where
  pub lifetime : token.response.expires_in ≡ e
  pub expiry : token.expires_at ≡ t +ℤ seconds e

saturate_pos : (d : ℤ) → pos 0 <ℤ saturate d → pos 0 <ℤ d
saturate_pos d h = ground arith

-- A wrapped duration of a positive number of seconds is at most the true one.
seconds-le : (n : ℕ) → seconds (pos n) ≤ℤ pos (n * 1_000_000_000)
seconds-le n = ground arith

lt_of_ltb : (a b : ℤ) → ltb_ℤ a b ≡ true → a <ℤ b
lt_of_ltb a b h = ground arith

-- The skew in effect is not negative, or the lifetime is negative and at most the skew.
skew-cases :
    (skew ttl : ℤ)
    → pos 0 ≤ℤ skew
    → (pos 0 ≤ℤ effective_skew skew ttl) ⊎ ((ttl <ℤ pos 0) × (ttl ≤ℤ effective_skew skew ttl))
skew-cases skew (pos n) h = inl (ground arith)
skew-cases skew (negsuc n) h = inr (omega arith, ground arith)

saturate_above : (a d : ℤ) → negsuc (2 ^ 63 - 1) ≤ℤ a → a <ℤ saturate d → a <ℤ d
saturate_above a d h k = ground arith

seconds-range : (n : ℕ) → negsuc (2 ^ 63 - 1) ≤ℤ seconds (pos n)
seconds-range n = ground arith

le-lt-trans : (a b c : ℤ) → a ≤ℤ b → b <ℤ c → a <ℤ c
le-lt-trans a b c h k = omega arith

left_over :
    (skew ttl t now d : ℤ)
    → pos 0 ≤ℤ skew
    → negsuc (2 ^ 63 - 1) ≤ℤ ttl
    → t ≤ℤ now
    → d ≡ (t +ℤ ttl) -ℤ now
    → effective_skew skew ttl <ℤ saturate d
    → now <ℤ (t +ℤ ttl)
left_over skew ttl t now d s r h k e =
    let parts = -ℤ_parts (t +ℤ ttl) now in
    let here : pos_part d + neg_part (t +ℤ ttl) + pos_part now
        ≡ neg_part d + pos_part (t +ℤ ttl) + neg_part now =
      rw k parts in
    elim (skew-cases skew ttl s) [
      | inl p ↦
          let some_left =
            saturate_pos d (le-lt-trans (pos 0) (effective_skew skew ttl) (saturate d) p e) in
          omega (arith, here, some_left)
      | inr (n, p) ↦
          let above =
            saturate_above ttl d r (le-lt-trans ttl (effective_skew skew ttl) (saturate d) p e) in
          omega (arith, here, above, n, +ℤ_parts t ttl)
    ]

fresh_left :
    (skew : ℤ) (token : CachedToken) (now e : ℤ)
    → token.response.expires_in ≡ e
    → fresh_at skew token now ≡ true
    → ltb_ℤ (effective_skew skew (seconds e)) (saturate (token.expires_at -ℤ now)) ≡ true
unfolding fresh_at
fresh_left skew token now e l f = elim (Bool-cases (leb_ℤ token.response.expires_in (pos 0))) [
  | inl k ↦ absurd (ground arith)
  | inr k ↦
      subst
        (λ x. ltb_ℤ (effective_skew skew (seconds x)) (saturate (token.expires_at -ℤ now)) ≡ true) l
        (rw (fresh_at, k) at f)
]

-- A token that is used, at a time not before it was received, has not expired: the time is before the
-- one of its receipt and the whole of its lifetime, also where the lifetime in nanoseconds does not
-- fit an int64.
pub fresh_at_unexpired :
    (skew : ℤ) (token : CachedToken) (t now e : ℤ)
    → pos 0 ≤ℤ skew
    → IsReceived token t e
    → t ≤ℤ now
    → fresh_at skew token now ≡ true
    → now <ℤ (t +ℤ in_seconds e)
unfolding fresh_at
fresh_at_unexpired skew token t now (negsuc n) s r h f = absurd (ground (arith, r.lifetime))
fresh_at_unexpired skew token t now (pos n) s r h f =
    let enough =
      lt_of_ltb (effective_skew skew (seconds (pos n))) (saturate (token.expires_at -ℤ now))
        (fresh_left skew token now (pos n) r.lifetime f) in
    let left =
      left_over skew (seconds (pos n)) t now (token.expires_at -ℤ now) s (seconds-range n) h
        (ap (λ x. x -ℤ now) r.expiry) enough in
    omega (int_laws, left, seconds-le n)
