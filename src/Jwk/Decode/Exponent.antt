-- ===== src/Jwk/Decode/Exponent.antt =====
-- The loop over the exponent's bytes does not overflow, and what exponents are accepted.
use native.Mathlib.Nat.{pow-suc, mul-le-mul_right}
use orionis.Base.{
  ℕ, zero, suc, ◌+◌, ◌-◌, ◌*◌, ◌%◌, ◌^◌, ◌≤◌, ◌<◌, ◌≡◌, ◌↔◌, refl, ap, ◌∙◌, some, List, [], ◌∷◌,
  arith, length, All,
}
use orionis.Jwk.Decode.{set_bytes, exponent_loop, rsa_exponent}

abbrev IsByte : ℕ → Type 0
IsByte b = b < 256

le-set_bytes : (acc : ℕ) (bytes : List ℕ) → acc ≤ set_bytes acc bytes
unfolding set_bytes
le-set_bytes acc [] = omega arith
le-set_bytes acc (b ∷ bytes) = omega (arith, le-set_bytes (acc * 256 + b) bytes)

-- While the true value fits, no round wraps around.
loop-set_bytes :
    (acc : ℕ) (bytes : List ℕ)
    → set_bytes acc bytes < 2 ^ 64
    → exponent_loop acc bytes ≡ set_bytes acc bytes
unfolding set_bytes exponent_loop
loop-set_bytes acc [] h = refl
loop-set_bytes acc (b ∷ bytes) h =
    let small : (acc * 2 ^ 8 + b) % 2 ^ 64 ≡ acc * 256 + b =
      omega (arith, le-set_bytes (acc * 256 + b) bytes) in
    ap (λ k. exponent_loop k bytes) small ∙ loop-set_bytes (acc * 256 + b) bytes h

pow_pos : (n : ℕ) → 0 < 256 ^ n
pow_pos zero = omega arith
pow_pos (suc n) = omega (arith, pow-suc 256 n, pow_pos n)

set_bytes-lt :
    (n acc : ℕ) (bytes : List ℕ)
    → All IsByte bytes
    → length bytes ≤ n
    → set_bytes acc bytes < (acc + 1) * 256 ^ n
unfolding set_bytes
set_bytes-lt n acc [] h l = grind (arith, pow_pos n)
set_bytes-lt zero acc (b ∷ bytes) h l = absurd (omega arith)
set_bytes-lt (suc n) acc (b ∷ bytes) (hb, h) l =
    let ih = set_bytes-lt n (acc * 256 + b) bytes h (omega arith) in
    let grown : (acc * 256 + b + 1) * 256 ^ n ≤ ((acc + 1) * 256) * 256 ^ n =
      mul-le-mul_right (256 ^ n) (omega arith) in
    let r : set_bytes (acc * 256 + b) bytes < (acc + 1) * (256 ^ n * 256) =
      omega (arith, ih, grown) in
    rw (pow-suc 256 n) r

loop_exact :
    (bytes : List ℕ)
    → All IsByte bytes
    → length bytes ≤ 8
    → exponent_loop 0 bytes ≡ set_bytes 0 bytes
loop_exact bytes h l = loop-set_bytes 0 bytes (omega (arith, set_bytes-lt 8 0 bytes h l))

-- The exponent of a key is accepted exactly when it has at most eight bytes and their value, with no
-- wrap-around, is odd and from 3 to the greatest int.
pub rsa_exponent_iff :
    (bytes : List ℕ) (e : ℕ)
    → All (λ b. b < 256) bytes
    → (rsa_exponent bytes ≡ some e)
      ↔ ((length bytes ≤ 8) × (e ≡ set_bytes 0 bytes) × (3 ≤ e) × (e ≤ 2 ^ 63 - 1) × (e % 2 ≡ 1))
unfolding rsa_exponent
rsa_exponent_iff bytes e h = (to, from)
  where
    to :
        rsa_exponent bytes ≡ some e
        → (length bytes ≤ 8) × (e ≡ set_bytes 0 bytes) × (3 ≤ e) × (e ≤ 2 ^ 63 - 1) × (e % 2 ≡ 1)
    to k = ground (arith, loop_exact bytes h)

    from :
        (length bytes ≤ 8) × (e ≡ set_bytes 0 bytes) × (3 ≤ e) × (e ≤ 2 ^ 63 - 1) × (e % 2 ≡ 1)
        → rsa_exponent bytes ≡ some e
    from k = ground (arith, loop_exact bytes h)
