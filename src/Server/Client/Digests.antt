-- ===== src/Server/Client/Digests.antt =====
-- `hex.DecodeString` and the size of a digest: which texts are SHA-256 digests in hexadecimal, told digit
-- by digit.
use orionis.Base.{
  ℕ, true, if◌then◌else◌, ◌>>=◌, ◌+◌, ◌-◌, ◌*◌, ◌≤◌, ◌≡◌, ◌↔◌, inl, inr, refl, subst, Option, none,
  some, List, [], ◌∷◌, arith, Bool-cases, Option-cases, leb, ◌&&◌, ◌==◌, length,
}
use orionis.Text.{Text}
use orionis.Server.Client.{hex_digit, hex_decode, decode_digest}

-- The digit `c` stands for `n`.
pub data IsDigit (c n : ℕ) : Type 0 where
  numeral : n ≤ 9 → c ≡ b'0' + n → IsDigit c n
  small : (m : ℕ) → m ≤ 5 → n ≡ 10 + m → c ≡ b'a' + m → IsDigit c n
  capital : (m : ℕ) → m ≤ 5 → n ≡ 10 + m → c ≡ b'A' + m → IsDigit c n

-- The text names each byte by two digits.
abbrev pub IsHexOf : List ℕ → Text → Type 0
IsHexOf [] [] = Unit {0}
IsHexOf [] (c ∷ s) = ⊥
IsHexOf (b ∷ bytes) [] = ⊥
IsHexOf (b ∷ bytes) (c ∷ []) = ⊥
IsHexOf (b ∷ bytes) (c ∷ d ∷ s) =
    (high : ℕ) × (low : ℕ) × IsDigit c high
    × IsDigit d low
    × (b ≡ 16 * high + low)
    × IsHexOf bytes s

-- The text is the digest `d` of 32 bytes in hexadecimal.
abbrev pub IsDigest : List ℕ → Text → Type 0
IsDigest d hash = IsHexOf d hash × (length d ≡ 32)

hex_digit-IsDigit : (c n : ℕ) → hex_digit c ≡ some n → IsDigit c n
unfolding hex_digit
hex_digit-IsDigit c n e = elim (Bool-cases (leb b'0' c && leb c b'9')) [
  | inl k ↦ numeral (ground arith) (ground arith)
  | inr k ↦ elim (Bool-cases (leb b'a' c && leb c b'f')) [
    | inl l ↦ small (c - b'a') (ground arith) (ground arith) (ground arith)
    | inr l ↦ elim (Bool-cases (leb b'A' c && leb c b'F')) [
      | inl m ↦ capital (c - b'A') (ground arith) (ground arith) (ground arith)
      | inr m ↦ absurd (ground arith)
    ]
  ]
]

IsDigit-hex_digit : (c n : ℕ) → IsDigit c n → hex_digit c ≡ some n
unfolding hex_digit
IsDigit-hex_digit c n (numeral k e) = ground arith
IsDigit-hex_digit c n (small m k e f) = ground arith
IsDigit-hex_digit c n (capital m k e f) = ground arith

hex_decode-IsHexOf : (s : Text) (bytes : List ℕ) → hex_decode s ≡ some bytes → IsHexOf bytes s
unfolding hex_decode
hex_decode-IsHexOf [] [] e = tt
hex_decode-IsHexOf [] (b ∷ bytes) e = absurd (ground arith)
hex_decode-IsHexOf (c ∷ []) bytes e = absurd (ground arith)
hex_decode-IsHexOf (c ∷ d ∷ s) bytes e = elim (Option-cases (hex_digit c)) [
  | inl h ↦ absurd (ground arith)
  | inr (high, h) ↦ elim (Option-cases (hex_digit d)) [
    | inl l ↦ absurd (ground arith)
    | inr (low, l) ↦ elim (Option-cases (hex_decode s)) [
      | inl r ↦ absurd (ground arith)
      | inr (rest, r) ↦
          let same : (16 * high + low) ∷ rest ≡ bytes = ground arith in
          subst (λ x. IsHexOf x (c ∷ d ∷ s)) same
            (
              high,
              low,
              hex_digit-IsDigit c high h,
              hex_digit-IsDigit d low l,
              refl,
              hex_decode-IsHexOf s rest r,
            )
    ]
  ]
]

IsHexOf-hex_decode : (s : Text) (bytes : List ℕ) → IsHexOf bytes s → hex_decode s ≡ some bytes
unfolding hex_decode
IsHexOf-hex_decode [] [] h = refl
IsHexOf-hex_decode [] (b ∷ bytes) h = absurd h
IsHexOf-hex_decode (c ∷ []) [] h = absurd h
IsHexOf-hex_decode (c ∷ []) (b ∷ bytes) h = absurd h
IsHexOf-hex_decode (c ∷ d ∷ s) [] h = absurd h
IsHexOf-hex_decode (c ∷ d ∷ s) (b ∷ bytes) (high, low, x, y, e, h) =
    rw (IsDigit-hex_digit c high x, IsDigit-hex_digit d low y, IsHexOf-hex_decode s bytes h, e) refl

some-length : (x d : List ℕ) (n : ℕ) → some x ≡ some d → length x ≡ n → length d ≡ n
some-length x d n e k = subst (λ o. length (elim o [ none ↦ [] | some y ↦ y ]) ≡ n) e k

-- The test of the size, behind the decoder.
sized : (o : Option (List ℕ)) → Option (List ℕ)
sized o = do x ← o; if length x == 32 then some x else none

sized-some : (o : Option (List ℕ)) (d : List ℕ) → sized o ≡ some d → (o ≡ some d) × (length d ≡ 32)
unfolding sized
sized-some none d e = absurd (ground arith)
sized-some (some x) d e = elim (Bool-cases (length x == 32)) [
  | inr k ↦ absurd (ground arith)
  | inl k ↦
      let e' : some x ≡ some d = rw (k, sized) at e in
      let n : length x ≡ 32 = ground arith in (e', some-length x d 32 e' n)
]

size_test : (n : ℕ) → n ≡ 32 → (n == 32) ≡ true
size_test n e = ground arith

-- A stored digest is decoded to `d` exactly when it is `d` in hexadecimal and has 32 bytes.
pub decode_digest_iff : (hash : Text) (d : List ℕ) → (decode_digest hash ≡ some d) ↔ IsDigest d hash
unfolding decode_digest sized
decode_digest_iff hash d = (
  λ e. let (k, n) = sized-some (hex_decode hash) d e in (hex_decode-IsHexOf hash d k, n),
  λ (h, n). rw (IsHexOf-hex_decode hash d h, size_test (length d) n) refl,
)
