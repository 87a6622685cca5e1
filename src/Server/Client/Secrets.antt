-- ===== src/Server/Client/Secrets.antt =====
-- `VerifySecret`: which secrets open a client.
use orionis.Base.{
  ◌≡◌, ◌≢◌, ◌↔◌, ◌⊎◌, inl, inr, refl, sym, ap, true, Option, none, some, List, [], ◌∷◌, arith,
  Bool-cases, Any, Any-append, ℕ, is_nil, is_nil-false, nil_of_is_nil,
}
use orionis.Text.{Text, text_eq, trim_space}
use orionis.Text.Order.{text_eq_iff}
use orionis.Server.Client.Digests.{IsDigest, decode_digest_iff}
use orionis.Server.Client.{
  Client, add_secret, decode_digest, verify_plain, digest_matches, verify_digest, verify_secret,
}

module _ (sum256 : Text → List ℕ) where
  -- A stored secret has the digest of the given one.
  abbrev pub IsStored : Text → List Text → Type 0
  IsStored secret = Any (λ plain. sum256 secret ≡ sum256 plain)

  -- A stored text is the digest of the given secret in hexadecimal, but for space around it.
  abbrev pub IsDigested : Text → List Text → Type 0
  IsDigested secret = Any (λ hash. IsDigest (sum256 secret) (trim_space hash))

  IsStored-of_verify : (s : Text) (ps : List Text) → verify_plain sum256 s ps ≡ true → IsStored s ps
  unfolding verify_plain
  IsStored-of_verify s [] e = absurd (ground arith)
  IsStored-of_verify s (p ∷ ps) e = elim (Bool-cases (text_eq (sum256 s) (sum256 p))) [
    | inl k ↦ inl ((text_eq_iff (sum256 s) (sum256 p)).0 k)
    | inr k ↦ inr (IsStored-of_verify s ps (ground arith))
  ]

  verify_of_stored : (s : Text) (ps : List Text) → IsStored s ps → verify_plain sum256 s ps ≡ true
  unfolding verify_plain
  verify_of_stored s [] h = absurd h
  verify_of_stored s (p ∷ ps) (inl e) = rw ((text_eq_iff (sum256 s) (sum256 p)).1 e)
  verify_of_stored s (p ∷ ps) (inr h) = ground (arith, verify_of_stored s ps h)

  digest_matches_iff :
      (s : Text) (d : Option (List ℕ)) → (digest_matches sum256 s d ≡ true) ↔ (d ≡ some (sum256 s))
  unfolding digest_matches
  digest_matches_iff s none = ((λ e. absurd (ground arith)), (λ e. absurd (ground arith)))
  digest_matches_iff s (some d) =
      (λ e. ap some (sym ((text_eq_iff (sum256 s) d).0 e)), λ e. (text_eq_iff (sum256 s) d).1 (cc))

  IsDigested-of_verify :
      (s : Text) (hs : List Text) → verify_digest sum256 s hs ≡ true → IsDigested s hs
  unfolding verify_digest
  IsDigested-of_verify s [] e = absurd (ground arith)
  IsDigested-of_verify s (h ∷ hs) e =
      elim (Bool-cases (digest_matches sum256 s (decode_digest (trim_space h)))) [
        | inl k ↦
            inl ((decode_digest_iff (trim_space h) (sum256 s)).0 ((digest_matches_iff s _).0 k))
        | inr k ↦ inr (IsDigested-of_verify s hs (ground arith))
      ]

  verify_of_digested :
      (s : Text) (hs : List Text) → IsDigested s hs → verify_digest sum256 s hs ≡ true
  unfolding verify_digest
  verify_of_digested s [] k = absurd k
  verify_of_digested s (h ∷ hs) (inl e) =
      rw ((digest_matches_iff s _).1 ((decode_digest_iff (trim_space h) (sum256 s)).1 e))
  verify_of_digested s (h ∷ hs) (inr k) = ground (arith, verify_of_digested s hs k)

  -- `VerifySecret` accepts exactly the secrets that are not empty and whose SHA-256 digest is that of a
  -- stored secret, or has 32 bytes and is stored itself in hexadecimal, with capital digits or small ones
  -- and space around it or not.
  pub verify_secret_iff :
      (c : Client) (s : Text)
      → (verify_secret sum256 c s ≡ true)
        ↔ ((s ≢ []) × (IsStored s c.secrets ⊎ IsDigested s c.secret_sha256_hex))
  unfolding verify_secret
  verify_secret_iff c s = elim (Bool-cases (is_nil s)) [
    | inl k ↦ (λ e. absurd (ground arith), λ h. absurd (h.0 (nil_of_is_nil s k)))
    | inr k ↦ elim (Bool-cases (verify_plain sum256 s c.secrets)) [
      | inl p ↦
          rw (k, p) ((λ e. (is_nil-false s k, inl (IsStored-of_verify s c.secrets p))), (λ h. refl))
      | inr p ↦
          rw (k, p)
            (
              λ e. (is_nil-false s k, inr (IsDigested-of_verify s c.secret_sha256_hex e)),
              λ h. elim h.1 [
                | inl m ↦ absurd (ground (arith, verify_of_stored s c.secrets m))
                | inr m ↦ verify_of_digested s c.secret_sha256_hex m
              ],
            )
    ]
  ]

  -- A secret that is added to a client opens it, unless it is empty.
  pub verify-add_secret :
      (c : Client) (s : Text) → s ≢ [] → verify_secret sum256 (add_secret c s) s ≡ true
  unfolding add_secret is_nil
  verify-add_secret c [] n = absurd (n refl)
  verify-add_secret c (d ∷ s) n = (verify_secret_iff (add_secret c (d ∷ s)) (d ∷ s)).1 (
    n,
    inl (Any-append (λ p. sum256 (d ∷ s) ≡ sum256 p) c.secrets ((d ∷ s) ∷ []) (inr (inl refl))),
  )
