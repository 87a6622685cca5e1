-- ===== src/Jwk/Ed25519/Publishing.antt =====
-- What the provider of a signer's own key answers.
use orionis.Base.{
  ℕ, ◌≡◌, refl, sym, ap, subst, ◌∙◌, Has, All_at, true, false, not, ◌&&◌, some, List, [], ◌∷◌,
  arith, is_nil, length,
}
use orionis.Text.{Text, text_eq, trim_space}
use orionis.Text.Order.{text_eq_refl}
use orionis.Text.Dict.{lookup}
use orionis.Jwk.Key.{
  Codec, Key, PublicKey, DecodedKey, ed25519, alg_ed_dsa, use_sig, new_ed25519_key, for_algorithm,
}
use orionis.Jwk.Decode.{decode_public_key, validate_declared_algorithm}
use orionis.Jwk.Set.{decode_set, decoded, decode_failed}
use orionis.Jwk.Set.Decoding.{IsHeld, decode_set-one, decode_set_sound}
use orionis.Jwk.Static.{
  StaticProvider, provider, static_builder, add_keys, build, new_static_provider, static_key,
  answer, answer_for,
}
use orionis.Jwk.Ed25519.{Crypto, Ed25519Signer, default_kid, public_jwk, static_provider}
use orionis.Jwk.Ed25519.Creating.{IsCrypto, trim_space-default_kid, default_kid-given}
use orionis.Jwk.Ed25519.Keeping.{IsSigner}

-- base64: what was encoded is decoded, and only the empty text stands for no bytes.
pub record IsBase64 (codec : Codec) : Type 0 where
  pub decode-encode : (raw : List ℕ) → codec.decode_string (codec.encode_to_string raw) ≡ some raw
  pub encode_given :
      (raw : List ℕ) → is_nil raw ≡ false → is_nil (codec.encode_to_string raw) ≡ false

given_of_size : (raw : List ℕ) → length raw ≡ 32 → is_nil raw ≡ false
unfolding is_nil
given_of_size [] e = absurd (ground arith)
given_of_size (b ∷ raw) e = refl

provided :
    (codec : Codec) (k : Key) (keys : List (Text × DecodedKey))
    → decode_set codec (k ∷ []) ≡ decoded keys
    → build codec (static_builder (k ∷ [])) ≡ provider (record { keys = keys })
unfolding build static_builder add_keys new_static_provider
provided codec k keys e = ground (arith, e)

answered :
    (raw : List ℕ)
    → answer_for (some (record { public_key = ed25519 raw; declared_alg = alg_ed_dsa })) alg_ed_dsa
      ≡ answer (ed25519 raw)
unfolding answer_for for_algorithm text_eq is_nil
answered raw = refl

some_key : {a b : PublicKey} → some a ≡ some b → a ≡ b
some_key e = ground arith

new_ed25519_key-kid :
    (codec : Codec) (kid : Text) (raw : List ℕ)
    → (new_ed25519_key codec kid raw).kid ≡ trim_space kid
unfolding new_ed25519_key
new_ed25519_key-kid codec kid raw = refl

new_ed25519_key-alg :
    (codec : Codec) (kid : Text) (raw : List ℕ) → (new_ed25519_key codec kid raw).alg ≡ alg_ed_dsa
unfolding new_ed25519_key
new_ed25519_key-alg codec kid raw = refl

module _ (codec : Codec) (base64 : IsBase64 codec) where
  decode-new_ed25519_key :
      (kid : Text) (raw : List ℕ)
      → length raw ≡ 32
      → decode_public_key codec (new_ed25519_key codec kid raw) ≡ some (ed25519 raw)
  unfolding decode_public_key new_ed25519_key text_eq
  decode-new_ed25519_key kid raw e =
      let g = given_of_size raw e in
      let h = base64.encode_given raw g in rw (h, base64.decode-encode raw, g, e) refl

  new_ed25519_key-declared :
      (kid : Text) (raw : List ℕ)
      → validate_declared_algorithm (new_ed25519_key codec kid raw) ≡ true
  unfolding new_ed25519_key validate_declared_algorithm text_eq is_nil
  new_ed25519_key-declared kid raw = refl

  new_ed25519_key-for_signatures :
      (kid : Text) (raw : List ℕ)
      → (not (is_nil (new_ed25519_key codec kid raw).use_)
          && not (text_eq (new_ed25519_key codec kid raw).use_ use_sig))
        ≡ false
  unfolding new_ed25519_key text_eq is_nil
  new_ed25519_key-for_signatures kid raw = refl

  -- The set that holds the key of a signer alone.
  decode_set-new_ed25519_key :
      (kid : Text) (raw : List ℕ)
      → is_nil (trim_space (trim_space kid)) ≡ false
      → length raw ≡ 32
      → decode_set codec (new_ed25519_key codec kid raw ∷ [])
        ≡ decoded
            ((trim_space kid, record { public_key = ed25519 raw; declared_alg = alg_ed_dsa }) ∷ [])
  unfolding new_ed25519_key
  decode_set-new_ed25519_key kid raw k e =
      decode_set-one codec (new_ed25519_key codec kid raw) (ed25519 raw) k
        (new_ed25519_key-for_signatures kid raw) (new_ed25519_key-declared kid raw)
        (decode-new_ed25519_key kid raw e)

  module _ (crypto : Crypto) (lawful : IsCrypto crypto) where
    public_jwk-new :
        (s : Ed25519Signer)
        → length s.private_key ≡ 64
        → public_jwk crypto codec (some s)
          ≡ new_ed25519_key codec s.kid (crypto.public_key s.private_key)
    unfolding public_jwk
    public_jwk-new s e = ground arith

    -- The provider of a signer that was loaded or created answers for its key id, which is the one that
    -- was asked for or the default one, with the public half of its private key.
    pub static_provider-answers :
        (kid : Text) (s : Ed25519Signer)
        → IsSigner crypto kid s
        → (p : StaticProvider) × (static_provider crypto codec (some s) ≡ some (provider p))
          × (static_key p (default_kid kid) alg_ed_dsa
              ≡ answer (ed25519 (crypto.public_key s.private_key)))
    unfolding static_provider build static_builder add_keys new_static_provider static_key lookup
    static_provider-answers kid s i =
        let raw = crypto.public_key s.private_key in
        let t = ap trim_space i.kid_is ∙ trim_space-default_kid kid in
        let d =
          ap (λ x. decode_set codec (x ∷ [])) (public_jwk-new s i.size)
          ∙ decode_set-new_ed25519_key s.kid raw
              (ap (λ x. is_nil (trim_space x)) t
                ∙ ap is_nil (trim_space-default_kid kid)
                ∙ default_kid-given kid)
              (lawful.public_size s.private_key i.size) in
        (
          record {
            keys =
                (trim_space s.kid, record { public_key = ed25519 raw; declared_alg = alg_ed_dsa })
                ∷ [];
          },
          ap (λ x. some x) (provided codec (public_jwk crypto codec (some s)) _ d),
          rw (t, text_eq_refl (default_kid kid)) (answered raw),
        )

    held-answers :
        (kid : Text) (s : Ed25519Signer) (m : List (Text × DecodedKey))
        → IsSigner crypto kid s
        → IsHeld codec m (public_jwk crypto codec (some s))
        → static_key (record { keys = m }) (default_kid kid) alg_ed_dsa
          ≡ answer (ed25519 (crypto.public_key s.private_key))
    unfolding static_key
    held-answers kid s m i held =
        let raw = crypto.public_key s.private_key in
        let k = new_ed25519_key codec s.kid raw in
        let (d, found, good) = subst (IsHeld codec m) (public_jwk-new s i.size) held in
        let key : ed25519 raw ≡ d.public_key = some_key (
          sym (decode-new_ed25519_key s.kid raw (lawful.public_size s.private_key i.size))
          ∙ good.key_is) in
        let same : record { public_key = ed25519 raw; declared_alg = alg_ed_dsa } ≡ d =
          (let alg = good.alg_is ∙ new_ed25519_key-alg codec s.kid raw in cc) in
        ap (λ x. answer_for (lookup x m) alg_ed_dsa)
          (sym (
            new_ed25519_key-kid codec s.kid raw
            ∙ ap trim_space i.kid_is
            ∙ trim_space-default_kid kid))
        ∙ ap (λ x. answer_for x alg_ed_dsa) (found ∙ ap (λ x. some x) (sym same))
        ∙ answered raw

    -- The provider of a set of keys that has the key of a signer, that was loaded or created, answers
    -- for its key id with the public half of its private key.
    pub new_static_provider-answers :
        (kid : Text) (s : Ed25519Signer) (ks : List Key) (p : StaticProvider)
        → IsSigner crypto kid s
        → Has (public_jwk crypto codec (some s)) ks
        → new_static_provider codec ks ≡ provider p
        → static_key p (default_kid kid) alg_ed_dsa
          ≡ answer (ed25519 (crypto.public_key s.private_key))
    unfolding new_static_provider
    new_static_provider-answers kid s ks p i h e =
        (elim (decode_set codec ks)
            as (λ r.
              decode_set codec ks ≡ r
              → static_key p (default_kid kid) alg_ed_dsa
                ≡ answer (ed25519 (crypto.public_key s.private_key))) [
                  | decode_failed x ↦
                      λ f. let g = (rw (f, new_static_provider) at e) in absurd (ground arith)
                  | decoded m ↦ λ f.
                      let g = (rw (f, new_static_provider) at e) in
                      let same : record { keys = m } ≡ p = ground arith in
                      let held =
                        All_at (IsHeld codec m) ks (public_jwk crypto codec (some s))
                          (decode_set_sound codec ks m f).1 h in
                      subst
                        (λ x.
                          static_key x (default_kid kid) alg_ed_dsa
                          ≡ answer (ed25519 (crypto.public_key s.private_key)))
                        same (held-answers kid s m i held)
                ])
          refl
