-- ===== src/Jwk/Ed25519/Keeping.antt =====
-- What `LoadOrCreateEd25519Signer` leaves on the disk, and what it reads there the next time.
use orionis.Base.{
  ℕ, ◌≡◌, inl, inr, refl, sym, ap, ◌∙◌, false, Option, some, List, arith, Bool-cases, is_nil,
  length,
}
use orionis.Text.{Text, codes, trim_space}
use orionis.Jwk.Ed25519.{
  ReadResult, read, not_exist, read_error, Files, Crypto, Ed25519Signer, signer_ok, default_kid,
  generate_ed25519_signer, load_ed25519_signer_pem, signer_from_pkcs8, signer_of_pkcs8, from_block,
  load_or, load_or_create,
}
use orionis.Jwk.Ed25519.Creating.{
  IsCrypto, IsFiles, IsGenerated, IsWhole, IsWhole-size, trim_space-default_kid, default_kid_idem,
  generated_signer, block_signer, created_signer,
}

-- What is known of a signer that was loaded or created.
pub record IsSigner (crypto : Crypto) (kid : Text) (s : Ed25519Signer) : Type 0 where
  pub kid_is : s.kid ≡ default_kid kid
  pub whole : IsWhole crypto s.private_key
  pub size : length s.private_key ≡ 64

module _ (crypto : Crypto) (lawful : IsCrypto crypto) where
  pub generated-IsSigner :
      (generated : Option (List ℕ)) (kid : Text) (s : Ed25519Signer)
      → IsGenerated crypto generated
      → generate_ed25519_signer generated (default_kid kid) ≡ signer_ok s
      → IsSigner crypto kid s
  generated-IsSigner generated kid s g e =
      let (k, n) = generated_signer generated (default_kid kid) s e in
      record {
        kid_is = n ∙ default_kid_idem kid;
        whole = g s.private_key k;
        size = IsWhole-size crypto s.private_key lawful (g s.private_key k);
      }

  pub block-IsSigner :
      (block : Option (List ℕ)) (kid : Text) (s : Ed25519Signer)
      → from_block crypto block (default_kid kid) ≡ signer_ok s
      → IsSigner crypto kid s
  block-IsSigner block kid s e =
      let (der, b, p, n) = block_signer crypto block (default_kid kid) s e in
      record {
        kid_is = n ∙ trim_space-default_kid kid;
        whole = lawful.parsed_whole der s.private_key p;
        size = IsWhole-size crypto s.private_key lawful (lawful.parsed_whole der s.private_key p);
      }

  block-stored :
      (kid : Text) (der : List ℕ) (s : Ed25519Signer)
      → IsSigner crypto kid s
      → crypto.marshal_pkcs8 s.private_key ≡ some der
      → from_block crypto
          (crypto.decode_pem (crypto.encode_to_memory (codes "PRIVATE KEY") der))
          (default_kid kid)
        ≡ signer_ok s
  unfolding from_block signer_from_pkcs8 signer_of_pkcs8
  block-stored kid der s i m =
      rw
        (
          lawful.decode-encode der,
          lawful.parse-marshal s.private_key der i.whole m,
          trim_space-default_kid kid,
          i.kid_is,
        )
        refl

  module _ (F : Files) where
    load_or-IsSigner :
        (generated : Option (List ℕ)) (disk : F.State) (path kid : Text) (r : ReadResult)
        (s : Ed25519Signer) (d' : F.State)
        → IsGenerated crypto generated
        → load_or crypto F generated disk path (default_kid kid) r ≡ (signer_ok s, d')
        → IsSigner crypto kid s
    unfolding load_or
    load_or-IsSigner generated disk path kid (read raw) s d' g e =
        block-IsSigner (crypto.decode_pem raw) kid s (ap (λ p. p.0) e)
    load_or-IsSigner generated disk path kid read_error s d' g e = absurd (ground arith)
    load_or-IsSigner generated disk path kid not_exist s d' g e =
        generated-IsSigner generated kid s g
          (created_signer crypto F disk path (generate_ed25519_signer generated (default_kid kid)) s
            d' e).0

    -- Each signer that `LoadOrCreateEd25519Signer` returns has the trimmed key id that was asked for, or
    -- the default one for a blank, and a private key of the right size.
    pub load_or_create-IsSigner :
        (generated : Option (List ℕ)) (disk : F.State) (path kid : Text) (s : Ed25519Signer)
        (d' : F.State)
        → IsGenerated crypto generated
        → load_or_create crypto F generated disk path kid ≡ (signer_ok s, d')
        → IsSigner crypto kid s
    unfolding load_or_create
    load_or_create-IsSigner generated disk path kid s d' g e =
        elim (Bool-cases (is_nil (trim_space path))) [
          | inl p ↦
              generated-IsSigner generated kid s g (ap (λ x. x.0) (rw (p, load_or_create) at e))
          | inr p ↦
              load_or-IsSigner generated disk (trim_space path) kid
                (F.read_file disk (trim_space path)) s d' g (rw (p, load_or_create) at e)
        ]

    module _ (disks : IsFiles F) where
      load_or-stored :
          (generated : Option (List ℕ)) (disk : F.State) (path kid : Text) (r : ReadResult)
          (s : Ed25519Signer) (d' : F.State)
          → IsGenerated crypto generated
          → F.read_file disk path ≡ r
          → load_or crypto F generated disk path (default_kid kid) r ≡ (signer_ok s, d')
          → (raw : List ℕ) × (F.read_file d' path ≡ read raw)
            × (load_ed25519_signer_pem crypto raw kid ≡ signer_ok s)
      unfolding load_or load_ed25519_signer_pem
      load_or-stored generated disk path kid (read raw) s d' g f e =
          (raw, ap (λ d. F.read_file d path) (sym (ap (λ x. x.1) e)) ∙ f, ap (λ x. x.0) e)
      load_or-stored generated disk path kid read_error s d' g f e = absurd (ground arith)
      load_or-stored generated disk path kid not_exist s d' g f e =
          let (r, (der, m, w)) =
            created_signer crypto F disk path (generate_ed25519_signer generated (default_kid kid))
              s d' e in
          (
            crypto.encode_to_memory (codes "PRIVATE KEY") der,
            disks.read-write disk d' path _ f w,
            block-stored kid der s (generated-IsSigner generated kid s g r) m,
          )

      -- The file that a signer was loaded from or created in.
      pub load_or_create-stored :
          (generated : Option (List ℕ)) (disk : F.State) (path kid : Text) (s : Ed25519Signer)
          (d' : F.State)
          → IsGenerated crypto generated
          → is_nil (trim_space path) ≡ false
          → load_or_create crypto F generated disk path kid ≡ (signer_ok s, d')
          → (raw : List ℕ) × (F.read_file d' (trim_space path) ≡ read raw)
            × (load_ed25519_signer_pem crypto raw kid ≡ signer_ok s)
      unfolding load_or_create
      load_or_create-stored generated disk path kid s d' g p e =
          load_or-stored generated disk (trim_space path) kid (F.read_file disk (trim_space path)) s
            d' g refl (rw (p, load_or_create) at e)
