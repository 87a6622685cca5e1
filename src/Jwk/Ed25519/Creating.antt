-- ===== src/Jwk/Ed25519/Creating.antt =====
-- What is relied on of the disk and of the codings of keys, and where a signer comes from.
use orionis.Base.{
  ℕ, ◌≡◌, inl, inr, refl, ap, sym, ◌∙◌, subst, Bool, true, false, Option, none, some, List, arith,
  Bool-cases, is_nil, length,
}
use orionis.Text.{Text, codes, trim_space}
use orionis.Text.Trim.{trim_space_idem}
use orionis.Jwk.Ed25519.{
  read, not_exist, Files, Pkcs8, ed25519_key, other_key, parse_error, Crypto, Ed25519Signer,
  SignerResult, signer_ok, signer_failed, default_kid, generate_ed25519_signer, signer_of_pkcs8,
  signer_from_pkcs8, from_block, written, in_directory, marshaled, create,
}

-- A private key that was made from a seed of 32 bytes. PKCS #8 keeps only the seed, so that it codes
-- these keys and no other.
abbrev pub IsWhole : Crypto → List ℕ → Type 0
IsWhole crypto k = (seed : List ℕ) × (length seed ≡ 32) × (crypto.new_key_from_seed seed ≡ k)

-- The codings of keys: a PEM text of a private key has its block, a key that was made from a seed is
-- parsed again where it was marshaled, and Ed25519 keys have their sizes.
pub record IsCrypto (crypto : Crypto) : Type 0 where
  pub decode-encode :
      (der : List ℕ)
      → crypto.decode_pem (crypto.encode_to_memory (codes "PRIVATE KEY") der) ≡ some der
  pub parse-marshal :
      (k der : List ℕ)
      → IsWhole crypto k
      → crypto.marshal_pkcs8 k ≡ some der
      → crypto.parse_pkcs8 der ≡ ed25519_key k
  pub made_size : (seed : List ℕ) → length seed ≡ 32 → length (crypto.new_key_from_seed seed) ≡ 64
  pub parsed_whole : (der k : List ℕ) → crypto.parse_pkcs8 der ≡ ed25519_key k → IsWhole crypto k
  pub public_size : (k : List ℕ) → length k ≡ 64 → length (crypto.public_key k) ≡ 32

-- The disk: where a path did not exist, the directory of it is made and then it is written, what was
-- written is read, and each other file stays as it was; and a new directory changes no file. Files are
-- plain ones, whose content is that of the last write: devices, and files that the system makes up as
-- they are read, are left aside.
pub record IsFiles (F : Files) : Type 0 where
  pub read-write :
      (d d' : F.State) (p : Text) (raw : List ℕ)
      → F.read_file d p ≡ not_exist
      → F.write_file (F.mkdir_all d (F.dir p)).0 p raw ≡ (d', true)
      → F.read_file d' p ≡ read raw
  pub write_keeps :
      (d : F.State) (p : Text) (raw : List ℕ) (q : Text) (x : List ℕ)
      → F.read_file d p ≡ not_exist
      → F.read_file d q ≡ read x
      → F.read_file (F.write_file (F.mkdir_all d (F.dir p)).0 p raw).0 q ≡ read x
  pub mkdir_keeps :
      (d : F.State) (p q : Text) (x : List ℕ)
      → F.read_file d q ≡ read x
      → F.read_file (F.mkdir_all d p).0 q ≡ read x

-- A key that is generated is made from a seed.
abbrev pub IsGenerated : Crypto → Option (List ℕ) → Type 0
IsGenerated crypto generated = (k : List ℕ) → generated ≡ some k → IsWhole crypto k

pub IsWhole-size :
    (crypto : Crypto) (k : List ℕ) → IsCrypto crypto → IsWhole crypto k → length k ≡ 64
IsWhole-size crypto k lawful (seed, size, made) = ap length (sym made) ∙ lawful.made_size seed size

pub trim_space-default_kid : (kid : Text) → trim_space (default_kid kid) ≡ default_kid kid
unfolding default_kid
trim_space-default_kid kid = elim (Bool-cases (is_nil (trim_space kid))) [
  | inl e ↦ rw e (unfold trim_space in refl)
  | inr e ↦ rw e (trim_space_idem kid)
]

pub default_kid-given : (kid : Text) → is_nil (default_kid kid) ≡ false
unfolding default_kid is_nil
default_kid-given kid = ground arith

pub default_kid_solid :
    (kid : Text) → trim_space kid ≡ kid → is_nil kid ≡ false → default_kid kid ≡ kid
unfolding default_kid
default_kid_solid kid e g = ground arith

pub default_kid_idem : (kid : Text) → default_kid (default_kid kid) ≡ default_kid kid
default_kid_idem kid =
    default_kid_solid (default_kid kid) (trim_space-default_kid kid) (default_kid-given kid)

pub generated_signer :
    (generated : Option (List ℕ)) (kid : Text) (s : Ed25519Signer)
    → generate_ed25519_signer generated kid ≡ signer_ok s
    → (generated ≡ some s.private_key) × (s.kid ≡ default_kid kid)
unfolding generate_ed25519_signer
generated_signer none kid s e = absurd (ground arith)
generated_signer (some k) kid s e = (ground arith, ground arith)

pub parsed_signer :
    (p : Pkcs8) (kid : Text) (s : Ed25519Signer)
    → signer_of_pkcs8 p kid ≡ signer_ok s
    → (p ≡ ed25519_key s.private_key) × (s.kid ≡ trim_space kid)
unfolding signer_of_pkcs8
parsed_signer parse_error kid s e = absurd (ground arith)
parsed_signer other_key kid s e = absurd (ground arith)
parsed_signer (ed25519_key k) kid s e = (ground arith, ground arith)

module _ (crypto : Crypto) where
  pub block_signer :
      (block : Option (List ℕ)) (kid : Text) (s : Ed25519Signer)
      → from_block crypto block kid ≡ signer_ok s
      → (der : List ℕ) × (block ≡ some der)
        × (crypto.parse_pkcs8 der ≡ ed25519_key s.private_key)
        × (s.kid ≡ trim_space kid)
  unfolding from_block signer_from_pkcs8
  block_signer none kid s e = absurd (ground arith)
  block_signer (some der) kid s e =
      let (p, k) = parsed_signer (crypto.parse_pkcs8 der) kid s e in (der, refl, p, k)

  module _ (F : Files) where
    written_signer :
        (s t : Ed25519Signer) (r : F.State × Bool) (d' : F.State)
        → written crypto F s r ≡ (signer_ok t, d')
        → (s ≡ t) × (r ≡ (d', true))
    unfolding written
    written_signer s t (d, false) d' e = absurd (ground arith)
    written_signer s t (d, true) d' e = (ground arith, ground arith)

    -- A signer that is created was generated, and its marshaled key written below a directory.
    pub in_directory_signer :
        (path : Text) (s t : Ed25519Signer) (der : List ℕ) (r : F.State × Bool) (d' : F.State)
        → in_directory crypto F path s der r ≡ (signer_ok t, d')
        → (s ≡ t)
          × (F.write_file r.0 path (crypto.encode_to_memory (codes "PRIVATE KEY") der) ≡ (d', true))
    unfolding in_directory
    in_directory_signer path s t der (d, false) d' e = absurd (ground arith)
    in_directory_signer path s t der (d, true) d' e = written_signer s t _ d' e

    pub marshaled_signer :
        (disk : F.State) (path : Text) (s t : Ed25519Signer) (o : Option (List ℕ)) (d' : F.State)
        → marshaled crypto F disk path s o ≡ (signer_ok t, d')
        → (der : List ℕ) × (o ≡ some der)
          × (s ≡ t)
          × (F.write_file
                (F.mkdir_all disk (F.dir path)).0
                path
                (crypto.encode_to_memory (codes "PRIVATE KEY") der)
              ≡ (d', true))
    unfolding marshaled
    marshaled_signer disk path s t none d' e = absurd (ground arith)
    marshaled_signer disk path s t (some der) d' e =
        let (same, w) = in_directory_signer path s t der (F.mkdir_all disk (F.dir path)) d' e in
        (der, refl, same, w)

    pub created_signer :
        (disk : F.State) (path : Text) (r : SignerResult) (s : Ed25519Signer) (d' : F.State)
        → create crypto F disk path r ≡ (signer_ok s, d')
        → (r ≡ signer_ok s)
          × ((der : List ℕ) × (crypto.marshal_pkcs8 s.private_key ≡ some der)
              × (F.write_file
                    (F.mkdir_all disk (F.dir path)).0
                    path
                    (crypto.encode_to_memory (codes "PRIVATE KEY") der)
                  ≡ (d', true)))
    unfolding create
    created_signer disk path (signer_failed x) s d' e = absurd (ground arith)
    created_signer disk path (signer_ok t) s d' e =
        let (der, m, same, w) =
          marshaled_signer disk path t s (crypto.marshal_pkcs8 t.private_key) d' e in
        (
          ap signer_ok same,
          (der, subst (λ x. crypto.marshal_pkcs8 x.private_key ≡ some der) same m, w),
        )
