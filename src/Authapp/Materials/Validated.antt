-- ===== src/Authapp/Materials/Validated.antt =====
-- A configuration whose keys are validated can be loaded: `LoadSigner` refuses no key that
-- `validateKeyMaterials` accepts, and the loop over the keys refuses none that `compileConfig` accepts.
use orionis.Base.{
  ℕ, ◌≡◌, ◌⊎◌, inl, inr, refl, ap, ◌∙◌, true, false, not, ◌&&◌, Option, none, some, List, arith,
  Bool-cases, is_nil,
}
use orionis.Text.{Text, trim_space}
use orionis.Jwk.Key.{Codec}
use orionis.Jwk.Ed25519.{
  Files, read, Crypto, Ed25519Signer, SignerResult, signer_ok, signer_failed, default_kid,
  load_ed25519_signer_pem, ed25519_builder, set_kid, set_path, build_signer, load_or_create,
}
use orionis.Jwk.Ed25519.Preserving.{load_or_create-read, load_pem-default_kid}
use orionis.Authapp.Config.{KeyConfig}
use orionis.Authapp.Signing.{signer}
use orionis.Authapp.Materials.{
  System, expand_path, is_signer, check_env, check_file, check_path, as_signer, loading_of,
  load_env, loaded_file, load_signer,
}
use orionis.Authapp.Materials.Naming.{filled}

signer_of : (r : SignerResult) → is_signer r ≡ true → (s : Ed25519Signer) × (r ≡ signer_ok s)
unfolding is_signer
signer_of (signer_ok s) e = (s, refl)
signer_of (signer_failed x) e = absurd (ground arith)

-- The material of a key is there: it comes from the environment, or its file can be read.
abbrev pub IsPresent : System → (F : Files) → F.State → KeyConfig → Type 0
IsPresent system F disk key =
    let path = expand_path system key.private_key_path in
    (is_nil key.private_key_pem_env ≡ false)
    ⊎ ((is_nil key.private_key_path ≡ false)
        × (is_nil path ≡ false)
        × (trim_space path ≡ path)
        × ((raw : List ℕ) × (F.read_file disk path ≡ read raw)))

-- A key of a configuration that is normalised and has one source.
pub record IsSourced (key : KeyConfig) : Type 0 where
  pub path_trimmed : trim_space key.private_key_path ≡ key.private_key_path
  pub env_trimmed : trim_space key.private_key_pem_env ≡ key.private_key_pem_env
  pub one_source :
      (not (is_nil key.private_key_path) && not (is_nil key.private_key_pem_env)) ≡ false

module _ (crypto : Crypto) (codec : Codec) (system : System) where
  check_env_loads :
      (key : KeyConfig)
      → is_nil key.private_key_pem_env ≡ false
      → check_env crypto system key ≡ none
      → (s : Ed25519Signer) × (load_env crypto codec system key.private_key_pem_env key.kid
          ≡ signer (some (as_signer crypto codec s)))
  unfolding check_env load_env loading_of
  check_env_loads key n e =
      elim (Bool-cases (is_nil (trim_space (system.getenv key.private_key_pem_env)))) [
        | inl b ↦ absurd (ground arith)
        | inr b ↦
            let r =
              load_ed25519_signer_pem crypto (system.bytes (system.getenv key.private_key_pem_env))
                key.kid in
            elim (Bool-cases (is_signer r)) [
              | inl k ↦ let (s, ok) = signer_of r k in (s, rw b (ap (loading_of crypto codec) ok))
              | inr k ↦ absurd (ground arith)
            ]
      ]

  module _ (F : Files) where
    load_file-read :
        (generated : Option (List ℕ)) (disk : F.State) (path kid : Text) (raw : List ℕ)
        → is_nil path ≡ false
        → trim_space path ≡ path
        → F.read_file disk path ≡ read raw
        → build_signer crypto F generated disk (set_kid (set_path ed25519_builder path) kid)
          ≡ (load_ed25519_signer_pem crypto raw kid, disk)
    unfolding build_signer
    load_file-read generated disk path kid raw n t f = rw filled (
        ap (λ x. load_or_create crypto F generated disk x (default_kid kid)) t
        ∙ load_or_create-read crypto F generated disk path (default_kid kid) raw n t f
        ∙ ap (λ x. (x, disk)) (load_pem-default_kid crypto F raw kid))

    check_path_loads :
        (generated : Option (List ℕ)) (disk : F.State) (key : KeyConfig) (raw : List ℕ)
        → is_nil key.private_key_path ≡ false
        → is_nil (expand_path system key.private_key_path) ≡ false
        → trim_space (expand_path system key.private_key_path)
          ≡ expand_path system key.private_key_path
        → F.read_file disk (expand_path system key.private_key_path) ≡ read raw
        → check_path crypto system F disk key ≡ none
        → (s : Ed25519Signer) × (loaded_file crypto codec system F (
              build_signer crypto F generated disk (
                set_kid
                  (set_path ed25519_builder (expand_path system key.private_key_path))
                  key.kid))
            ≡ (signer (some (as_signer crypto codec s)), disk))
    unfolding check_path check_file loaded_file loading_of
    check_path_loads generated disk key raw p n t f e =
        let r = load_ed25519_signer_pem crypto raw key.kid in
        elim (Bool-cases (is_signer r)) [
          | inl k ↦
              let (s, ok) = signer_of r k in
              (
                s,
                rw
                    (load_file-read generated disk (expand_path system key.private_key_path) key.kid
                      raw n t f)
                    (ap (λ x. (loading_of crypto codec x, disk)) ok),
              )
          | inr k ↦ absurd (ground (arith, f))
        ]

    -- `LoadSigner` gives a signer for a key that was validated, if its material is there, and leaves the
    -- disk as it is.
    pub load_signer-validated :
        (generated : KeyConfig → Option (List ℕ)) (disk : F.State) (key : KeyConfig)
        → IsSourced key
        → IsPresent system F disk key
        → check_env crypto system key ≡ none
        → check_path crypto system F disk key ≡ none
        → (s : Ed25519Signer) × (load_signer crypto codec system F generated disk key
            ≡ (signer (some (as_signer crypto codec s)), disk))
    unfolding load_signer
    load_signer-validated generated disk key i (inl n) v w =
        let (s, e) = check_env_loads key n v in
        (s, rw (i.path_trimmed, i.env_trimmed, i.one_source, n) (ap (λ x. (x, disk)) e))
    load_signer-validated generated disk key i (inr (p, n, t, (raw, f))) v w =
        let (s, e) = check_path_loads (generated key) disk key raw p n t f w in
        let c : is_nil key.private_key_pem_env ≡ true = ground (arith, p, i.one_source) in
        (s, rw (i.path_trimmed, i.env_trimmed, i.one_source, c) e)
