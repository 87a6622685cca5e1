-- ===== src/Authapp/Materials/Naming.antt =====
-- Where the signers come from that `LoadSigner` gives, and their key ids.
use orionis.Base.{
  ℕ, ◌≡◌, inl, inr, refl, sym, ap, ◌∙◌, not, ◌&&◌, Option, some, List, arith, Bool-cases, is_nil,
}
use orionis.Text.{Text, trim_space}
use orionis.Jwk.Key.{Codec}
use orionis.Jwk.Ed25519.{
  Files, Crypto, Ed25519Signer, SignerResult, signer_ok, signer_failed, default_kid,
  load_ed25519_signer_pem, Ed25519Builder, ed25519_builder, set_kid, set_path, build_signer,
  load_or_create,
}
use orionis.Jwk.Ed25519.Creating.{
  IsCrypto, IsGenerated, trim_space-default_kid, default_kid_idem, default_kid-given,
}
use orionis.Jwk.Ed25519.Keeping.{IsSigner, block-IsSigner, load_or_create-IsSigner}
use orionis.Server.Config.{Signer}
use orionis.Authapp.Config.{KeyConfig}
use orionis.Authapp.Signing.{signer}
use orionis.Authapp.Signing.Starting.{IsNaming}
use orionis.Authapp.Materials.{
  System, expand_path, as_signer, loading_of, load_env, loaded_file, load_signer,
}

-- The builder that `LoadSigner` fills.
abbrev pub builder_of : Text → Text → Ed25519Builder
builder_of path kid = record { kid = default_kid kid; path = trim_space path }

pub filled :
    (path kid : Text) → set_kid (set_path ed25519_builder path) kid ≡ some (builder_of path kid)
unfolding set_kid set_path ed25519_builder default_kid
filled path kid = ground arith

IsSigner-default_kid :
    (crypto : Crypto) (kid : Text) (s : Ed25519Signer)
    → IsSigner crypto (default_kid kid) s
    → IsSigner crypto kid s
IsSigner-default_kid crypto kid s i = record {
  kid_is = i.kid_is ∙ default_kid_idem kid;
  whole = i.whole;
  size = i.size;
}

module _ (crypto : Crypto) (codec : Codec) where
  pub loading_signer :
      (r : SignerResult) (t : Signer)
      → loading_of crypto codec r ≡ signer (some t)
      → (s : Ed25519Signer) × (r ≡ signer_ok s) × (as_signer crypto codec s ≡ t)
  unfolding loading_of
  loading_signer (signer_ok s) t e = (s, refl, ground arith)
  loading_signer (signer_failed x) t e = absurd (ground arith)

  module _ (lawful : IsCrypto crypto) (system : System) where
    -- A signer that the loader gives has the key id of its configuration.
    abbrev IsLoaded : Text → Signer → Type 0
    IsLoaded kid t = (s : Ed25519Signer) × (as_signer crypto codec s ≡ t) × IsSigner crypto kid s

    load_env-IsLoaded :
        (name kid : Text) (t : Signer)
        → load_env crypto codec system name kid ≡ signer (some t)
        → IsLoaded kid t
    unfolding load_env load_ed25519_signer_pem
    load_env-IsLoaded name kid t e = elim (Bool-cases (is_nil (trim_space (system.getenv name)))) [
      | inl b ↦ absurd (ground arith)
      | inr b ↦
          let (s, r, a) =
            loading_signer (load_ed25519_signer_pem crypto (system.bytes (system.getenv name)) kid)
              t (rw (b, load_env) at e) in
          (s, a, block-IsSigner crypto lawful _ kid s r)
    ]

    module _ (F : Files) where
      load_file-IsLoaded :
          (generated : Option (List ℕ)) (disk : F.State) (path kid : Text) (t : Signer)
          → IsGenerated crypto generated
          → (loaded_file crypto codec system F (
              build_signer crypto F generated disk (set_kid (set_path ed25519_builder path) kid))).0
            ≡ signer (some t)
          → IsLoaded kid t
      unfolding loaded_file build_signer
      load_file-IsLoaded generated disk path kid t g e =
          let r = load_or_create crypto F generated disk (trim_space path) (default_kid kid) in
          let (s, ok, a) = loading_signer r.0 t (rw filled at e) in
          (
            s,
            a,
            IsSigner-default_kid crypto kid s (
                load_or_create-IsSigner crypto lawful F generated disk (trim_space path)
                  (default_kid kid) s r.1 g (ap (λ x. (x, r.1)) ok)),
          )

      -- A signer that `LoadSigner` gives has the key id of its configuration, trimmed, or the default one,
      -- and a private key of the right size.
      pub load_signer-IsLoaded :
          (generated : KeyConfig → Option (List ℕ))
          → ((key : KeyConfig) → IsGenerated crypto (generated key))
          → (disk : F.State) (key : KeyConfig) (t : Signer)
          → (load_signer crypto codec system F generated disk key).0 ≡ signer (some t)
          → IsLoaded key.kid t
      unfolding load_signer
      load_signer-IsLoaded generated g disk key t e =
          let path = trim_space key.private_key_path in
          let name = trim_space key.private_key_pem_env in
          elim (Bool-cases (not (is_nil path) && not (is_nil name))) [
            | inl both ↦ absurd (ground arith)
            | inr both ↦ elim (Bool-cases (is_nil name)) [
              | inl n ↦
                  load_file-IsLoaded (generated key) disk (expand_path system path) key.kid t
                    (g key) (rw n at (rw (both, load_signer) at e))
              | inr n ↦ load_env-IsLoaded name key.kid t (rw n at (rw (both, load_signer) at e))
            ]
          ]

      pub load_signer-IsNaming :
          (generated : KeyConfig → Option (List ℕ))
          → ((key : KeyConfig) → IsGenerated crypto (generated key))
          → IsNaming (load_signer crypto codec system F generated)
      unfolding as_signer
      load_signer-IsNaming generated g disk key t e =
          let (s, a, i) = load_signer-IsLoaded generated g disk key t e in
          ap (λ x. is_nil (trim_space x.key_id)) (sym a)
          ∙ ap (λ x. is_nil (trim_space x)) i.kid_is
          ∙ ap is_nil (trim_space-default_kid key.kid)
          ∙ default_kid-given key.kid
