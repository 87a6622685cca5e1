-- ===== src/Authapp/Materials/Restart.antt =====
-- A start leaves the keys where the next one finds them.
use orionis.Base.{
  ℕ, ◌≡◌, inl, inr, refl, sym, ap, ◌∙◌, true, false, ◌&&◌, Option, some, List, arith, Bool-cases,
  is_nil,
}
use orionis.Text.{Text, trim_space}
use orionis.Text.Trim.{trim_space_idem}
use orionis.Jwk.Key.{Codec}
use orionis.Jwk.Ed25519.{
  Files, read, Crypto, signer_ok, default_kid, load_ed25519_signer_pem, ed25519_builder, set_kid,
  set_path, build_signer, load_or_create,
}
use orionis.Jwk.Ed25519.Creating.{IsCrypto, IsFiles, IsGenerated}
use orionis.Jwk.Ed25519.Keeping.{load_or_create-stored}
use orionis.Jwk.Ed25519.Preserving.{load_or_create-read, load_pem-default_kid, load_or_create_keeps}
use orionis.Server.Config.{Signer}
use orionis.Authapp.Config.{KeyConfig}
use orionis.Authapp.Signing.{Loading, signer, load_error}
use orionis.Authapp.Signing.Repeated.{IsLasting}
use orionis.Authapp.Materials.{System, expand_path, loading_of, load_env, loaded_file, load_signer}
use orionis.Authapp.Materials.Naming.{filled, loading_signer}

module _ (system : System) where
  -- The file of a key.
  abbrev pub file_of : KeyConfig → Text
  file_of key = trim_space (expand_path system (trim_space key.private_key_path))

  -- The key names a variable of the environment or a file.
  abbrev pub IsNamed : KeyConfig → Type 0
  IsNamed key = (is_nil (trim_space key.private_key_pem_env) && is_nil (file_of key)) ≡ false

module _ (crypto : Crypto) (codec : Codec) (system : System) (F : Files) where
  -- The signer of a key is found without anything being created.
  pub data IsStored (disk : F.State) (key : KeyConfig) (t : Signer) : Type 0 where
    in_env :
        is_nil (trim_space key.private_key_path) ≡ true
        → is_nil (trim_space key.private_key_pem_env) ≡ false
        → load_env crypto codec system (trim_space key.private_key_pem_env) key.kid
          ≡ signer (some t)
        → IsStored disk key t
    in_file :
        (raw : List ℕ)
        → is_nil (trim_space key.private_key_pem_env) ≡ true
        → is_nil (file_of system key) ≡ false
        → F.read_file disk (file_of system key) ≡ read raw
        → loading_of crypto codec (load_ed25519_signer_pem crypto raw key.kid) ≡ signer (some t)
        → IsStored disk key t

  -- What is stored stays stored, if no file is changed.
  unchanged-IsStored :
      (d e : F.State) (key : KeyConfig) (t : Signer)
      → ((q : Text) (raw : List ℕ) → F.read_file d q ≡ read raw → F.read_file e q ≡ read raw)
      → IsStored d key t
      → IsStored e key t
  unchanged-IsStored d e key t k (in_env p n l) = in_env p n l
  unchanged-IsStored d e key t k (in_file raw n f r l) =
      in_file raw n f (k (file_of system key) raw r) l

  build-load_or_create :
      (generated : Option (List ℕ)) (disk : F.State) (path kid : Text)
      → build_signer crypto F generated disk (set_kid (set_path ed25519_builder path) kid)
        ≡ load_or_create crypto F generated disk (trim_space path) (default_kid kid)
  unfolding build_signer
  build-load_or_create generated disk path kid = rw filled refl

  stored_file :
      (generated : Option (List ℕ)) (disk : F.State) (key : KeyConfig) (t : Signer) (raw : List ℕ)
      → is_nil (file_of system key) ≡ false
      → F.read_file disk (file_of system key) ≡ read raw
      → loading_of crypto codec (load_ed25519_signer_pem crypto raw key.kid) ≡ signer (some t)
      → loaded_file crypto codec system F
          (load_or_create crypto F generated disk (file_of system key) (default_kid key.kid))
        ≡ (signer (some t), disk)
  unfolding loaded_file
  stored_file generated disk key t raw f r l =
      rw
        (
          load_or_create-read crypto F generated disk (file_of system key) (default_kid key.kid) raw
              f (trim_space_idem (expand_path system (trim_space key.private_key_path))) r,
          load_pem-default_kid crypto F raw key.kid,
          l,
        )
        refl

  -- A stored signer is loaded, and nothing is changed.
  pub load_signer-IsStored :
      (generated : KeyConfig → Option (List ℕ)) (disk : F.State) (key : KeyConfig) (t : Signer)
      → IsStored disk key t
      → load_signer crypto codec system F generated disk key ≡ (signer (some t), disk)
  unfolding load_signer
  load_signer-IsStored generated disk key t (in_env p n l) = rw (p, n) (ap (λ x. (x, disk)) l)
  load_signer-IsStored generated disk key t (in_file raw n f r l) =
      let e = stored_file (generated key) disk key t raw f r l in
      elim (Bool-cases (is_nil (trim_space key.private_key_path))) [
        | inl p ↦ rw (n, p, build-load_or_create) e
        | inr p ↦ rw (n, p, build-load_or_create) e
      ]

  -- What a load of a key does: it refuses the key, reads the environment, or loads or creates a file.
  data IsLoadedFrom (generated : KeyConfig → Option (List ℕ)) (disk : F.State) (key : KeyConfig)
      (r : Loading × F.State) : Type 0 where
    refused : r ≡ (load_error, disk) → IsLoadedFrom generated disk key r
    from_env :
        is_nil (trim_space key.private_key_path) ≡ true
        → is_nil (trim_space key.private_key_pem_env) ≡ false
        → r ≡ (load_env crypto codec system (trim_space key.private_key_pem_env) key.kid, disk)
        → IsLoadedFrom generated disk key r
    from_file :
        is_nil (trim_space key.private_key_pem_env) ≡ true
        → r
          ≡ loaded_file crypto codec system F (
              load_or_create crypto F
                (generated key)
                disk
                (file_of system key)
                (default_kid key.kid))
        → IsLoadedFrom generated disk key r

  load_signer-IsLoadedFrom :
      (generated : KeyConfig → Option (List ℕ)) (disk : F.State) (key : KeyConfig)
      → IsLoadedFrom generated disk key (load_signer crypto codec system F generated disk key)
  unfolding load_signer
  load_signer-IsLoadedFrom generated disk key =
      elim (Bool-cases (is_nil (trim_space key.private_key_pem_env))) [
        | inl n ↦ elim (Bool-cases (is_nil (trim_space key.private_key_path))) [
          | inl p ↦ from_file n (rw (n, p, build-load_or_create) refl)
          | inr p ↦ from_file n (rw (n, p, build-load_or_create) refl)
        ]
        | inr n ↦ elim (Bool-cases (is_nil (trim_space key.private_key_path))) [
          | inl p ↦ from_env p n (rw (n, p) refl)
          | inr p ↦ refused (rw (n, p) refl)
        ]
      ]

  module _ (disks : IsFiles F) (generated : KeyConfig → Option (List ℕ)) where
    pub load_signer_keeps :
        (disk : F.State) (key : KeyConfig) (q : Text) (raw : List ℕ)
        → F.read_file disk q ≡ read raw
        → F.read_file (load_signer crypto codec system F generated disk key).1 q ≡ read raw
    unfolding loaded_file
    load_signer_keeps disk key q raw h = elim (load_signer-IsLoadedFrom generated disk key) [
      | refused e ↦ rw e h
      | from_env p n e ↦ rw e h
      | from_file n e ↦ rw e (
          load_or_create_keeps crypto F disks (generated key) disk (file_of system key)
            (default_kid key.kid) q raw h)
    ]

    module _ (lawful : IsCrypto crypto)
        (sized : (key : KeyConfig) → IsGenerated crypto (generated key)) where
      created_file :
          (disk d' : F.State) (key : KeyConfig) (t : Signer)
          → is_nil (trim_space key.private_key_pem_env) ≡ true
          → is_nil (file_of system key) ≡ false
          → loaded_file crypto codec system F (
              load_or_create crypto F
                (generated key)
                disk
                (file_of system key)
                (default_kid key.kid))
            ≡ (signer (some t), d')
          → IsStored d' key t
      unfolding loaded_file
      created_file disk d' key t n f e =
          let r =
            load_or_create crypto F (generated key) disk (file_of system key)
              (default_kid key.kid) in
          let (s, ok, a) = loading_signer crypto codec r.0 t (ap (λ x. x.0) e) in
          let same = trim_space_idem (expand_path system (trim_space key.private_key_path)) in
          let (raw, stored, again) =
            load_or_create-stored crypto lawful F disks (generated key) disk (file_of system key)
              (default_kid key.kid) s d' (sized key) (ap is_nil same ∙ f)
              (ap (λ x. (x, r.1)) ok ∙ ap (λ x. (signer_ok s, x.1)) e) in
          in_file raw n f (ap (F.read_file d') (sym same) ∙ stored) (
            ap (loading_of crypto codec)
              (sym (load_pem-default_kid crypto F raw key.kid) ∙ again ∙ sym ok)
            ∙ ap (λ x. x.0) e)

      -- A signer that is loaded is stored, if its key names a file or the environment.
      pub loaded-IsStored :
          (disk d' : F.State) (key : KeyConfig) (t : Signer)
          → IsNamed system key
          → load_signer crypto codec system F generated disk key ≡ (signer (some t), d')
          → IsStored d' key t
      loaded-IsStored disk d' key t n e = elim (load_signer-IsLoadedFrom generated disk key) [
        | refused r ↦
            let c : load_error ≡ signer (some t) = (ap (λ x. x.0) (sym r ∙ e)) in
            absurd (ground arith)
        | from_env p b r ↦ in_env p b (ap (λ x. x.0) (sym r ∙ e))
        | from_file b r ↦ created_file disk d' key t b (rw b at n) (sym r ∙ e)
      ]

      -- What a load leaves on the disk is found by another one.
      pub load_signer-IsLasting :
          (later : KeyConfig → Option (List ℕ))
          → IsLasting
              (load_signer crypto codec system F generated)
              (load_signer crypto codec system F later)
              (IsNamed system)
              IsStored
      load_signer-IsLasting later = record {
        stored = λ disk d' key t n e. loaded-IsStored disk d' key t n e;
        kept = λ disk key other t h.
            unchanged-IsStored disk (load_signer crypto codec system F generated disk key).1 other t
              (load_signer_keeps disk key) h;
        found = load_signer-IsStored later;
      }
