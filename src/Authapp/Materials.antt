-- ===== src/Authapp/Materials.antt =====
-- internal/authapp/signing.go, runtime_config.go and config.go, where they read the environment and the
-- disk: the keys are validated before the start, and loaded with it.
pub mod Naming
pub mod Validated
pub mod Restart
use orionis.Base.{
  ℕ, ◌≡◌, refl, Bool, true, false, not, ◌&&◌, ◌||◌, Option, none, some, List, [], ◌∷◌,
  if◌then◌else◌, is_nil, first_error,
}
use orionis.Base.Int.{ℤ}
use orionis.Text.{Text, codes, text_eq, trim_space, cut_prefix}
use orionis.Jwk.Key.{Codec}
use orionis.Jwk.Ed25519.{
  ReadResult, read, not_exist, read_error, Files, Crypto, Ed25519Signer, SignerResult, signer_ok,
  signer_failed, load_ed25519_signer_pem, public_jwk, sign, ed25519_builder, set_kid, set_path,
  build_signer,
}
use orionis.Jwk.Key.{alg_ed_dsa}
use orionis.Server.Config.{Signer}
use orionis.Authapp.Config.{KeyConfig, Config}
use orionis.Authapp.Runtime.{
  ConfigError, ok, failed, pem_env_empty, pem_env_invalid, key_path_invalid, key_path_unreadable,
  ResolvedConfig, Result, ◌>>=◌, ◌>>◌, compile_config, effective_key_configs,
}
use orionis.Authapp.Signing.{Loading, signer, load_error, SignerLoader}

-- os.UserHomeDir (`none` is an error), filepath.Join of two parts, os.Getenv, and the bytes of a string.
pub record System : Type 0 where
  pub user_home_dir : Option Text
  pub join : Text → Text → Text
  pub getenv : Text → Text
  pub bytes : Text → List ℕ

home_path : (Text → Text → Text) → Text → Option Text → Option Text → Text
home_path join path (some rest) (some home) = join home rest
home_path join path (some rest) none = path
home_path join path none home = path

unfoldable pub expand_path : System → Text → Text
unfolding home_path
expand_path system path =
    if is_nil path || text_eq path (codes ".")
    then path
    else home_path system.join path (cut_prefix path (codes "~/")) system.user_home_dir

is_signer : SignerResult → Bool
is_signer (signer_ok s) = true
is_signer (signer_failed e) = false

module _ (crypto : Crypto) (system : System) where
  pub check_env : KeyConfig → Option ConfigError
  unfolding is_signer
  check_env key =
      if is_nil key.private_key_pem_env
      then none
      else let raw = system.getenv key.private_key_pem_env in
        if is_nil (trim_space raw)
        then some pem_env_empty
        else if is_signer (load_ed25519_signer_pem crypto (system.bytes raw) key.kid)
        then none
        else some pem_env_invalid

  -- The file of a key, if it is there.
  pub check_file : Text → ReadResult → Option ConfigError
  unfolding is_signer
  check_file kid (read raw) =
      if is_signer (load_ed25519_signer_pem crypto raw kid) then none else some key_path_invalid
  check_file kid not_exist = none
  check_file kid read_error = some key_path_unreadable

  module _ (F : Files) where
    pub check_path : F.State → KeyConfig → Option ConfigError
    check_path disk key =
        if is_nil key.private_key_path
        then none
        else check_file key.kid (F.read_file disk (expand_path system key.private_key_path))

    unfoldable pub validate_key_materials : F.State → List KeyConfig → Option ConfigError
    unfolding check_env check_path check_file
    validate_key_materials disk [] = none
    validate_key_materials disk (key ∷ keys) =
        first_error (check_env key)
          (first_error (check_path disk key) (validate_key_materials disk keys))

    unfoldable pub resolve_config :
        (Text → Option ℤ) → (Text → Text) → F.State → Config → Result ResolvedConfig
    resolve_config parse_duration to_lower disk cfg = do
      resolved ← compile_config parse_duration to_lower cfg
      validate_key_materials disk (effective_key_configs resolved.raw)
      ok resolved

module _ (crypto : Crypto) (codec : Codec) where
  -- A signer of the package jwk as the interface `Signer`, and what the loader makes of a result.
  unfoldable pub as_signer : Ed25519Signer → Signer
  as_signer s = record {
    key_id = s.kid;
    algorithm = alg_ed_dsa;
    sign = sign crypto (some s);
    public_jwk = public_jwk crypto codec (some s);
  }

  unfoldable pub loading_of : SignerResult → Loading
  loading_of (signer_ok s) = signer (some (as_signer s))
  loading_of (signer_failed e) = load_error

  module _ (system : System) where
    -- The key in the environment.
    pub load_env : Text → Text → Loading
    load_env name kid =
        if is_nil (trim_space (system.getenv name))
        then load_error
        else loading_of (load_ed25519_signer_pem crypto (system.bytes (system.getenv name)) kid)

    module _ (F : Files) where
      -- What the builder builds, as the loader answers it.
      pub loaded_file : SignerResult × F.State → Loading × F.State
      loaded_file r = (loading_of r.0, r.1)

      -- `generated` is what is generated for a key that has no file yet.
      unfoldable pub load_signer : (KeyConfig → Option (List ℕ)) → SignerLoader F.State
      unfolding load_env loaded_file
      load_signer generated disk key =
          let path = trim_space key.private_key_path in
          let name = trim_space key.private_key_pem_env in
          if not (is_nil path) && not (is_nil name)
          then (load_error, disk)
          else if is_nil name
          then loaded_file (
              build_signer crypto F (generated key) disk
                (set_kid (set_path ed25519_builder (expand_path system path)) key.kid))
          else (load_env name key.kid, disk)
