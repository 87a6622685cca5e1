-- ===== src/Tests/Starting.antt =====
-- An application whose key is in a file, and its configuration in another.
use orionis.Base.{ℕ, ◌≡◌, refl, true, none, some, List, [], ◌∷◌, ◌++◌, inr, All, ap}
use orionis.Text.{Text, codes, equal_fold, fold_case}
use orionis.Jwk.Ed25519.{build_signer, set_kid, set_path, ed25519_builder}
use orionis.Authapp.Config.{
  Config, WireEndpointRateLimit, WireConfig, runtime_config, runtime_rate_limits,
  runtime_rate_limit, listen_addr,
}
use orionis.Authapp.Runtime
use orionis.Authapp.Runtime.{ok, ◌>>=◌, ◌>>◌}
use orionis.Authapp.Materials.{
  System, validate_key_materials, resolve_config, load_signer, loading_of, as_signer,
}
use orionis.Authapp.Materials.Validated.{IsPresent}
use orionis.Authapp.App as App
use orionis.Authapp.Signing.{start_server}
use orionis.Server.Config.Builder
use orionis.Authapp.App.{made, new, new_runtime}
use orionis.Authapp.Yaml as Yaml
use orionis.Authapp.Yaml.{Decoders, decode_config}
use orionis.Authapp.Loading.{loaded_config, load_config_context, load_file_config}
use orionis.Authapp.Runtime.Again.{compile_config-again}
use orionis.Authapp.App.Restarting.{new_runtime-again}
use orionis.Command.{serving, run, gin_mode, new_gin_engine, new_http_server, default_source}
use orionis.Authapp.Routes.{mount_auth_routes}
use orionis.Tests.Arguing.{args, args_named}
use orionis.Command.Running.{run-serving}
use orionis.Tests.Issuing.{shop}
use orionis.Tests.Running.{compiling, key, config, ready, parse_duration, compiled}
use orionis.Tests.Disks.{
  private_key, files, crypto, codec, crypto-IsCrypto, files-IsFiles, some_key-IsGenerated, disk,
  full_disk, calls,
}

abbrev system : System
system = record { user_home_dir = none; join = λ a b. b; getenv = λ name. []; bytes = λ s. s }

resolved : resolve_config crypto system files parse_duration (λ s. s) full_disk config ≡ ok ready
unfolding calls
resolved =
    ap
      (λ c. c >>= λ r.
        validate_key_materials crypto system files full_disk (Runtime.effective_key_configs r.raw)
        >> ok r)
      compiled

-- The configuration in a file, as it is decoded.
abbrev absent : WireEndpointRateLimit
absent = record { enabled = none; limit = none; window = none }

abbrev wire : WireConfig
wire = record {
  listen = [];
  log_level = codes "info";
  issuer = codes " https://auth/";
  base_path = [];
  access_token_ttl = [];
  active_kid = codes "k1";
  key = none;
  keys = some (key ∷ []);
  rate_limits = record { token = absent; readyz = absent };
  audit_logs = none;
  clients = shop ∷ [];
}

abbrev decoders : Decoders
decoders = record {
  Value = ℕ;
  is_valid = λ raw. true;
  unmarshal = λ raw. some wire;
  next = λ raw. Yaml.eof;
  decode_node = λ n. none;
  marshal = λ v. none;
}

abbrev config_disk : List (Text × List ℕ)
config_disk = (codes "config", 1 ∷ []) ∷ full_disk

abbrev file_config : Config
file_config = record ready.raw {
  key = record { kid = []; private_key_path = []; private_key_pem_env = [] };
}

loaded :
    load_config_context parse_duration
      (λ s. s)
      system
      decoders
      files
      (λ o. none)
      (codes "config")
      config_disk
    ≡ loaded_config file_config
unfolding calls compiling load_config_context load_file_config equal_fold fold_case decode_config
    runtime_config runtime_rate_limits runtime_rate_limit
loaded = refl

file_key-IsPresent :
    All (IsPresent system files config_disk) (Runtime.effective_key_configs file_config)
unfolding calls
file_key-IsPresent = (inr (refl, refl, refl, (private_key, refl)), tt)

file_key-validated :
    validate_key_materials crypto system files config_disk
      (Runtime.effective_key_configs file_config)
    ≡ none
unfolding calls
file_key-validated = refl

abbrev join_paths : Text → Text → Text
join_paths base path = base ++ path

abbrev sum256 : Text → List ℕ
sum256 s = []

run-serving_example :
    (app : App.Runtime ℕ) × (level : Runtime.LogLevel) × (run join_paths sum256 0 crypto codec
        system files
        (λ key. some private_key)
        parse_duration
        (λ s. s)
        decoders
        (λ o. none)
        args
        config_disk
      ≡ (
        serving
            (gin_mode level)
            (new_http_server
              (listen_addr file_config)
              (new_gin_engine level)
              (mount_auth_routes join_paths sum256 app.auth app.cfg))
            app,
        config_disk,
      ))
    × (Runtime.parse_log_level (λ s. s) file_config.log_level ≡ ok level)
    × (app.cfg.raw ≡ file_config)
unfolding calls
run-serving_example =
    run-serving 0 join_paths sum256 crypto crypto-IsCrypto codec system files
      (λ key. some private_key) (λ key. some_key-IsGenerated) parse_duration (λ s. s) decoders
      (λ o. none) args (codes "config") config_disk file_config
      (args_named (default_source system.getenv)) loaded refl file_key-validated file_key-IsPresent

compile_config-again_example : Runtime.compile_config parse_duration (λ s. s) ready.raw ≡ ok ready
unfolding calls
compile_config-again_example =
    compile_config-again parse_duration (λ s. s) config ready refl compiled

-- The first start creates the key file.
first_start :
    (app : App.Runtime ℕ) × (new_runtime 0 ready
        (load_signer crypto codec system files (λ key. some private_key))
        disk
      ≡ (made app, full_disk))
unfolding calls compiling new_runtime load_signer start_server loading_of build_signer set_kid
    set_path ed25519_builder as_signer Builder.build Builder.add_clients Builder.set_active_kid
    Builder.add_signers Builder.set_access_token_ttl Builder.set_issuer Builder.empty_config
first_start = (_, refl)

new_runtime-again_example :
    new_runtime 0 ready (load_signer crypto codec system files (λ key. none)) full_disk
    ≡ (made first_start.0, full_disk)
unfolding calls
new_runtime-again_example =
    new_runtime-again 0 crypto crypto-IsCrypto codec system files files-IsFiles
      (λ key. some private_key) (λ key. none) (λ key. some_key-IsGenerated) ready disk full_disk
      first_start.0 (refl, tt) first_start.1
