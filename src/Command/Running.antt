-- ===== src/Command/Running.antt =====
-- The command serves every configuration that it loads, if the keys are there.
use orionis.Base.{ℕ, ◌≡◌, false, sym, ap, subst, ◌∙◌, Option, none, List, All}
use orionis.Base.Int.{ℤ}
use orionis.Text.{Text, trim_space, trim_right_slash}
use orionis.Jwk.Key.{Codec}
use orionis.Jwk.Ed25519.{Files, Crypto}
use orionis.Jwk.Ed25519.Creating.{IsCrypto, IsGenerated}
use orionis.Authapp.Config.{KeyConfig, Config, WireConfig, listen_addr}
use orionis.Authapp.Runtime.{
  ResolvedConfig, LogLevel, ok, ◌>>=◌, ◌>>◌, compile_config, parse_log_level, effective_key_configs,
  resolved_of,
}
use orionis.Authapp.Runtime.Compiled.{compile_config-Stages}
use orionis.Authapp.Materials.{System, validate_key_materials, resolve_config}
use orionis.Authapp.Materials.Validated.{IsPresent}
use orionis.Authapp.Yaml.{Decoders}
use orionis.Authapp.Loading.{AwsConfigOptions, loaded_config, load_config_context}
use orionis.Authapp.Loading.Again.{load_config_context-compiles}
use orionis.Authapp.App as App
use orionis.Authapp.App.{made, new, mount}
use orionis.Authapp.App.Starting.{new-made}
use orionis.Arguments.{config_path, parse_flags}
use orionis.Authapp.Routes.{mount_auth_routes}
use orionis.Command.{
  serving, new_gin_engine, gin_mode, new_http_server, default_source, configure_runtime_mode, run,
  parsed, configured, at_level, serve, mounted,
}

module _ (parse_duration : Text → Option ℤ) (to_lower : Text → Text) where
  -- The level of a compiled configuration is that of its text.
  level-compiled :
      (input : Config) (r : ResolvedConfig)
      → compile_config parse_duration to_lower input ≡ ok r
      → parse_log_level to_lower r.raw.log_level ≡ ok r.log_level
  unfolding resolved_of
  level-compiled input r e =
      let c = compile_config-Stages parse_duration to_lower input r e in
      subst (λ x. parse_log_level to_lower x.raw.log_level ≡ ok x.log_level) c.result c.level_is

  resolve-compiled :
      (crypto : Crypto) (system : System) (F : Files) (disk : F.State) (cfg : Config)
      (r : ResolvedConfig)
      → compile_config parse_duration to_lower cfg ≡ ok r
      → r.raw ≡ cfg
      → validate_key_materials crypto system F disk (effective_key_configs cfg) ≡ none
      → resolve_config crypto system F parse_duration to_lower disk cfg ≡ ok r
  unfolding resolve_config
  resolve-compiled crypto system F disk cfg r c same v =
      ap
        (λ x. x >>= λ y.
          validate_key_materials crypto system F disk (effective_key_configs y.raw) >> ok y)
        c
      ∙ ap (λ x. validate_key_materials crypto system F disk (effective_key_configs x) >> ok r) same
      ∙ ap (λ x. x >> ok r) v

mode-level :
    (to_lower : Text → Text) (log_level : Text) (level : LogLevel)
    → parse_log_level to_lower log_level ≡ ok level
    → configure_runtime_mode to_lower log_level ≡ ok (level, gin_mode level)
unfolding configure_runtime_mode
mode-level to_lower log_level level e = ap (λ x. x >>= λ l. ok (l, gin_mode l)) e

module _ {Clock : Type 0} (system_clock : Clock) (join_paths : Text → Text → Text)
    (sum256 : Text → List ℕ) (crypto : Crypto) (lawful : IsCrypto crypto) (codec : Codec)
    (system : System) (F : Files) (generated : KeyConfig → Option (List ℕ))
    (sizes : (key : KeyConfig) → IsGenerated crypto (generated key))
    (parse_duration : Text → Option ℤ) (to_lower : Text → Text) where
  -- The command, if its arguments name a source, serves the configuration that it loads from it, on the
  -- address and at the level that this names, with the routes of the application that it makes of it, and
  -- leaves the disk as it is, if the key material passes its validation and is there, generated keys
  -- have their size, and trimming the issuer changes nothing more: behind the loading, neither the
  -- level, the keys, the clients, the server nor the mounting refuse it.
  pub run-serving :
      (d : Decoders) (hosted : AwsConfigOptions → Option WireConfig) (args : List Text)
      (source : Text) (disk : F.State) (cfg : Config)
      → parse_flags false (default_source system.getenv) args ≡ config_path source
      → load_config_context parse_duration to_lower system d F hosted source disk
        ≡ loaded_config cfg
      → trim_right_slash (trim_space cfg.issuer) ≡ cfg.issuer
      → validate_key_materials crypto system F disk (effective_key_configs cfg) ≡ none
      → All (IsPresent system F disk) (effective_key_configs cfg)
      → (app : App.Runtime Clock) × (level : LogLevel) × (run join_paths sum256 system_clock crypto
            codec system F generated parse_duration to_lower d hosted args disk
          ≡ (
            serving
                (gin_mode level)
                (new_http_server
                  (listen_addr cfg)
                  (new_gin_engine level)
                  (mount_auth_routes join_paths sum256 app.auth app.cfg))
                app,
            disk,
          ))
        × (parse_log_level to_lower cfg.log_level ≡ ok level)
        × (app.cfg.raw ≡ cfg)
  unfolding run parsed configured at_level serve mounted mount
  run-serving d hosted args source disk cfg named e issuer v p =
      let (r, c, same) =
        load_config_context-compiles parse_duration to_lower system d F hosted source disk cfg
          issuer e in
      let resolved = resolve-compiled parse_duration to_lower crypto system F disk cfg r c same v in
      let (app, m, kept) =
        new-made crypto lawful codec system F generated sizes system_clock parse_duration to_lower
          disk cfg r resolved
          (subst (λ x. All (IsPresent system F disk) (effective_key_configs x)) (sym same) p)
          (subst (λ x. trim_right_slash (trim_space x.issuer) ≡ x.issuer) (sym same) issuer) in
      let level : parse_log_level to_lower cfg.log_level ≡ ok r.log_level =
        subst (λ x. parse_log_level to_lower x.log_level ≡ ok r.log_level) same
          (level-compiled parse_duration to_lower cfg r c) in
      let mode = mode-level to_lower cfg.log_level r.log_level level in
      (
        app,
        r.log_level,
        ap
              (λ x.
                parsed join_paths sum256 system_clock crypto codec system F generated parse_duration
                  to_lower d hosted x disk)
              named
            ∙ ap
                (λ x.
                  configured join_paths sum256 system_clock crypto codec system F generated
                    parse_duration to_lower source x disk)
                e
            ∙ ap
                (λ x.
                  at_level join_paths sum256 system_clock crypto codec system F generated
                    parse_duration to_lower source cfg x disk)
                mode
            ∙ ap
                (λ x.
                  (serve join_paths sum256 source cfg (r.log_level, gin_mode r.log_level) x.0, x.1))
                m,
        level,
        ap (λ x. x.raw) kept ∙ same,
      )
