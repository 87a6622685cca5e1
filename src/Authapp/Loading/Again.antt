-- ===== src/Authapp/Loading/Again.antt =====
-- What is loaded was compiled, and compiles again.
use orionis.Base.{◌≡◌, inl, inr, refl, sym, subst, Option, none, some, arith, Bool-cases, is_nil}
use orionis.Base.Int.{ℤ}
use orionis.Text.{Text, codes, trim_space, trim_right_slash, equal_fold}
use orionis.Jwk.Ed25519.{ReadResult, read, not_exist, read_error, Files}
use orionis.Authapp.Config.{Config, WireConfig, runtime_config}
use orionis.Authapp.Runtime.{ConfigError, ResolvedConfig, Result, ok, failed, compile_config}
use orionis.Authapp.Runtime.Again.{compile_config-again}
use orionis.Authapp.Materials.{System, expand_path}
use orionis.Authapp.Yaml.{Decoders, decode_config}
use orionis.Authapp.Loading.{
  LoadConfigError, loaded_config, AwsConfigOptions, AwsOptions, options, missing,
  aws_config_options_from_env, raw_of, compiled_file, compiled_aws, load_with, load_aws_config,
  of_file, load_file_config, load_config_context,
}

raw_of-loaded :
    (refuse : ConfigError → LoadConfigError) (x : Result ResolvedConfig) (cfg : Config)
    → raw_of refuse x ≡ loaded_config cfg
    → (r : ResolvedConfig) × (x ≡ ok r) × (r.raw ≡ cfg)
unfolding raw_of
raw_of-loaded refuse (ok r) cfg e = (r, refl, ground arith)
raw_of-loaded refuse (failed x) cfg e = absurd (ground arith)

module _ (parse_duration : Text → Option ℤ) (to_lower : Text → Text) (system : System) where
  -- The configuration was compiled from some input.
  abbrev WasCompiled : Config → Type 0
  WasCompiled cfg =
      (input : Config) × (r : ResolvedConfig) × (compile_config parse_duration to_lower input
        ≡ ok r)
      × (r.raw ≡ cfg)

  compiled_file-WasCompiled :
      (o : Option WireConfig) (cfg : Config)
      → compiled_file parse_duration to_lower system o ≡ loaded_config cfg
      → WasCompiled cfg
  unfolding compiled_file
  compiled_file-WasCompiled none cfg e = absurd (ground arith)
  compiled_file-WasCompiled (some wire) cfg e =
      let (r, c, same) =
        raw_of-loaded _ (compile_config parse_duration to_lower (runtime_config wire)) cfg e in
      (runtime_config wire, r, c, same)

  compiled_aws-WasCompiled :
      (o : Option WireConfig) (cfg : Config)
      → compiled_aws parse_duration to_lower system o ≡ loaded_config cfg
      → WasCompiled cfg
  unfolding compiled_aws
  compiled_aws-WasCompiled none cfg e = absurd (ground arith)
  compiled_aws-WasCompiled (some wire) cfg e =
      let (r, c, same) =
        raw_of-loaded _ (compile_config parse_duration to_lower (runtime_config wire)) cfg e in
      (runtime_config wire, r, c, same)

  load_with-WasCompiled :
      (hosted : AwsConfigOptions → Option WireConfig) (o : AwsOptions) (cfg : Config)
      → load_with parse_duration to_lower system hosted o ≡ loaded_config cfg
      → WasCompiled cfg
  unfolding load_with
  load_with-WasCompiled hosted (missing name) cfg e = absurd (ground arith)
  load_with-WasCompiled hosted (options o) cfg e = compiled_aws-WasCompiled (hosted o) cfg e

  of_file-WasCompiled :
      (d : Decoders) (r : ReadResult) (cfg : Config)
      → of_file parse_duration to_lower system d r ≡ loaded_config cfg
      → WasCompiled cfg
  unfolding of_file
  of_file-WasCompiled d not_exist cfg e = absurd (ground arith)
  of_file-WasCompiled d read_error cfg e = absurd (ground arith)
  of_file-WasCompiled d (read raw) cfg e = compiled_file-WasCompiled (decode_config d raw) cfg e

  module _ (d : Decoders) (F : Files) (hosted : AwsConfigOptions → Option WireConfig) where
    loaded-WasCompiled :
        (source : Text) (disk : F.State) (cfg : Config)
        → load_config_context parse_duration to_lower system d F hosted source disk
          ≡ loaded_config cfg
        → WasCompiled cfg
    unfolding load_config_context load_file_config load_aws_config
    loaded-WasCompiled source disk cfg e =
        elim (Bool-cases (equal_fold (trim_space source) (codes "aws"))) [
          | inl a ↦
              load_with-WasCompiled hosted (aws_config_options_from_env system.getenv) cfg
                (rw (a, load_config_context) at e)
          | inr a ↦ elim (Bool-cases (is_nil (trim_space source))) [
            | inl n ↦ absurd (ground arith)
            | inr n ↦
                of_file-WasCompiled d (F.read_file disk (expand_path system source)) cfg
                  (rw n at (rw (a, load_config_context) at e))
          ]
        ]

    -- A configuration that is loaded, from a file or from AWS AppConfig, compiles to a configuration that
    -- keeps it as it is, if trimming its issuer changes nothing more.
    pub load_config_context-compiles :
        (source : Text) (disk : F.State) (cfg : Config)
        → trim_right_slash (trim_space cfg.issuer) ≡ cfg.issuer
        → load_config_context parse_duration to_lower system d F hosted source disk
          ≡ loaded_config cfg
        → (r : ResolvedConfig) × (compile_config parse_duration to_lower cfg ≡ ok r) × (r.raw ≡ cfg)
    load_config_context-compiles source disk cfg issuer e =
        let (input, r, c, same) = loaded-WasCompiled source disk cfg e in
        (
          r,
          subst (λ y. compile_config parse_duration to_lower y ≡ ok r) same
              (compile_config-again parse_duration to_lower input r
                (subst (λ y. trim_right_slash (trim_space y.issuer) ≡ y.issuer) (sym same) issuer)
                c),
          same,
        )
