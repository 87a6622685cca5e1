-- ===== src/Authapp/Loading.antt =====
-- internal/authapp/config.go and config_aws.go: a configuration is loaded, from a file or from AWS
-- AppConfig.
pub mod Again
use orionis.Base.{
  ℕ, Bool, true, false, not, Option, none, some, List, [], ◌∷◌, if◌then◌else◌, is_nil,
}
use orionis.Base.Int.{ℤ}
use orionis.Text.{Text, codes, trim_space, equal_fold}
use orionis.Jwk.Ed25519.{ReadResult, read, not_exist, read_error, Files}
use orionis.Authapp.Config.{Config, WireConfig, runtime_config}
use orionis.Authapp.Runtime.{ConfigError, ResolvedConfig, Result, ok, failed, compile_config}
use orionis.Authapp.Materials.{System, expand_path}
use orionis.Authapp.Yaml.{Decoders, decode_config}

pub data LoadConfigError : Type 0 where
  path_required not_read not_decoded aws_not_loaded aws_invalid : LoadConfigError
  invalid : ConfigError → LoadConfigError
  aws_option_required : Text → LoadConfigError

pub data LoadedConfig : Type 0 where
  loaded_config : Config → LoadedConfig
  load_failed : LoadConfigError → LoadedConfig

pub record AwsConfigOptions : Type 0 where
  pub region : Text
  pub application : Text
  pub environment : Text
  pub profile : Text

pub data AwsOptions : Type 0 where
  options : AwsConfigOptions → AwsOptions
  missing : Text → AwsOptions

aws_region : (Text → Text) → Text
aws_region getenv =
    let region = trim_space (getenv (codes "AWS_REGION")) in
    let default_region = trim_space (getenv (codes "AWS_DEFAULT_REGION")) in
    if not (is_nil region)
    then region
    else if not (is_nil default_region)
    then default_region
    else codes "eu-central-1"

-- The loop over the three fields, which stops at the first one that is missing.
unfoldable pub aws_config_options_from_env : (Text → Text) → AwsOptions
unfolding aws_region
aws_config_options_from_env getenv =
    let application = trim_space (getenv (codes "AWS_APPCONFIG_APPLICATION")) in
    let environment = trim_space (getenv (codes "AWS_APPCONFIG_ENVIRONMENT")) in
    let profile = trim_space (getenv (codes "AWS_APPCONFIG_PROFILE")) in
    if is_nil application
    then missing (codes "AWS_APPCONFIG_APPLICATION")
    else if is_nil environment
    then missing (codes "AWS_APPCONFIG_ENVIRONMENT")
    else if is_nil profile
    then missing (codes "AWS_APPCONFIG_PROFILE")
    else options (record {
      region = aws_region getenv;
      application = application;
      environment = environment;
      profile = profile;
    })

-- The configuration that was compiled, or an error made of the compiler's.
raw_of : (ConfigError → LoadConfigError) → Result ResolvedConfig → LoadedConfig
raw_of refuse (ok r) = loaded_config r.raw
raw_of refuse (failed e) = load_failed (refuse e)

module _ (parse_duration : Text → Option ℤ) (to_lower : Text → Text) (system : System) where
  compiled_file : Option WireConfig → LoadedConfig
  unfolding raw_of
  compiled_file none = load_failed not_decoded
  compiled_file (some wire) =
      raw_of invalid (compile_config parse_duration to_lower (runtime_config wire))

  compiled_aws : Option WireConfig → LoadedConfig
  unfolding raw_of
  compiled_aws none = load_failed aws_not_loaded
  compiled_aws (some wire) =
      raw_of (λ e. aws_invalid) (compile_config parse_duration to_lower (runtime_config wire))

  -- `hosted` is the loader that the factory makes: it fails within its time, or gives a configuration.
  load_with : (AwsConfigOptions → Option WireConfig) → AwsOptions → LoadedConfig
  unfolding compiled_aws
  load_with hosted (missing name) = load_failed (aws_option_required name)
  load_with hosted (options o) = compiled_aws (hosted o)

  unfoldable pub load_aws_config : (AwsConfigOptions → Option WireConfig) → LoadedConfig
  unfolding load_with
  load_aws_config hosted = load_with hosted (aws_config_options_from_env system.getenv)

  of_file : Decoders → ReadResult → LoadedConfig
  unfolding compiled_file
  of_file d not_exist = load_failed not_read
  of_file d read_error = load_failed not_read
  of_file d (read raw) = compiled_file (decode_config d raw)

  module _ (d : Decoders) (F : Files) where
    unfoldable pub load_file_config : Text → F.State → LoadedConfig
    unfolding of_file
    load_file_config path disk =
        if is_nil (trim_space path)
        then load_failed path_required
        else of_file d (F.read_file disk (expand_path system path))

    unfoldable pub load_config_context :
        (AwsConfigOptions → Option WireConfig) → Text → F.State → LoadedConfig
    load_config_context hosted source disk =
        if equal_fold (trim_space source) (codes "aws")
        then load_aws_config hosted
        else load_file_config source disk
