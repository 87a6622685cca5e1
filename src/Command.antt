-- ===== src/Command.antt =====
-- cmd/orionis-auth/main.go and http_server.go: the command loads its configuration, makes the
-- application of it and serves it.
pub mod Running
use orionis.Base.{
  ℕ, Bool, true, false, not, Option, none, some, List, if◌then◌else◌, is_nil, is_some,
}
use orionis.Arguments.{Arguments, config_path, help, bad_flags, parse_flags}
use orionis.Server.TokenService.{Environment}
use orionis.Authapp.Routes.{AuthRoute}
use orionis.Base.Int.{ℤ}
use orionis.Text.{Text, codes, trim_space, equal_fold}
use orionis.Jwk.Key.{Codec}
use orionis.Jwk.Ed25519.{Files, Crypto}
use orionis.Authapp.Config.{KeyConfig, Config, WireConfig, listen_addr}
use orionis.Authapp.Runtime.{
  ConfigError, LogLevel, debug, info, warn, error, Result, ok, failed, ◌>>=◌, parse_log_level,
}
use orionis.Authapp.Materials.{System}
use orionis.Authapp.Yaml.{Decoders}
use orionis.Authapp.Loading.{
  AwsConfigOptions, LoadConfigError, LoadedConfig, loaded_config, load_failed, load_config_context,
}
use orionis.Authapp.App as App
use orionis.Authapp.App.{
  Made, made, config_refused, signers_refused, server_refused, loader_required, new, mount,
}

-- gin.Default, or gin.New with Recovery.
pub data Engine : Type 0 where
  default_engine recovery_engine : Engine

pub data GinMode : Type 0 where
  debug_mode release_mode : GinMode

-- The server of `newHTTPServer`, with its timeouts in nanoseconds; its handler are the routes.
pub record HttpServer : Type 0 where
  pub addr : Text
  pub engine : Engine
  pub routes : List AuthRoute
  pub read_header_timeout : ℕ
  pub read_timeout : ℕ
  pub write_timeout : ℕ
  pub idle_timeout : ℕ

-- How `run` ends, or the server that it starts, in which mode, and for which application.
pub data Outcome (Clock : Type 0) : Type 0 where
  helped not_parsed : Outcome Clock
  not_loaded : LoadConfigError → Outcome Clock
  bad_level : ConfigError → Outcome Clock
  aws_not_initialized : Outcome Clock
  not_initialized : Made Clock → Outcome Clock
  not_mounted : Outcome Clock
  serving : GinMode → HttpServer → App.Runtime Clock → Outcome Clock

unfoldable pub new_gin_engine : LogLevel → Engine
new_gin_engine debug = default_engine
new_gin_engine info = recovery_engine
new_gin_engine warn = recovery_engine
new_gin_engine error = recovery_engine

unfoldable pub gin_mode : LogLevel → GinMode
gin_mode debug = debug_mode
gin_mode info = release_mode
gin_mode warn = release_mode
gin_mode error = release_mode

unfoldable pub new_http_server : Text → Engine → List AuthRoute → HttpServer
new_http_server addr engine routes = record {
  addr = addr;
  engine = engine;
  routes = routes;
  read_header_timeout = 5_000_000_000;
  read_timeout = 15_000_000_000;
  write_timeout = 15_000_000_000;
  idle_timeout = 60_000_000_000;
}

unfoldable pub getenv_or : (Text → Text) → Text → Text → Text
getenv_or getenv key fallback = if not (is_nil (getenv key)) then getenv key else fallback

-- The value of the flag -config, where it is not given.
unfoldable pub default_source : (Text → Text) → Text
default_source getenv =
    getenv_or getenv (codes "ORIONIS_CONFIG") (codes "config/orionis.example.json")

-- `configureRuntimeMode`, whose level is that of the handler of slog too.
unfoldable pub configure_runtime_mode : (Text → Text) → Text → Result (LogLevel × GinMode)
configure_runtime_mode to_lower log_level =
    parse_log_level to_lower log_level >>= λ level. ok (level, gin_mode level)

module _ {Clock : Type 0} where
  -- An error of `New`; that of a configuration of AWS is masked.
  refused : Text → Made Clock → Outcome Clock
  refused source m =
      if equal_fold (trim_space source) (codes "aws")
      then aws_not_initialized
      else not_initialized m

  mounted :
      Config → LogLevel → GinMode → App.Runtime Clock → Option (List AuthRoute) → Outcome Clock
  mounted cfg level mode app none = not_mounted
  mounted cfg level mode app (some routes) =
      serving mode (new_http_server (listen_addr cfg) (new_gin_engine level) routes) app

module _ {Clock : Type 0} (join_paths : Text → Text → Text) (sum256 : Text → List ℕ) where
  serve : Text → Config → LogLevel × GinMode → Made Clock → Outcome Clock
  unfolding refused mounted
  serve source cfg (level, mode) (made app) =
      mounted cfg level mode app (mount join_paths sum256 (some app) true)
  serve source cfg level (config_refused e) = refused source (config_refused e)
  serve source cfg level (signers_refused e) = refused source (signers_refused e)
  serve source cfg level (server_refused e) = refused source (server_refused e)
  serve source cfg level loader_required = refused source loader_required

  module _ (system_clock : Clock) (crypto : Crypto) (codec : Codec) (system : System) (F : Files)
      (generated : KeyConfig → Option (List ℕ)) (parse_duration : Text → Option ℤ)
      (to_lower : Text → Text) where
    at_level : Text → Config → Result (LogLevel × GinMode) → F.State → Outcome Clock × F.State
    unfolding serve
    at_level source cfg (failed e) disk = (bad_level e, disk)
    at_level source cfg (ok level) disk =
        let r = new system_clock crypto codec system F generated parse_duration to_lower cfg disk in
        (serve source cfg level r.0, r.1)

    configured : Text → LoadedConfig → F.State → Outcome Clock × F.State
    unfolding at_level
    configured source (load_failed e) disk = (not_loaded e, disk)
    configured source (loaded_config cfg) disk =
        at_level source cfg (configure_runtime_mode to_lower cfg.log_level) disk

    module _ (d : Decoders) (hosted : AwsConfigOptions → Option WireConfig) where
      parsed : Arguments → F.State → Outcome Clock × F.State
      unfolding configured
      parsed help disk = (helped, disk)
      parsed bad_flags disk = (not_parsed, disk)
      parsed (config_path source) disk =
          configured source
            (load_config_context parse_duration to_lower system d F hosted source disk) disk

      -- `run`, up to the start of the HTTP server.
      unfoldable pub run : List Text → F.State → Outcome Clock × F.State
      unfolding parsed
      run args disk = parsed (parse_flags false (default_source system.getenv) args) disk

-- How the goroutine of `serveHTTPServer` ends: with nil, http.ErrServerClosed or another error.
pub data Ended (E : Type 0) : Type 0 where
  no_error server_closed : Ended E
  ended : E → Ended E

-- What happens first: the end of the context, with the result of Shutdown and that of the server behind
-- it, or the end of the server.
pub data Event (E : Type 0) : Type 0 where
  canceled : Option E → Ended E → Event E
  stopped : Ended E → Event E

module _ {E : Type 0} where
  unless_closed : Ended E → Option E
  unless_closed no_error = none
  unless_closed server_closed = none
  unless_closed (ended e) = some e

  unfoldable pub serve_http_server : Event E → Option E
  unfolding unless_closed
  serve_http_server (canceled (some e) r) = some e
  serve_http_server (canceled none r) = unless_closed r
  serve_http_server (stopped r) = unless_closed r

  -- The exit status of `main`, where the server that is started ends by the event.
  unfoldable pub exit_status : {Clock : Type 0} → Event E → Outcome Clock → ℕ
  exit_status event helped = 0
  exit_status event not_parsed = 1
  exit_status event (not_loaded e) = 1
  exit_status event (bad_level e) = 1
  exit_status event aws_not_initialized = 1
  exit_status event (not_initialized m) = 1
  exit_status event not_mounted = 1
  exit_status event (serving mode server app) = if is_some (serve_http_server event) then 1 else 0
