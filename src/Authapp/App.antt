-- ===== src/Authapp/App.antt =====
-- internal/authapp/app.go: the application is made of a configuration, its server and its signers.
pub mod Starting
pub mod Restarting
use orionis.Base.{ℕ, Bool, true, false, Option, none, some, List, map, length}
use orionis.Base.Int.{ℤ}
use orionis.Text.{Text}
use orionis.Jwk.Key.{Codec}
use orionis.Jwk.Ed25519.{Files, Crypto}
use orionis.Server.Config.{Signer, Server, Built, built, build_failed}
use orionis.Server.Config
use orionis.Server.TokenService.{Environment}
use orionis.Authapp.Routes.{AuthRoute, mount_auth_routes}
use orionis.Authapp.Config.{KeyConfig}
use orionis.Authapp.Config as Wire
use orionis.Authapp.Runtime.{ConfigError, ResolvedConfig, Result, ok, failed, compile_config}
use orionis.Authapp.Signing.{
  LoadError, SignerLoader, Started, not_started, started, start_server, effective_active_kid,
}
use orionis.Authapp.Materials.{System, resolve_config, load_signer}

pub record Runtime (Clock : Type 0) : Type 0 where
  pub cfg : ResolvedConfig
  pub auth : Server Clock
  pub signers : List Signer

-- A runtime, or the error of one of the steps to it.
pub data Made (Clock : Type 0) : Type 0 where
  made : Runtime Clock → Made Clock
  config_refused : ConfigError → Made Clock
  signers_refused : LoadError → Made Clock
  server_refused : Config.ConfigError → Made Clock
  loader_required : Made Clock

module _ {Clock : Type 0} where
  with_server : ResolvedConfig → List Signer → Built Clock → Made Clock
  with_server cfg signers (build_failed e) = server_refused e
  with_server cfg signers (built auth) = made (record { cfg = cfg; auth = auth; signers = signers })

  made_of : ResolvedConfig → Started Clock → Made Clock
  made_of cfg (not_started e) = signers_refused e
  made_of cfg (started server signers) = with_server cfg signers server

  unfoldable pub active_kid : Runtime Clock → Text
  active_kid r = effective_active_kid r.cfg.raw.active_kid (map some r.signers)

  -- `Mount` on an engine that is nil or not; what is mounted are the routes.
  unfoldable pub mount :
      (Text → Text → Text)
      → (Text → List ℕ)
      → Option (Runtime Clock)
      → Bool
      → Option (List AuthRoute)
  mount join_paths sum256 none has_engine = none
  mount join_paths sum256 (some r) false = none
  mount join_paths sum256 (some r) true = some (mount_auth_routes join_paths sum256 r.auth r.cfg)

  unfoldable pub signer_count : Runtime Clock → ℕ
  signer_count r = length r.signers

module _ {Clock : Type 0} (system_clock : Clock) where
  unfoldable pub new_runtime : {S : Type 0} → ResolvedConfig → SignerLoader S → S → Made Clock × S
  unfolding made_of with_server
  new_runtime resolved load st =
      let r = start_server system_clock load resolved st in (made_of resolved r.0, r.1)

  of_resolved : {S : Type 0} → Result ResolvedConfig → SignerLoader S → S → Made Clock × S
  of_resolved (failed e) load st = (config_refused e, st)
  of_resolved (ok resolved) load st = new_runtime resolved load st

  unfoldable pub new_with_signer_loader :
      {S : Type 0}
      → (Text → Option ℤ)
      → (Text → Text)
      → Wire.Config
      → Option (SignerLoader S)
      → S
      → Made Clock × S
  unfolding of_resolved
  new_with_signer_loader parse_duration to_lower cfg none st = (loader_required, st)
  new_with_signer_loader parse_duration to_lower cfg (some load) st =
      of_resolved (compile_config parse_duration to_lower cfg) load st

  unfoldable pub new :
      (crypto : Crypto) (codec : Codec) (system : System) (F : Files)
      → (KeyConfig → Option (List ℕ))
      → (Text → Option ℤ)
      → (Text → Text)
      → Wire.Config
      → F.State
      → Made Clock × F.State
  unfolding of_resolved
  new crypto codec system F generated parse_duration to_lower cfg disk =
      of_resolved (resolve_config crypto system F parse_duration to_lower disk cfg)
        (load_signer crypto codec system F generated) disk
