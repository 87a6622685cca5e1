-- ===== src/Server/Config.antt =====
-- server/config.go, server/server.go and server/signer.go: how a server is set up. A builder that may
-- be nil is an `Option`, and so is a signer or a store of the configuration. `Clock` stands for the
-- type of `Now`. `cloneConfig` copies slices; values do not change here, so it has no definition.
pub mod Builder
pub mod Signing
pub mod Building
pub mod Accepting
use orionis.Base.{
  ℕ, ◌≡◌, refl, Bool, true, false, not, ◌&&◌, ◌||◌, Option, none, some, List, [], ◌∷◌, ◌++◌, map,
  if◌then◌else◌, is_nil, is_some, first_error,
}
use orionis.Base.Int.{ℤ, pos, leb_ℤ, ltb_ℤ}
use orionis.Text.{Text, codes, text_eq, trim_space, trim_right_slash, contains}
use orionis.Claims.{Claims}
use orionis.Jwk.Key.{Key}
use orionis.Server.Client.{Client, ClientError, normalize, validate}
use orionis.Server.Store.{ClientStore, find_client, new_memory_client_store}
use orionis.Server.TokenService.{TokenService}

-- The interface `Signer`; `sign` answers `none` for an error.
pub record Signer : Type 0 where
  pub key_id : Text
  pub algorithm : Text
  pub sign : Claims → Option Text
  pub public_jwk : Key

pub record Config (Clock : Type 0) : Type 0 where
  pub issuer : Text
  pub store : Option ClientStore
  pub signers : List (Option Signer)
  pub active_kid : Text
  pub access_token_ttl : ℤ
  pub max_token_request_body : ℤ
  pub now : Option Clock
  pub clients : List Client

abbrev pub default_access_token_ttl : ℤ
default_access_token_ttl = pos 900_000_000_000

abbrev pub default_max_token_request_body : ℤ
default_max_token_request_body = pos 1_048_576

-- A server; its token service signs with `active_signer` and reads the clock `now`.
pub record Server (Clock : Type 0) : Type 0 where
  pub issuer : Text
  pub max_token_request_body : ℤ
  pub signers : List (Option Signer)
  pub active_signer : Signer
  pub now : Clock
  pub tokens : TokenService

pub data ConfigError : Type 0 where
  issuer_required signers_required nil_signer kid_required active_not_added : ConfigError
  store_and_clients no_store nil_builder : ConfigError
  duplicate_kid duplicate_client : Text → ConfigError
  bad_client : ClientError → ConfigError

-- What the loop over the signers finds: the active signer, if any.
pub data Scan : Type 0 where
  scanned : Option Signer → Scan
  scan_failed : ConfigError → Scan

pub data Checked : Type 0 where
  active_is : Signer → Checked
  config_failed : ConfigError → Checked

pub data Built (Clock : Type 0) : Type 0 where
  built : Server Clock → Built Clock
  build_failed : ConfigError → Built Clock

pub scan_signers : Text → List Text → Option Signer → List (Option Signer) → Scan
scan_signers active_kid seen active [] = scanned active
scan_signers active_kid seen active (none ∷ signers) = scan_failed nil_signer
scan_signers active_kid seen active (some signer ∷ signers) =
    let kid = trim_space signer.key_id in
    let found = if text_eq active_kid kid then some signer else active in
    let rest = scan_signers active_kid (kid ∷ seen) found signers in
    if is_nil kid
    then scan_failed kid_required
    else if contains seen kid
    then scan_failed (duplicate_kid kid)
    else rest

-- The signer that is used: the active one, or the first. There is a first one here, and it is not nil.
choose_active : Text → Option Signer → List (Option Signer) → Checked
choose_active active_kid (some signer) signers = active_is signer
choose_active active_kid none [] = config_failed signers_required
choose_active active_kid none (none ∷ signers) = config_failed nil_signer
choose_active active_kid none (some signer ∷ signers) =
    if not (is_nil active_kid) then config_failed active_not_added else active_is signer

pub choose_scanned : Text → List (Option Signer) → Scan → Checked
choose_scanned active_kid signers (scan_failed e) = config_failed e
choose_scanned active_kid signers (scanned active) = choose_active active_kid active signers

unfoldable pub check_client : Client → Option ConfigError
check_client client = elim (validate client) [ none ↦ none | some e ↦ some (bad_client e) ]

unfoldable pub check_clients : List Text → List Client → Option ConfigError
check_clients seen [] = none
check_clients seen (client ∷ clients) = first_error (check_client client) (
    if contains seen client.id
    then some (duplicate_client client.id)
    else check_clients (client.id ∷ seen) clients)

unless_failed : Option ConfigError → Signer → Checked
unless_failed none signer = active_is signer
unless_failed (some e) signer = config_failed e

unless_config : Checked → Option ConfigError → Checked
unless_config (config_failed e) o = config_failed e
unless_config (active_is signer) o = unless_failed o signer

positive_or : ℤ → ℤ → ℤ
positive_or value fallback = if leb_ℤ value (pos 0) then fallback else value

store_or : Option ClientStore → List Client → ClientStore
store_or (some store) clients = store
store_or none clients = find_client (new_memory_client_store clients)

module _ {Clock : Type 0} where
  -- The tests of `validateConfig` behind the choice of the signer.
  check_store : Config Clock → Option ConfigError
  check_store cfg =
      if is_some cfg.store && not (is_nil cfg.clients)
      then some store_and_clients
      else if not (is_some cfg.store) && is_nil cfg.clients
      then some no_store
      else check_clients [] cfg.clients

  unfoldable pub validate_config : Config Clock → Checked
  unfolding unless_config unless_failed choose_scanned choose_active scan_signers check_store
      check_clients check_client
  validate_config cfg =
      if is_nil cfg.issuer
      then config_failed issuer_required
      else if is_nil cfg.signers
      then config_failed signers_required
      else unless_config
          (choose_scanned cfg.active_kid cfg.signers
            (scan_signers cfg.active_kid [] none cfg.signers))
          (check_store cfg)

  clock_or : Option Clock → Clock → Clock
  clock_or none fallback = fallback
  clock_or (some now) fallback = now

  -- `system_clock` is `time.Now`.
  unfoldable pub normalize_config : Clock → Config Clock → Config Clock
  unfolding positive_or clock_or
  normalize_config system_clock cfg = record cfg {
    issuer = trim_right_slash (trim_space cfg.issuer);
    active_kid = trim_space cfg.active_kid;
    access_token_ttl = positive_or cfg.access_token_ttl default_access_token_ttl;
    max_token_request_body = positive_or cfg.max_token_request_body default_max_token_request_body;
    now = some (clock_or cfg.now system_clock);
    clients = map normalize cfg.clients;
  }

  server_of : Clock → Config Clock → Signer → Server Clock
  server_of system_clock cfg active_signer = record {
    issuer = cfg.issuer;
    max_token_request_body = cfg.max_token_request_body;
    signers = cfg.signers;
    active_signer = active_signer;
    now = clock_or cfg.now system_clock;
    tokens = record {
      issuer = cfg.issuer;
      store = store_or cfg.store cfg.clients;
      access_token_ttl = cfg.access_token_ttl;
    };
  }

  finish : Clock → Config Clock → Checked → Built Clock
  finish system_clock cfg (config_failed e) = build_failed e
  finish system_clock cfg (active_is signer) = built (server_of system_clock cfg signer)

  unfoldable pub build_server : Clock → Config Clock → Built Clock
  unfolding finish server_of store_or clock_or
  build_server system_clock input =
      let cfg = normalize_config system_clock input in finish system_clock cfg (validate_config cfg)
