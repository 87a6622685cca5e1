-- ===== src/Client/Config.antt =====
-- client/config.go: the configuration of a provider and its builder, which may be nil.
pub mod Building
use orionis.Base.{
  ℕ, ◌≡◌, refl, Bool, true, false, Option, none, some, List, [], ◌∷◌, ◌++◌, if◌then◌else◌, is_nil,
}
use orionis.Base.Int.{ℤ, pos, leb_ℤ, ltb_ℤ}
use orionis.Text.{Text, trim_space}
use orionis.Scopes.{normalize_scopes}
use orionis.Client.Requests.{Authenticator, ClientSecretBasic, authenticate}
use orionis.Client.Cache.{new_cache}
use orionis.Client.Provider.{Provider, Transport, or_default, provider_http_client}

-- 60 s, in nanoseconds.
abbrev pub default_refresh_skew : ℤ
default_refresh_skew = pos 60_000_000_000

abbrev pub default_token_http_timeout : ℤ
default_token_http_timeout = pos 10_000_000_000

pub record Config (H : Type 0) : Type 0 where
  pub token_url : Text
  pub client_id : Text
  pub client_secret : Text
  pub audience : Text
  pub scopes : List Text
  pub http_client : Option H
  pub authenticator : Option Authenticator
  pub refresh_skew : ℤ

pub data BuildError : Type 0 where
  nil_builder token_url_required : BuildError

pub data Built (A : Type 0) : Type 0 where
  built : A → Built A
  not_built : BuildError → Built A

-- The authenticator that is given, or that of the credentials.
or_authenticator : Text → Text → Option Authenticator → Authenticator
or_authenticator id secret none = authenticate (record { client_id = id; client_secret = secret })
or_authenticator id secret (some a) = a

module _ {H : Type 0} where
  unfoldable pub new : Option (Config H)
  new = some (record {
    token_url = [];
    client_id = [];
    client_secret = [];
    audience = [];
    scopes = [];
    http_client = none;
    authenticator = none;
    refresh_skew = pos 0;
  })

  unfoldable pub from_config : Config H → Option (Config H)
  from_config cfg = some cfg

  unfoldable pub set_token_url : Option (Config H) → Text → Option (Config H)
  set_token_url none url = none
  set_token_url (some b) url = some (record b { token_url = trim_space url })

  unfoldable pub set_client_secret : Option (Config H) → Text → Text → Option (Config H)
  set_client_secret none id secret = none
  set_client_secret (some b) id secret =
      some (record b { client_id = trim_space id; client_secret = secret })

  unfoldable pub set_audience : Option (Config H) → Text → Option (Config H)
  set_audience none audience = none
  set_audience (some b) audience = some (record b { audience = trim_space audience })

  unfoldable pub add_scopes : Option (Config H) → List Text → Option (Config H)
  add_scopes none scopes = none
  add_scopes (some b) scopes = some (record b { scopes = b.scopes ++ scopes })

  unfoldable pub set_for : Option (Config H) → Text → List Text → Option (Config H)
  set_for b audience scopes = add_scopes (set_audience b audience) scopes

  unfoldable pub set_token_http_client : Option (Config H) → Option H → Option (Config H)
  set_token_http_client none hc = none
  set_token_http_client (some b) hc = some (record b { http_client = hc })

  unfoldable pub set_authenticator : Option (Config H) → Option Authenticator → Option (Config H)
  set_authenticator none a = none
  set_authenticator (some b) none = some b
  set_authenticator (some b) (some a) = some (record b { authenticator = some a })

  unfoldable pub set_refresh_skew : Option (Config H) → ℤ → Option (Config H)
  set_refresh_skew none skew = none
  set_refresh_skew (some b) skew =
      if ltb_ℤ (pos 0) skew then some (record b { refresh_skew = skew }) else some b

  -- `default_client` makes an HTTP client with the timeout that it is given.
  unfoldable pub normalize_config : (ℤ → H) → Config H → Built (Config H)
  unfolding or_authenticator
  normalize_config default_client raw =
      let id = trim_space raw.client_id in
      if is_nil (trim_space raw.token_url)
      then not_built token_url_required
      else built (record {
        token_url = trim_space raw.token_url;
        client_id = id;
        client_secret = raw.client_secret;
        audience = trim_space raw.audience;
        scopes = normalize_scopes raw.scopes;
        http_client = some (or_default (default_client default_token_http_timeout) raw.http_client);
        authenticator = some (or_authenticator id raw.client_secret raw.authenticator);
        refresh_skew =
            if leb_ℤ raw.refresh_skew (pos 0) then default_refresh_skew else raw.refresh_skew;
      })

  new_provider : Config H → Provider H
  new_provider cfg = record {
    token_url = cfg.token_url;
    audience = cfg.audience;
    scopes = cfg.scopes;
    http_client = cfg.http_client;
    authenticator = cfg.authenticator;
    tokens = new_cache cfg.refresh_skew;
  }

  provider_of : Built (Config H) → Built (Provider H)
  unfolding new_provider
  provider_of (not_built e) = not_built e
  provider_of (built cfg) = built (new_provider cfg)

  unfoldable pub build_provider : (ℤ → H) → Config H → Built (Provider H)
  unfolding normalize_config provider_of
  build_provider default_client raw = provider_of (normalize_config default_client raw)

  unfoldable pub build : (ℤ → H) → Option (Config H) → Built (Provider H)
  build default_client none = not_built nil_builder
  build default_client (some cfg) = build_provider default_client cfg

module _ {H B : Type 0} where
  client_of : Option (Option B) → Option B → Built (Provider H) → Built (Transport H B)
  client_of base default_base (not_built e) = not_built e
  client_of base default_base (built p) = built (provider_http_client (some p) base default_base)

  -- The transport of the HTTP client that is built.
  unfoldable pub build_http_client :
      (ℤ → H) → Option (Config H) → Option (Option B) → Option B → Built (Transport H B)
  unfolding client_of
  build_http_client default_client b base default_base =
      client_of base default_base (build default_client b)
