-- ===== src/Authapp/Config.antt =====
-- internal/authapp/config.go: the configuration of the application, and how it comes from its form on
-- the wire, where an `Option` tells whether a field is there. A nil slice and an empty one are `[]`.
use orionis.Base.{Bool, Option, none, some, List, [], if◌then◌else◌, is_nil, is_some}
use orionis.Base.Int.{ℤ, pos}
use orionis.Text.{Text, codes, trim_space}
use orionis.Server.Client.{Client}

pub record KeyConfig : Type 0 where
  pub kid : Text
  pub private_key_path : Text
  pub private_key_pem_env : Text

pub record EndpointRateLimitConfig : Type 0 where
  pub enabled : Option Bool
  pub limit : ℤ
  pub window : Text
  pub limit_set : Bool
  pub window_set : Bool

pub record RateLimitsConfig : Type 0 where
  pub token : EndpointRateLimitConfig
  pub readyz : EndpointRateLimitConfig

pub record Config : Type 0 where
  pub listen : Text
  pub log_level : Text
  pub issuer : Text
  pub base_path : Text
  pub access_token_ttl : Text
  pub active_kid : Text
  pub key : KeyConfig
  pub keys : List KeyConfig
  pub rate_limits : RateLimitsConfig
  pub audit_logs : Option Bool
  pub clients : List Client
  pub legacy_key_set : Bool
  pub keys_set : Bool

pub record WireEndpointRateLimit : Type 0 where
  pub enabled : Option Bool
  pub limit : Option ℤ
  pub window : Option Text

pub record WireRateLimits : Type 0 where
  pub token : WireEndpointRateLimit
  pub readyz : WireEndpointRateLimit

pub record WireConfig : Type 0 where
  pub listen : Text
  pub log_level : Text
  pub issuer : Text
  pub base_path : Text
  pub access_token_ttl : Text
  pub active_kid : Text
  pub key : Option KeyConfig
  pub keys : Option (List KeyConfig)
  pub rate_limits : WireRateLimits
  pub audit_logs : Option Bool
  pub clients : List Client

-- The value of a field, or the zero value of its type.
or_zero {ℓ} : {A : Type ℓ} → A → Option A → A
or_zero zero_value none = zero_value
or_zero zero_value (some v) = v

unfoldable pub runtime_rate_limit : WireEndpointRateLimit → EndpointRateLimitConfig
unfolding or_zero is_some
runtime_rate_limit w = record {
  enabled = w.enabled;
  limit = or_zero (pos 0) w.limit;
  window = or_zero [] w.window;
  limit_set = is_some w.limit;
  window_set = is_some w.window;
}

unfoldable pub runtime_rate_limits : WireRateLimits → RateLimitsConfig
unfolding runtime_rate_limit
runtime_rate_limits w = record {
  token = runtime_rate_limit w.token;
  readyz = runtime_rate_limit w.readyz;
}

unfoldable pub runtime_config : WireConfig → Config
unfolding runtime_rate_limits or_zero is_some
runtime_config w = record {
  listen = w.listen;
  log_level = w.log_level;
  issuer = w.issuer;
  base_path = w.base_path;
  access_token_ttl = w.access_token_ttl;
  active_kid = w.active_kid;
  key = or_zero (record { kid = []; private_key_path = []; private_key_pem_env = [] }) w.key;
  keys = or_zero [] w.keys;
  rate_limits = runtime_rate_limits w.rate_limits;
  audit_logs = w.audit_logs;
  clients = w.clients;
  legacy_key_set = is_some w.key;
  keys_set = is_some w.keys;
}

unfoldable pub listen_addr : Config → Text
listen_addr c = if is_nil (trim_space c.listen) then codes ":8080" else trim_space c.listen
