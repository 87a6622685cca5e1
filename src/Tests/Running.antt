-- ===== src/Tests/Running.antt =====
-- An application that is configured with one key and one client, and a router with a route of its own.
use orionis.Base.{
  ℕ, ◌≡◌, refl, ◌+◌, subst, inl, true, false, Option, none, some, List, [], ◌∷◌, arith, is_nil,
  is_some,
}
use orionis.Base.Int.{ℤ, pos}
use orionis.Text.{Text, codes, trim_space, cut_prefix, contains_by, is_space, is_control}
use orionis.Server.Client.{normalize}
use orionis.Authapp.Config.{KeyConfig, EndpointRateLimitConfig, Config}
use orionis.Authapp.Runtime
use orionis.Authapp.Runtime.{ResolvedConfig, Result, ok, compile_config}
use orionis.Authapp.Runtime.Compiled.{IsCompiled, compile_config-IsCompiled}
use orionis.Authapp.Signing.{
  Loading, SignerLoader, Loaded, loaded, Started, started, start_server, load_signing_keys,
}
use orionis.Authapp.Signing as Signing
use orionis.Authapp.Signing.Starting.{IsNaming}
use orionis.Ginorion.Routes.{
  health_handler, other_handler, Route, Router, mounted, mount_compatible_get, get, is_ready_path,
  split_path, trim_slash, starts_with,
}
use orionis.Ginorion.Routes.Matching.{Matches, mount_compatible_get-owned}
use orionis.Tests.Issuing.{shop}
use orionis.Tests.Serving as Serving

abbrev pub key : KeyConfig
key = record { kid = codes "k1"; private_key_path = codes "key.pem"; private_key_pem_env = [] }

abbrev pub no_limit : EndpointRateLimitConfig
no_limit = record {
  enabled = none;
  limit = pos 0;
  window = [];
  limit_set = false;
  window_set = false;
}

abbrev pub config : Config
config = record {
  listen = [];
  log_level = codes "info";
  issuer = codes " https://auth/";
  base_path = [];
  access_token_ttl = [];
  active_kid = codes "k1";
  key = key;
  keys = key ∷ [];
  rate_limits = record { token = no_limit; readyz = no_limit };
  audit_logs = none;
  clients = shop ∷ [];
  legacy_key_set = false;
  keys_set = true;
}

abbrev pub ready : ResolvedConfig
ready = record {
  raw = record config { issuer = codes "https://auth"; clients = normalize shop ∷ [] };
  log_level = Runtime.info;
  access_token_ttl = pos 900_000_000_000;
  base_path = [];
  token_limit = record { enabled = true; limit = pos 60; window = pos 60_000_000_000 };
  readyz_limit = record { enabled = true; limit = pos 300; window = pos 60_000_000_000 };
  audit_enabled = true;
}

-- No duration is parsed here.
abbrev pub parse_duration : Text → Option ℤ
parse_duration text = none

abbrev load : SignerLoader ℕ
load st k = (Signing.signer (some Serving.signer), st + 1)

-- What compiling and loading compute with.
unfoldable pub compiling : ℕ → ℕ
unfolding Serving.serve compile_config Runtime.parse_duration_default
    Runtime.normalize_runtime_config Runtime.parse_log_level Runtime.normalize_base_path
    Runtime.normalize_rate_limit Runtime.validate_clients Runtime.check_clients Runtime.check_client
    Runtime.bool_default Runtime.effective_key_configs Runtime.normalize_key_config
    Runtime.resolved_of Runtime.validate_key_source_config Runtime.validate_signing_config
    contains_by is_control is_space load_signing_keys
compiling n = n

pub compiled : compile_config parse_duration (λ s. s) config ≡ ok ready
unfolding compiling
compiled = refl

compile_config-IsCompiled_example : IsCompiled config ready
compile_config-IsCompiled_example =
    compile_config-IsCompiled parse_duration (λ s. s) config ready compiled

load-IsNaming : IsNaming load
unfolding compiling
load-IsNaming st k s e =
    let same : Serving.signer ≡ s = ground arith in
    subst (λ x. is_nil (trim_space x.key_id) ≡ false) same refl

abbrev own : Route
own = record { method = get; path = codes "/:page"; handler = other_handler }

abbrev router : Router
router = record { routes = own ∷ []; lists_routes = true; is_engine = true; fallbacks = [] }

abbrev clash : List Route → Route → Option Text
clash routes route = some (codes "conflicts with existing wildcard")

mount_compatible_get-owned_example :
    mount_compatible_get clash router (codes "/readyz") health_handler ≡ mounted router
unfolding is_ready_path cut_prefix contains_by is_some is_control is_space split_path trim_slash
    starts_with
mount_compatible_get-owned_example =
    mount_compatible_get-owned clash router (codes "/readyz") health_handler refl refl
      (inl (refl, Matches.one refl (λ z. ground arith) Matches.done))
