-- ===== src/Authapp/Runtime.antt =====
-- internal/authapp/runtime_config.go: the configuration is normalised and validated. `to_lower` is
-- strings.ToLower, and `parse_duration` is time.ParseDuration, `none` for an error.
pub mod Compiled
pub mod Again
use orionis.Base.{
  ℕ, ◌≡◌, refl, Bool, true, false, not, ◌&&◌, ◌||◌, Option, none, some, List, [], ◌∷◌, ◌++◌, map,
  if◌then◌else◌, is_nil, is_some, ◌==◌, ltb, leb, first_error,
}
use orionis.Base.Int.{ℤ, pos, leb_ℤ, ltb_ℤ}
use orionis.Text.{
  Text, codes, text_eq, trim_space, trim_right_slash, cut_prefix, contains, contains_by, is_space,
  is_control,
}
use orionis.Server.Client.{Client, ClientError, normalize, validate}
use orionis.Authapp.Config.{KeyConfig, EndpointRateLimitConfig, RateLimitsConfig, Config}

abbrev pub default_token_rate_limit : ℤ
default_token_rate_limit = pos 60

abbrev pub default_readyz_rate_limit : ℤ
default_readyz_rate_limit = pos 300

-- One minute, fifteen minutes and one second, in nanoseconds.
abbrev pub default_rate_limit_window : ℤ
default_rate_limit_window = pos 60_000_000_000

abbrev pub default_access_token_ttl : ℤ
default_access_token_ttl = pos 900_000_000_000

abbrev second : ℤ
second = pos 1_000_000_000

pub data LogLevel : Type 0 where
  debug info warn error : LogLevel

pub record EffectiveRateLimit : Type 0 where
  pub enabled : Bool
  pub limit : ℤ
  pub window : ℤ

pub record ResolvedConfig : Type 0 where
  pub raw : Config
  pub log_level : LogLevel
  pub access_token_ttl : ℤ
  pub base_path : Text
  pub token_limit : EffectiveRateLimit
  pub readyz_limit : EffectiveRateLimit
  pub audit_enabled : Bool

pub data ConfigError : Type 0 where
  bad_duration ttl_not_positive ttl_too_short bad_log_level bad_base_path : ConfigError
  limit_not_positive window_empty window_not_positive issuer_required : ConfigError
  pem_env_empty pem_env_invalid key_path_invalid key_path_unreadable : ConfigError
  client_required key_and_keys keys_empty kid_required active_kid_unknown two_sources : ConfigError
  bad_client : ClientError → ConfigError
  duplicate_client duplicate_kid : Text → ConfigError

pub data Result (A : Type 0) : Type 0 where
  ok : A → Result A
  failed : ConfigError → Result A

infixl 5 ◌>>=◌ ◌>>◌
abbrev pub ◌>>=◌ : {A B : Type 0} → Result A → (A → Result B) → Result B
ok a >>= f = f a
failed e >>= f = failed e

-- A check answers its error, if any.
abbrev pub ◌>>◌ : {B : Type 0} → Option ConfigError → Result B → Result B
none >> k = k
some e >> k = failed e

unfoldable pub bool_default : Option Bool → Bool → Bool
bool_default none fallback = fallback
bool_default (some value) fallback = value

unfoldable pub normalize_key_config : KeyConfig → KeyConfig
normalize_key_config cfg = record {
  kid = trim_space cfg.kid;
  private_key_path = trim_space cfg.private_key_path;
  private_key_pem_env = trim_space cfg.private_key_pem_env;
}

trim_window : EndpointRateLimitConfig → EndpointRateLimitConfig
trim_window l = record l { window = trim_space l.window }

unfoldable pub normalize_runtime_config : Config → Config
unfolding trim_window
normalize_runtime_config cfg = record cfg {
  listen = trim_space cfg.listen;
  log_level = trim_space cfg.log_level;
  issuer = trim_right_slash (trim_space cfg.issuer);
  base_path = trim_space cfg.base_path;
  access_token_ttl = trim_space cfg.access_token_ttl;
  active_kid = trim_space cfg.active_kid;
  key = normalize_key_config cfg.key;
  keys = map normalize_key_config cfg.keys;
  clients = map normalize cfg.clients;
  rate_limits = record {
    token = trim_window cfg.rate_limits.token;
    readyz = trim_window cfg.rate_limits.readyz;
  };
}

unfoldable pub check_client : Client → Option ConfigError
check_client client = elim (validate client) [ none ↦ none | some e ↦ some (bad_client e) ]

-- The loop of `validateClients`; `seen` is the map.
unfoldable pub check_clients : List Text → List Client → Option ConfigError
check_clients seen [] = none
check_clients seen (client ∷ clients) =
    let rest = check_clients (client.id ∷ seen) clients in
    first_error (check_client client)
      (if contains seen client.id then some (duplicate_client client.id) else rest)

unfoldable pub validate_clients : List Client → Option ConfigError
unfolding check_clients check_client
validate_clients clients = if is_nil clients then some client_required else check_clients [] clients

-- The `switch` on the level, in lower case.
level_of : Text → Result LogLevel
level_of name =
    if is_nil name || text_eq name (codes "info")
    then ok info
    else if text_eq name (codes "debug")
    then ok debug
    else if text_eq name (codes "warn")
    then ok warn
    else if text_eq name (codes "error")
    then ok error
    else failed bad_log_level

unfoldable pub parse_log_level : (Text → Text) → Text → Result LogLevel
unfolding level_of
parse_log_level to_lower log_level = level_of (trim_space (to_lower log_level))

unfoldable pub legacy_key_id : KeyConfig → Text
legacy_key_id cfg =
    if is_nil (trim_space cfg.kid) then codes "orionis-ed25519-1" else trim_space cfg.kid

-- The loop over the keys, and the test of the active key id behind it.
unfoldable pub check_kids : Text → List Text → List KeyConfig → Option ConfigError
check_kids active_kid seen [] =
    if is_nil active_kid || contains seen active_kid then none else some active_kid_unknown
check_kids active_kid seen (key ∷ keys) =
    let kid = trim_space key.kid in
    let rest = check_kids active_kid (kid ∷ seen) keys in
    if is_nil kid
    then some kid_required
    else if contains seen kid
    then some (duplicate_kid kid)
    else rest

unfoldable pub validate_signing_config : Config → Option ConfigError
unfolding check_kids
validate_signing_config cfg =
    let active_kid = trim_space cfg.active_kid in
    if cfg.legacy_key_set && cfg.keys_set
    then some key_and_keys
    else if cfg.keys_set || not (is_nil cfg.keys)
    then (if is_nil cfg.keys then some keys_empty else check_kids active_kid [] cfg.keys)
    else if not (is_nil active_kid) && not (text_eq active_kid (legacy_key_id cfg.key))
    then some active_kid_unknown
    else none

unfoldable pub validate_key_source_config : List KeyConfig → Option ConfigError
validate_key_source_config [] = none
validate_key_source_config (key ∷ keys) =
    if not (is_nil (trim_space key.private_key_path))
      && not (is_nil (trim_space key.private_key_pem_env))
    then some two_sources
    else validate_key_source_config keys

unfoldable pub effective_key_configs : Config → List KeyConfig
effective_key_configs cfg = if cfg.keys_set || not (is_nil cfg.keys) then cfg.keys else cfg.key ∷ []

-- `strings.Contains(s, "//")`
has_empty_segment : Text → Bool
has_empty_segment [] = false
has_empty_segment (c ∷ s) = is_some (cut_prefix (c ∷ s) (codes "//")) || has_empty_segment s

with_slash : Text → Text
with_slash path = elim (cut_prefix path (codes "/")) [ some rest ↦ path | none ↦ b'/' ∷ path ]

-- What no static path holds: `:*?#`, control characters and white space.
is_dynamic : ℕ → Bool
is_dynamic c = c == b':' || c == b'*' || c == b'?' || c == b'#' || is_control c || is_space c

static_path : Text → Result Text
static_path path =
    if has_empty_segment path || contains_by is_dynamic path then failed bad_base_path else ok path

unfoldable pub normalize_base_path : Text → Result Text
unfolding static_path with_slash has_empty_segment is_dynamic
normalize_base_path value =
    let path = trim_space value in
    if is_nil path || text_eq path (codes "/")
    then ok []
    else static_path (trim_right_slash (with_slash path))

parsed : Option ℤ → Result ℤ
parsed none = failed bad_duration
parsed (some d) = ok d

limit_of : EndpointRateLimitConfig → ℤ → Result ℤ
limit_of cfg default_limit =
    if not (cfg.limit_set || ltb_ℤ cfg.limit (pos 0) || ltb_ℤ (pos 0) cfg.limit)
    then ok default_limit
    else if leb_ℤ cfg.limit (pos 0)
    then failed limit_not_positive
    else ok cfg.limit

positive_window : ℤ → Result ℤ
positive_window d = if leb_ℤ d (pos 0) then failed window_not_positive else ok d

-- The flags of presence are cleared.
unset : EndpointRateLimitConfig → EndpointRateLimitConfig
unset l = record l { limit_set = false; window_set = false }

unfoldable pub resolved_of :
    Config → ℤ → LogLevel → Text → EffectiveRateLimit → EffectiveRateLimit → ResolvedConfig
unfolding unset
resolved_of cfg ttl log_level base_path token_limit readyz_limit = record {
  raw = record cfg {
    base_path = base_path;
    rate_limits = record {
      token = unset cfg.rate_limits.token;
      readyz = unset cfg.rate_limits.readyz;
    };
  };
  log_level = log_level;
  access_token_ttl = ttl;
  base_path = base_path;
  token_limit = token_limit;
  readyz_limit = readyz_limit;
  audit_enabled = bool_default cfg.audit_logs true;
}

pub check_ttl : ℤ → Option ConfigError
check_ttl ttl =
    if leb_ℤ ttl (pos 0)
    then some ttl_not_positive
    else if ltb_ℤ ttl second
    then some ttl_too_short
    else none

pub check_issuer : Text → Option ConfigError
check_issuer issuer = if is_nil issuer then some issuer_required else none

module _ (parse_duration : Text → Option ℤ) where
  unfoldable pub parse_duration_default : Text → ℤ → Result ℤ
  unfolding parsed
  parse_duration_default value fallback =
      if is_nil (trim_space value) then ok fallback else parsed (parse_duration value)

  window_of : EndpointRateLimitConfig → ℤ → Result ℤ
  unfolding positive_window parsed
  window_of cfg default_window =
      if not (cfg.window_set || not (is_nil cfg.window))
      then ok default_window
      else if is_nil cfg.window
      then failed window_empty
      else (parsed (parse_duration cfg.window) >>= positive_window)

  unfoldable pub normalize_rate_limit : EndpointRateLimitConfig → ℤ → ℤ → Result EffectiveRateLimit
  unfolding limit_of window_of
  normalize_rate_limit cfg default_limit default_window = do
    limit ← limit_of cfg default_limit
    window ← window_of cfg default_window
    ok (record { enabled = bool_default cfg.enabled true; limit = limit; window = window })

  unfoldable pub compile_config : (Text → Text) → Config → Result ResolvedConfig
  unfolding check_ttl check_issuer resolved_of
  compile_config to_lower input = do
    let cfg = normalize_runtime_config input
    ttl ← parse_duration_default cfg.access_token_ttl default_access_token_ttl
    check_ttl ttl
    log_level ← parse_log_level to_lower cfg.log_level
    base_path ← normalize_base_path cfg.base_path
    token_limit ←
        normalize_rate_limit cfg.rate_limits.token default_token_rate_limit
          default_rate_limit_window
    readyz_limit ←
        normalize_rate_limit cfg.rate_limits.readyz default_readyz_rate_limit
          default_rate_limit_window
    check_issuer cfg.issuer
    validate_clients cfg.clients
    validate_signing_config cfg
    validate_key_source_config (effective_key_configs cfg)
    ok (resolved_of cfg ttl log_level base_path token_limit readyz_limit)
