-- ===== src/Authapp/Runtime/Again.antt =====
-- A configuration that was compiled compiles again to itself: the command loads a configuration, which
-- compiles it, and makes the application of it, which compiles it again.
pub mod BasePath
use orionis.Base.{
  ℕ, ◌≡◌, inl, inr, refl, sym, ap, subst, ◌∙◌, Bool, true, false, not, ◌||◌, Option, none, some,
  List, [], ◌∷◌, map, arith, Bool-cases, is_nil, All, ◌≢◌, ◌==◌,
}
use orionis.Base.Int.{ℤ, pos}
use orionis.Text.{
  Text, codes, text_eq, trim_space, trim_right_slash, trim_right_by, contains_by, is_space,
  cut_prefix, IsSolid,
}
use orionis.Text.Trim.{trim_space_idem, trim_space_solid, trim_right_idem, trim_right-head}
use orionis.Text.Order.{text_eq_iff}
use orionis.Server.Client.{Client, normalize}
use orionis.Server.Client.Validation.{normalize_client_idem}
use orionis.Authapp.Config.{KeyConfig, EndpointRateLimitConfig, Config}
use orionis.Authapp.Runtime.{
  LogLevel, EffectiveRateLimit, ResolvedConfig, ConfigError, Result, ok, failed, ◌>>=◌, ◌>>◌,
  normalize_key_config, normalize_runtime_config, limit_of, window_of, unset, normalize_rate_limit,
  has_empty_segment, with_slash, is_dynamic, static_path, normalize_base_path, resolved_of,
  compile_config, effective_key_configs, default_token_rate_limit, default_readyz_rate_limit,
  default_rate_limit_window,
}
use orionis.Authapp.Runtime.Compiled.{
  >>=-ok, >>-ok, Stages, compile_config-Stages, signing-resolved_of, compile_config-IsCompiled,
}
use orionis.Authapp.Runtime.Again.BasePath.{normalize_base_path-again, trim_space-base_path}

limit_of-unset :
    (cfg : EndpointRateLimitConfig) (d l : ℤ)
    → limit_of cfg d ≡ ok l
    → limit_of (unset cfg) d ≡ ok l
unfolding limit_of unset
limit_of-unset cfg d l e = ground arith

normalize_key_config_idem :
    (k : KeyConfig) → normalize_key_config (normalize_key_config k) ≡ normalize_key_config k
unfolding normalize_key_config
normalize_key_config_idem k = λ i. record {
  kid = trim_space_idem k.kid i;
  private_key_path = trim_space_idem k.private_key_path i;
  private_key_pem_env = trim_space_idem k.private_key_pem_env i;
}

normal_keys :
    (ks : List KeyConfig)
    → map normalize_key_config (map normalize_key_config ks) ≡ map normalize_key_config ks
normal_keys [] = refl
normal_keys (k ∷ ks) = cc (normalize_key_config_idem k, normal_keys ks)

module _ (parse_duration : Text → Option ℤ) where
  window_of-unset :
      (cfg : EndpointRateLimitConfig) (d w : ℤ)
      → window_of parse_duration cfg d ≡ ok w
      → window_of parse_duration (unset cfg) d ≡ ok w
  unfolding window_of unset
  window_of-unset cfg d w e = elim (Bool-cases (is_nil cfg.window)) [
    | inl k ↦ ground arith
    | inr k ↦ ground (arith, e)
  ]

  normalize_rate_limit-unset :
      (cfg : EndpointRateLimitConfig) (d w : ℤ) (l : EffectiveRateLimit)
      → normalize_rate_limit parse_duration cfg d w ≡ ok l
      → normalize_rate_limit parse_duration (unset cfg) d w ≡ ok l
  unfolding normalize_rate_limit unset
  normalize_rate_limit-unset cfg d w l e =
      let (x, f, e1) = >>=-ok (limit_of cfg d) _ l e in
      let (y, g, e2) = >>=-ok (window_of parse_duration cfg w) _ l e1 in
      rw (limit_of-unset cfg d x f) (rw (window_of-unset cfg w y g) e2)

pub normal_clients : (cs : List Client) → map normalize (map normalize cs) ≡ map normalize cs
normal_clients [] = refl
normal_clients (c ∷ cs) = cc (normalize_client_idem c, normal_clients cs)

module _ (cfg : Config) (ttl : ℤ) (level : LogLevel) (base_path : Text)
    (a b : EffectiveRateLimit) where
  -- What `compileConfig` makes of a normalised configuration is normal, if the issuer is and the base path
  -- is trimmed.
  normalize-resolved_of :
      trim_right_slash (trim_space (trim_right_slash (trim_space cfg.issuer)))
        ≡ trim_right_slash (trim_space cfg.issuer)
      → trim_space base_path ≡ base_path
      → normalize_runtime_config
          (resolved_of (normalize_runtime_config cfg) ttl level base_path a b).raw
        ≡ (resolved_of (normalize_runtime_config cfg) ttl level base_path a b).raw
  unfolding normalize_runtime_config resolved_of unset
  normalize-resolved_of issuer base = λ i. record {
    listen = trim_space_idem cfg.listen i;
    log_level = trim_space_idem cfg.log_level i;
    issuer = issuer i;
    base_path = base i;
    access_token_ttl = trim_space_idem cfg.access_token_ttl i;
    active_kid = trim_space_idem cfg.active_kid i;
    key = normalize_key_config_idem cfg.key i;
    keys = normal_keys cfg.keys i;
    rate_limits = record {
      token = record {
        enabled = cfg.rate_limits.token.enabled;
        limit = cfg.rate_limits.token.limit;
        window = trim_space_idem cfg.rate_limits.token.window i;
        limit_set = false;
        window_set = false;
      };
      readyz = record {
        enabled = cfg.rate_limits.readyz.enabled;
        limit = cfg.rate_limits.readyz.limit;
        window = trim_space_idem cfg.rate_limits.readyz.window i;
        limit_set = false;
        window_set = false;
      };
    };
    audit_logs = cfg.audit_logs;
    clients = normal_clients cfg.clients i;
    legacy_key_set = cfg.legacy_key_set;
    keys_set = cfg.keys_set;
  }

module _ (parse_duration : Text → Option ℤ) (to_lower : Text → Text) where
  -- The steps of `compileConfig` put together.
  compile_staged :
      (input : Config) (r : ResolvedConfig)
      → Stages parse_duration to_lower (normalize_runtime_config input) r
      → compile_config parse_duration to_lower input ≡ ok r
  unfolding compile_config
  compile_staged input r c =
      rw
        (
          c.ttl_is, c.ttl_checked, c.level_is, c.base_path_is, c.token_is, c.readyz_is,
          c.issuer_checked, c.clients_checked, c.signing_checked, c.sources_checked,
        )
        (ap (λ x. ok x) c.result)

  resolved-Stages :
      (cfg : Config) (r : ResolvedConfig) (c : Stages parse_duration to_lower cfg r)
      → Stages parse_duration to_lower
          (resolved_of cfg c.ttl c.level c.base_path c.token_limit c.readyz_limit).raw
          (resolved_of cfg c.ttl c.level c.base_path c.token_limit c.readyz_limit)
  unfolding resolved_of unset effective_key_configs
  resolved-Stages cfg r c = record {
    ttl = c.ttl;
    level = c.level;
    base_path = c.base_path;
    token_limit = c.token_limit;
    readyz_limit = c.readyz_limit;
    ttl_is = c.ttl_is;
    ttl_checked = c.ttl_checked;
    level_is = c.level_is;
    base_path_is = normalize_base_path-again cfg.base_path c.base_path c.base_path_is;
    token_is =
        normalize_rate_limit-unset parse_duration cfg.rate_limits.token default_token_rate_limit
          default_rate_limit_window c.token_limit c.token_is;
    readyz_is =
        normalize_rate_limit-unset parse_duration cfg.rate_limits.readyz default_readyz_rate_limit
          default_rate_limit_window c.readyz_limit c.readyz_is;
    issuer_checked = c.issuer_checked;
    clients_checked = c.clients_checked;
    signing_checked =
        signing-resolved_of cfg c.ttl c.level c.base_path c.token_limit c.readyz_limit
        ∙ c.signing_checked;
    sources_checked = c.sources_checked;
    result = refl;
  }

  -- A configuration that was compiled compiles again, to the same result, if trimming its issuer changes
  -- nothing more: what is loaded is what the application is made of.
  pub compile_config-again :
      (input : Config) (r : ResolvedConfig)
      → trim_right_slash (trim_space r.raw.issuer) ≡ r.raw.issuer
      → compile_config parse_duration to_lower input ≡ ok r
      → compile_config parse_duration to_lower r.raw ≡ ok r
  compile_config-again input r issuer e =
      let c = compile_config-Stages parse_duration to_lower input r e in
      let cfg = normalize_runtime_config input in
      let x = resolved_of cfg c.ttl c.level c.base_path c.token_limit c.readyz_limit in
      let i = (compile_config-IsCompiled parse_duration to_lower input r e).issuer_is in
      let normal : normalize_runtime_config x.raw ≡ x.raw =
        normalize-resolved_of input c.ttl c.level c.base_path c.token_limit c.readyz_limit
          (subst (λ s. trim_right_slash (trim_space s) ≡ s) i issuer)
          (trim_space-base_path cfg.base_path c.base_path c.base_path_is) in
      subst (λ y. compile_config parse_duration to_lower y.raw ≡ ok y) c.result
        (compile_staged x.raw x
          (subst (λ y. Stages parse_duration to_lower y x) (sym normal) (resolved-Stages cfg r c)))
