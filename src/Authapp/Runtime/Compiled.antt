-- ===== src/Authapp/Runtime/Compiled.antt =====
-- What a configuration that is compiled is known to be.
use orionis.Base.{
  ◌≡◌, ◌≢◌, inl, inr, refl, subst, ◌∙◌, false, not, ◌||◌, Option, none, some, List, [], ◌∷◌, map,
  arith, Bool-cases, is_nil,
}
use orionis.Base.Int.{ℤ, pos, ◌≤ℤ◌, ◌<ℤ◌}
use orionis.Text.{Text, trim_space, trim_right_slash}
use orionis.Server.Client.{normalize}
use orionis.Authapp.Config.{KeyConfig, EndpointRateLimitConfig, Config}
use orionis.Authapp.Runtime.{
  LogLevel, EffectiveRateLimit, ResolvedConfig, ConfigError, Result, ok, failed, ◌>>=◌, ◌>>◌,
  normalize_runtime_config, normalize_key_config, validate_clients, validate_signing_config,
  validate_key_source_config, effective_key_configs, parse_duration_default, parse_log_level,
  normalize_base_path, parsed, limit_of, positive_window, window_of, normalize_rate_limit,
  check_ttl, check_issuer, resolved_of, compile_config, default_access_token_ttl,
  default_token_rate_limit, default_readyz_rate_limit, default_rate_limit_window,
}

pub >>=-ok :
    {A B : Type 0} (m : Result A) (f : A → Result B) (b : B)
    → (m >>= f) ≡ ok b
    → (a : A) × (m ≡ ok a) × (f a ≡ ok b)
>>=-ok (ok a) f b e = (a, refl, e)
>>=-ok (failed x) f b e = absurd (ground arith)

pub >>-ok :
    {B : Type 0} (o : Option ConfigError) (k : Result B) (b : B)
    → (o >> k) ≡ ok b
    → (o ≡ none) × (k ≡ ok b)
>>-ok none k b e = (refl, e)
>>-ok (some x) k b e = absurd (ground arith)

-- A limit that can be used.
pub record IsLimit (l : EffectiveRateLimit) : Type 0 where
  pub limit_positive : pos 0 <ℤ l.limit
  pub window_positive : pos 0 <ℤ l.window

pub record IsCompiled (input : Config) (r : ResolvedConfig) : Type 0 where
  pub issuer_is : r.raw.issuer ≡ trim_right_slash (trim_space input.issuer)
  pub issuer_given : r.raw.issuer ≢ []
  pub ttl : pos 1_000_000_000 ≤ℤ r.access_token_ttl
  pub clients_are : r.raw.clients ≡ map normalize input.clients
  pub clients_checked : validate_clients r.raw.clients ≡ none
  pub keys_given : is_nil (effective_key_configs r.raw) ≡ false
  pub keys_are :
      effective_key_configs r.raw ≡ map normalize_key_config (effective_key_configs input)
  pub signing_checked : validate_signing_config r.raw ≡ none
  pub sources_checked : validate_key_source_config (effective_key_configs r.raw) ≡ none
  pub active_is : r.raw.active_kid ≡ trim_space input.active_kid
  pub token_limit : IsLimit r.token_limit
  pub readyz_limit : IsLimit r.readyz_limit

limit_of-pos :
    (cfg : EndpointRateLimitConfig) (default_limit l : ℤ)
    → pos 0 <ℤ default_limit
    → limit_of cfg default_limit ≡ ok l
    → pos 0 <ℤ l
unfolding limit_of
limit_of-pos cfg default_limit l h e = ground arith

positive_window-pos : (d w : ℤ) → positive_window d ≡ ok w → pos 0 <ℤ w
unfolding positive_window
positive_window-pos d w e = ground arith

check_ttl-none : (ttl : ℤ) → check_ttl ttl ≡ none → pos 1_000_000_000 ≤ℤ ttl
unfolding check_ttl
check_ttl-none ttl e = ground arith

check_issuer-none : (issuer : Text) → check_issuer issuer ≡ none → issuer ≢ []
unfolding check_issuer is_nil
check_issuer-none issuer e z = ground arith

is_nil-map : (l : List KeyConfig) → is_nil (map normalize_key_config l) ≡ is_nil l
unfolding is_nil
is_nil-map [] = refl
is_nil-map (k ∷ l) = refl

effective-normalize :
    (cfg : Config)
    → effective_key_configs (normalize_runtime_config cfg)
      ≡ map normalize_key_config (effective_key_configs cfg)
unfolding effective_key_configs normalize_runtime_config
effective-normalize cfg = ground (arith, is_nil-map cfg.keys)

pub signing-resolved_of :
    (cfg : Config) (ttl : ℤ) (level : LogLevel) (path : Text) (a b : EffectiveRateLimit)
    → validate_signing_config (resolved_of cfg ttl level path a b).raw ≡ validate_signing_config cfg
unfolding validate_signing_config resolved_of
signing-resolved_of cfg ttl level path a b = refl

signing-keys :
    (cfg : Config) → validate_signing_config cfg ≡ none → is_nil (effective_key_configs cfg) ≡ false
unfolding validate_signing_config effective_key_configs is_nil
signing-keys cfg e = ground arith

module _ (parse_duration : Text → Option ℤ) where
  window_of-pos :
      (cfg : EndpointRateLimitConfig) (default_window w : ℤ)
      → pos 0 <ℤ default_window
      → window_of parse_duration cfg default_window ≡ ok w
      → pos 0 <ℤ w
  unfolding window_of
  window_of-pos cfg default_window w h e =
      elim (Bool-cases (not (cfg.window_set || not (is_nil cfg.window)))) [
        | inl k ↦ ground arith
        | inr k ↦ elim (Bool-cases (is_nil cfg.window)) [
          | inl l ↦ absurd (ground arith)
          | inr l ↦
              let (d, f, g) =
                >>=-ok (parsed (parse_duration cfg.window)) positive_window w
                  (rw l at (rw (k, window_of) at e)) in
              positive_window-pos d w g
        ]
      ]

  normalize_rate_limit-IsLimit :
      (cfg : EndpointRateLimitConfig) (limit window : ℤ) (l : EffectiveRateLimit)
      → pos 0 <ℤ limit
      → pos 0 <ℤ window
      → normalize_rate_limit parse_duration cfg limit window ≡ ok l
      → IsLimit l
  unfolding normalize_rate_limit
  normalize_rate_limit-IsLimit cfg limit window l h k e =
      let (x, f, e1) = >>=-ok (limit_of cfg limit) _ l e in
      let (y, g, e2) = >>=-ok (window_of parse_duration cfg window) _ l e1 in
      let a = limit_of-pos cfg limit x h f in
      let b = window_of-pos cfg window y k g in
      record { limit_positive = ground arith; window_positive = ground arith }

  -- The results of the steps of `compileConfig`.
  pub record Stages (to_lower : Text → Text) (cfg : Config) (r : ResolvedConfig) : Type 0 where
    pub ttl : ℤ
    pub level : LogLevel
    pub base_path : Text
    pub token_limit : EffectiveRateLimit
    pub readyz_limit : EffectiveRateLimit
    pub ttl_is :
        parse_duration_default parse_duration cfg.access_token_ttl default_access_token_ttl ≡ ok ttl
    pub ttl_checked : check_ttl ttl ≡ none
    pub level_is : parse_log_level to_lower cfg.log_level ≡ ok level
    pub base_path_is : normalize_base_path cfg.base_path ≡ ok base_path
    pub token_is :
        normalize_rate_limit parse_duration cfg.rate_limits.token default_token_rate_limit
          default_rate_limit_window
        ≡ ok token_limit
    pub readyz_is :
        normalize_rate_limit parse_duration cfg.rate_limits.readyz default_readyz_rate_limit
          default_rate_limit_window
        ≡ ok readyz_limit
    pub issuer_checked : check_issuer cfg.issuer ≡ none
    pub clients_checked : validate_clients cfg.clients ≡ none
    pub signing_checked : validate_signing_config cfg ≡ none
    pub sources_checked : validate_key_source_config (effective_key_configs cfg) ≡ none
    pub result : resolved_of cfg ttl level base_path token_limit readyz_limit ≡ r

  pub compile_config-Stages :
      (to_lower : Text → Text) (input : Config) (r : ResolvedConfig)
      → compile_config parse_duration to_lower input ≡ ok r
      → Stages to_lower (normalize_runtime_config input) r
  unfolding compile_config check_ttl check_issuer
  compile_config-Stages to_lower input r e =
      let cfg = normalize_runtime_config input in
      let (ttl, f1, e1) =
        >>=-ok (parse_duration_default parse_duration cfg.access_token_ttl default_access_token_ttl)
          _ r e in
      let (c1, e2) = >>-ok (check_ttl ttl) _ r e1 in
      let (level, f3, e3) = >>=-ok (parse_log_level to_lower cfg.log_level) _ r e2 in
      let (base_path, f4, e4) = >>=-ok (normalize_base_path cfg.base_path) _ r e3 in
      let (token_limit, f5, e5) =
        >>=-ok
          (normalize_rate_limit parse_duration cfg.rate_limits.token default_token_rate_limit
            default_rate_limit_window)
          _ r e4 in
      let (readyz_limit, f6, e6) =
        >>=-ok
          (normalize_rate_limit parse_duration cfg.rate_limits.readyz default_readyz_rate_limit
            default_rate_limit_window)
          _ r e5 in
      let (c7, e7) = >>-ok (check_issuer cfg.issuer) _ r e6 in
      let (c8, e8) = >>-ok (validate_clients cfg.clients) _ r e7 in
      let (c9, e9) = >>-ok (validate_signing_config cfg) _ r e8 in
      let (c10, e10) = >>-ok (validate_key_source_config (effective_key_configs cfg)) _ r e9 in
      let same : resolved_of cfg ttl level base_path token_limit readyz_limit ≡ r = ground arith in
      record {
        ttl = ttl;
        level = level;
        base_path = base_path;
        token_limit = token_limit;
        readyz_limit = readyz_limit;
        ttl_is = f1;
        ttl_checked = c1;
        level_is = f3;
        base_path_is = f4;
        token_is = f5;
        readyz_is = f6;
        issuer_checked = c7;
        clients_checked = c8;
        signing_checked = c9;
        sources_checked = c10;
        result = same;
      }

  -- A configuration that `compileConfig` accepts has an issuer, a lifetime of tokens of one second at
  -- least, clients that pass the checks and are normalised, one key at least, keys that pass the
  -- checks on their ids and sources, and limits and windows that are positive; its issuer, clients, keys
  -- and active key id are those of the input, normalised.
  pub compile_config-IsCompiled :
      (to_lower : Text → Text) (input : Config) (r : ResolvedConfig)
      → compile_config parse_duration to_lower input ≡ ok r
      → IsCompiled input r
  unfolding normalize_runtime_config resolved_of effective_key_configs
  compile_config-IsCompiled to_lower input r e =
      let cfg = normalize_runtime_config input in
      let c = compile_config-Stages to_lower input r e in
      subst (IsCompiled input) c.result (record {
        issuer_is = refl;
        issuer_given = check_issuer-none cfg.issuer c.issuer_checked;
        ttl = check_ttl-none c.ttl c.ttl_checked;
        clients_are = refl;
        clients_checked = c.clients_checked;
        keys_given = signing-keys cfg c.signing_checked;
        keys_are = effective-normalize input;
        signing_checked =
            signing-resolved_of cfg c.ttl c.level c.base_path c.token_limit c.readyz_limit
            ∙ c.signing_checked;
        sources_checked = c.sources_checked;
        active_is = refl;
        token_limit =
            normalize_rate_limit-IsLimit cfg.rate_limits.token default_token_rate_limit
              default_rate_limit_window c.token_limit (omega arith) (omega arith) c.token_is;
        readyz_limit =
            normalize_rate_limit-IsLimit cfg.rate_limits.readyz default_readyz_rate_limit
              default_rate_limit_window c.readyz_limit (omega arith) (omega arith) c.readyz_is;
      })
