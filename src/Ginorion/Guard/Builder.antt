-- ===== src/Ginorion/Guard/Builder.antt =====
-- ginorion/builder.go and the options of ginorion/middleware.go. A builder may be nil. `remote` builds
-- the provider of `jwk.Remote(url).HTTPClient(hc).RefreshEvery(every).MaxStale(stale).Build()`.
use orionis.Base.{Option, none, some, List, [], ◌∷◌, ◌++◌, if◌then◌else◌, is_nil}
use orionis.Base.Int.{ℤ, pos, ltb_ℤ}
use orionis.Text.{Text, trim_space, trim_right_slash}
use orionis.Scopes.{normalize_scopes}
use orionis.Verifier.{KeyProvider, Verifier, verifier_for}
use orionis.Ginorion.Guard.{
  default_claims_key, ErrorHandler, default_error_handler, Guard, Config, new_guard,
}

pub record Builder (K X C : Type 0) : Type 0 where
  pub verifier : Option (Verifier K)
  pub provider : Option (KeyProvider K)
  pub issuer : Text
  pub audience : Text
  pub jwks_url : Text
  pub http_client : Option C
  pub refresh_every : ℤ
  pub max_stale : ℤ
  pub required_scopes : List Text
  pub claims_key : Text
  pub error_handler : Option (ErrorHandler X)

pub data BuildError : Type 0 where
  nil_builder issuer_required audience_required keys_required bad_remote : BuildError

pub data Built (A : Type 0) : Type 0 where
  built : A → Built A
  not_built : BuildError → Built A

module _ {K X C : Type 0} where
  unfoldable pub new : Option (Builder K X C)
  new = some (record {
    verifier = none;
    provider = none;
    issuer = [];
    audience = [];
    jwks_url = [];
    http_client = none;
    refresh_every = pos 0;
    max_stale = pos 0;
    required_scopes = [];
    claims_key = default_claims_key;
    error_handler = some default_error_handler;
  })

  unfoldable pub set_verifier :
      Option (Builder K X C) → Option (Verifier K) → Option (Builder K X C)
  set_verifier none v = none
  set_verifier (some b) v = some (record b { verifier = v })

  unfoldable pub from_verifier : Option (Verifier K) → Option (Builder K X C)
  unfolding set_verifier new
  from_verifier v = set_verifier new v

  unfoldable pub set_issuer : Option (Builder K X C) → Text → Option (Builder K X C)
  set_issuer none issuer = none
  set_issuer (some b) issuer = some (record b { issuer = trim_right_slash (trim_space issuer) })

  unfoldable pub set_audience : Option (Builder K X C) → Text → Option (Builder K X C)
  set_audience none audience = none
  set_audience (some b) audience = some (record b { audience = trim_space audience })

  unfoldable pub set_jwks : Option (Builder K X C) → Text → Option (Builder K X C)
  set_jwks none url = none
  set_jwks (some b) url = some (record b { jwks_url = trim_space url })

  unfoldable pub set_key_provider :
      Option (Builder K X C) → Option (KeyProvider K) → Option (Builder K X C)
  set_key_provider none p = none
  set_key_provider (some b) p = some (record b { provider = p })

  unfoldable pub set_http_client : Option (Builder K X C) → Option C → Option (Builder K X C)
  set_http_client none hc = none
  set_http_client (some b) hc = some (record b { http_client = hc })

  unfoldable pub set_refresh_every : Option (Builder K X C) → ℤ → Option (Builder K X C)
  set_refresh_every none interval = none
  set_refresh_every (some b) interval =
      if ltb_ℤ (pos 0) interval then some (record b { refresh_every = interval }) else some b

  unfoldable pub set_max_stale : Option (Builder K X C) → ℤ → Option (Builder K X C)
  set_max_stale none max_stale = none
  set_max_stale (some b) max_stale =
      if ltb_ℤ (pos 0) max_stale then some (record b { max_stale = max_stale }) else some b

  unfoldable pub add_scopes : Option (Builder K X C) → List Text → Option (Builder K X C)
  add_scopes none scopes = none
  add_scopes (some b) scopes = some (record b { required_scopes = b.required_scopes ++ scopes })

  unfoldable pub set_claims_key : Option (Builder K X C) → Text → Option (Builder K X C)
  set_claims_key none key = none
  set_claims_key (some b) key =
      if is_nil (trim_space key) then some b else some (record b { claims_key = trim_space key })

  unfoldable pub set_error_handler :
      Option (Builder K X C) → Option (ErrorHandler X) → Option (Builder K X C)
  set_error_handler none handler = none
  set_error_handler (some b) none = some b
  set_error_handler (some b) (some handler) = some (record b { error_handler = some handler })

  module _ (remote : Text → Option C → ℤ → ℤ → Option (KeyProvider K)) where
    -- The provider that is given, or else a remote one.
    choose_provider : Builder K X C → Option (KeyProvider K) → Built (KeyProvider K)
    choose_provider b (some p) = built p
    choose_provider b none =
        if is_nil b.jwks_url
        then not_built keys_required
        else elim (remote b.jwks_url b.http_client b.refresh_every b.max_stale) [
          | none ↦ not_built bad_remote
          | some p ↦ built p
        ]

    verifier_with : Builder K X C → Built (KeyProvider K) → Built (Option (Verifier K))
    verifier_with b (not_built e) = not_built e
    verifier_with b (built p) = built (verifier_for b.issuer b.audience (some p))

    choose_verifier : Builder K X C → Option (Verifier K) → Built (Option (Verifier K))
    unfolding verifier_with choose_provider
    choose_verifier b (some v) = built (some v)
    choose_verifier b none =
        if is_nil b.issuer
        then not_built issuer_required
        else if is_nil b.audience
        then not_built audience_required
        else verifier_with b (choose_provider b b.provider)

    unfoldable pub build_verifier : Builder K X C → Built (Option (Verifier K))
    unfolding choose_verifier
    build_verifier b = choose_verifier b b.verifier

    guard_with : Builder K X C → Built (Option (Verifier K)) → Built (Guard K X)
    guard_with b (not_built e) = not_built e
    guard_with b (built v) = built (new_guard v b.required_scopes b.claims_key b.error_handler)

    unfoldable pub build : Option (Builder K X C) → Built (Guard K X)
    unfolding guard_with
    build none = not_built nil_builder
    build (some b) = guard_with b (build_verifier b)

-- The options of `Middleware`, each a change of its configuration.
module _ {K X : Type 0} where
  unfoldable pub with_scopes : List Text → Config K X → Config K X
  with_scopes scopes c = record c { required_scopes = normalize_scopes scopes }

  unfoldable pub with_claims_key : Text → Config K X → Config K X
  with_claims_key key c = if is_nil key then c else record c { claims_key = key }

  unfoldable pub with_error_handler : Option (ErrorHandler X) → Config K X → Config K X
  with_error_handler none c = c
  with_error_handler (some handler) c = record c { error_handler = some handler }

  -- `none` is a nil option.
  unfoldable pub apply_options : List (Option (Config K X → Config K X)) → Config K X → Config K X
  apply_options [] c = c
  apply_options (none ∷ opts) c = apply_options opts c
  apply_options (some opt ∷ opts) c = apply_options opts (opt c)

  -- The configuration that `Middleware` runs with.
  unfoldable pub middleware_config :
      Option (Verifier K) → List (Option (Config K X → Config K X)) → Config K X
  middleware_config verifier opts = apply_options opts (record {
    verifier = verifier;
    required_scopes = [];
    claims_key = default_claims_key;
    error_handler = some default_error_handler;
  })
