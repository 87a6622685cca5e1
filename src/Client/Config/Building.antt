-- ===== src/Client/Config/Building.antt =====
-- What a provider that is built is known to be.
use orionis.Base.{
  ◌≡◌, ◌≢◌, inl, inr, refl, ap, subst, none, some, List, [], arith, Bool-cases, if◌then◌else◌,
  is_nil,
}
use orionis.Base.Int.{ℤ, pos, ◌<ℤ◌, leb_ℤ}
use orionis.Text.{Text, trim_space}
use orionis.Text.Trim.{trim_space_idem}
use orionis.Scopes.{normalize_scopes}
use orionis.Client.Requests.{Authenticator}
use orionis.Client.Cache.{new_cache}
use orionis.Client.Provider.{Provider, or_default}
use orionis.Client.Config.{
  default_token_http_timeout, default_refresh_skew, Config, built, new, set_token_url,
  set_client_secret, set_for, add_scopes, set_audience, or_authenticator, normalize_config,
  new_provider, provider_of, build_provider, build,
}

-- A provider that is ready: it has an address, an HTTP client and an authenticator, waits a positive
-- time before a token's end, and its cache is new.
pub record IsReady {H : Type 0} (p : Provider H) : Type 0 where
  pub has_url : p.token_url ≢ []
  pub http_client : (hc : H) × (p.http_client ≡ some hc)
  pub authenticator : (a : Authenticator) × (p.authenticator ≡ some a)
  pub skew : pos 0 <ℤ p.tokens.refresh_skew
  pub new_tokens : p.tokens ≡ new_cache p.tokens.refresh_skew

skew_positive : (skew : ℤ) → pos 0 <ℤ (if leb_ℤ skew (pos 0) then default_refresh_skew else skew)
skew_positive skew = ground arith

module _ {H : Type 0} (default_client : ℤ → H) where
  -- A provider that is built from a configuration is ready, and it has the audience trimmed and the scopes normalised.
  pub build_provider-IsReady :
      (raw : Config H) (p : Provider H)
      → build_provider default_client raw ≡ built p
      → IsReady p
        × (p.audience ≡ trim_space raw.audience)
        × (p.scopes ≡ normalize_scopes raw.scopes)
  unfolding build_provider normalize_config provider_of new_provider is_nil
  build_provider-IsReady raw p e =
      let client = or_default (default_client default_token_http_timeout) raw.http_client in
      let auth = or_authenticator (trim_space raw.client_id) raw.client_secret raw.authenticator in
      elim (Bool-cases (is_nil (trim_space raw.token_url))) [
        | inl k ↦ absurd (ground arith)
        | inr k ↦
            let made : Provider H = record {
              token_url = trim_space raw.token_url;
              audience = trim_space raw.audience;
              scopes = normalize_scopes raw.scopes;
              http_client = some client;
              authenticator = some auth;
              tokens = new_cache (
                  if leb_ℤ raw.refresh_skew (pos 0)
                  then default_refresh_skew
                  else raw.refresh_skew);
            } in
            let at_made : built made ≡ built p = rw (k, build_provider) at e in
            let same : made ≡ p = ground arith in
            subst
              (λ q.
                IsReady q
                × (q.audience ≡ trim_space raw.audience)
                × (q.scopes ≡ normalize_scopes raw.scopes))
              same
              (
                record {
                  has_url = λ z. ground (arith, ap is_nil z, k);
                  http_client = (client, refl);
                  authenticator = (auth, refl);
                  skew = skew_positive raw.refresh_skew;
                  new_tokens = refl;
                },
                refl,
                refl,
              )
      ]

  -- The builder, given the address, the credentials, the audience and the scopes, builds what
  -- `NewProvider` builds from a configuration of them.
  pub builder-build_provider :
      (url id secret audience : Text) (scopes : List Text)
      → build default_client
          (set_for (set_client_secret (set_token_url new url) id secret) audience scopes)
        ≡ build_provider default_client (record {
          token_url = url;
          client_id = id;
          client_secret = secret;
          audience = audience;
          scopes = scopes;
          http_client = none;
          authenticator = none;
          refresh_skew = pos 0;
        })
  unfolding build build_provider set_for add_scopes set_audience set_client_secret set_token_url new
      normalize_config
  builder-build_provider url id secret audience scopes =
      rw (trim_space_idem url, trim_space_idem id, trim_space_idem audience) refl
