-- ===== src/Client/Tokens.antt =====
-- client/cache.go: tokens as the cache holds them, and when one is fresh. Its other functions are in
-- Client/Cache.
pub mod Freshness
use orionis.Base.{◌≡◌, refl, List, Bool, true, false, ◌&&◌, if◌then◌else◌}
use orionis.Base.Int.{ℤ, pos, ◌+ℤ◌, ◌-ℤ◌, ltb_ℤ, leb_ℤ}
use orionis.Base.Time.{seconds, tenth, saturate}
use orionis.Text.{Text, text_eq, trim_space}
use orionis.Scopes.{scope_string}
use orionis.Token.{TokenResponse}

pub record CachedToken : Type 0 where
  pub response : TokenResponse
  pub expires_at : ℤ

pub record TokenCacheKey : Type 0 where
  pub audience : Text
  pub scope : Text

unfoldable pub cache_key : Text → List Text → TokenCacheKey
cache_key audience scopes = record { audience = trim_space audience; scope = scope_string scopes }

-- Equality of keys.
unfoldable pub same_key : TokenCacheKey → TokenCacheKey → Bool
same_key a b = text_eq a.audience b.audience && text_eq a.scope b.scope

-- The time that a token must have left to be used.
abbrev pub effective_skew : ℤ → ℤ → ℤ
effective_skew skew ttl = if leb_ℤ ttl skew then tenth ttl else skew

unfoldable pub fresh_at : ℤ → CachedToken → ℤ → Bool
fresh_at refresh_skew token now =
    if leb_ℤ token.response.expires_in (pos 0)
    then false
    else ltb_ℤ (effective_skew refresh_skew (seconds token.response.expires_in))
        (saturate (token.expires_at -ℤ now))
