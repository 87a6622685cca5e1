-- ===== src/Token.antt =====
-- token.go: the token of an Authorization header, and the response of the token endpoint.
pub mod Bearer
use orionis.Base.{
  ℕ, ◌≡◌, refl, Bool, true, false, not, ◌||◌, Option, none, some, List, [], ◌∷◌, if◌then◌else◌,
  is_nil,
}
use orionis.Base.Int.{ℤ}
use orionis.Text.{Text, codes, trim_space, fields, equal_fold}

abbrev pub token_type_bearer : Text
token_type_bearer = codes "Bearer"

abbrev pub token_use_access : Text
token_use_access = codes "access"

-- `missing` is ErrMissingToken, `invalid` an error that wraps ErrInvalidToken.
pub data BearerResult : Type 0 where
  token : Text → BearerResult
  missing : BearerResult
  invalid : BearerResult

bearer_parts : List Text → BearerResult
bearer_parts (scheme ∷ value ∷ []) =
    if not (equal_fold scheme token_type_bearer) || is_nil (trim_space value)
    then invalid
    else token value
bearer_parts parts = invalid

unfoldable pub bearer_token : Text → BearerResult
unfolding bearer_parts
bearer_token header = if is_nil (trim_space header) then missing else bearer_parts (fields header)

pub record TokenResponse : Type 0 where
  pub access_token : Text
  pub token_type : Text
  pub expires_in : ℤ
  pub scope : Text

bearer_lower : bearer_token (codes " bearer  abc ") ≡ token (codes "abc")
unfolding bearer_token is_nil trim_space fields equal_fold
bearer_lower = refl
