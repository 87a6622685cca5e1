-- ===== src/Ginorion/Guard.antt =====
-- ginorion/middleware.go, errors.go, claims.go and the guard of builder.go. `c.Next()` and `c.Abort()`
-- are the two outcomes `next` and `aborted`; the values of a gin context that are read here are claims.
pub mod Builder
pub mod Passing
use orionis.Base.{
  ℕ, ◌≡◌, refl, Bool, true, false, not, Option, none, some, List, [], ◌∷◌, if◌then◌else◌, is_nil,
  leb,
}
use orionis.Text.{Text, codes, text_eq}
use orionis.Text.Dict.{lookup, insert}
use orionis.Scopes.{normalize_scopes}
use orionis.Claims.{Claims, has_all_scopes}
use orionis.Token.{BearerResult, token, missing, invalid, bearer_token}
use orionis.Verifier.{
  KeyResult, Verifier, ParserOptions, TokenHeader, Parsed, Verified, verified, refused, verify,
}

abbrev pub default_claims_key : Text
default_claims_key = codes "orionis.claims"

-- What `defaultErrorHandler` writes as JSON, and whether it is logged as an error.
pub record Rejection : Type 0 where
  pub status : ℕ
  pub error : Text
  pub message : Text
  pub logged_as_error : Bool

-- What an error handler writes; one of the application's may write anything.
pub data Written (X : Type 0) : Type 0 where
  json : Rejection → Written X
  custom : X → Written X

abbrev pub ErrorHandler : Type 0 → Type 0
ErrorHandler X = ℕ → Text → Written X

unfoldable pub public_error_message : ℕ → Text → Text
public_error_message status code =
    if text_eq code (codes "missing_bearer_token")
    then codes "missing bearer token"
    else if text_eq code (codes "invalid_token")
    then codes "invalid token"
    else if text_eq code (codes "insufficient_scope")
    then codes "insufficient scope"
    else if text_eq code (codes "auth_misconfigured")
    then codes "authentication service unavailable"
    else if leb 500 status
    then codes "authentication service unavailable"
    else codes "authentication request rejected"

unfoldable pub default_error_handler : {X : Type 0} → ErrorHandler X
unfolding public_error_message
default_error_handler status code = json (record {
  status = status;
  error = code;
  message = public_error_message status code;
  logged_as_error = leb 500 status;
})

pub record Guard (K X : Type 0) : Type 0 where
  pub verifier : Option (Verifier K)
  pub claims_key : Text
  pub error_handler : ErrorHandler X
  pub required_scopes : List Text

-- `Config`; an error handler of `none` is nil.
pub record Config (K X : Type 0) : Type 0 where
  pub verifier : Option (Verifier K)
  pub required_scopes : List Text
  pub claims_key : Text
  pub error_handler : Option (ErrorHandler X)

or_default_handler : {X : Type 0} → Option (ErrorHandler X) → ErrorHandler X
or_default_handler none = default_error_handler
or_default_handler (some handler) = handler

unfoldable pub new_guard :
    {K X : Type 0} → Option (Verifier K) → List Text → Text → Option (ErrorHandler X) → Guard K X
unfolding or_default_handler
new_guard verifier required_scopes claims_key handler = record {
  verifier = verifier;
  claims_key = if is_nil claims_key then default_claims_key else claims_key;
  error_handler = or_default_handler handler;
  required_scopes = normalize_scopes required_scopes;
}

pub record Context : Type 0 where
  pub authorization : Text
  pub values : List (Text × Claims)

pub data Handled (X : Type 0) : Type 0 where
  aborted : Written X → Handled X
  next : Context → Handled X

unfoldable pub set_value : Text → Claims → Context → Context
set_value key claims c = record c { values = insert key claims c.values }

-- `Claims`
unfoldable pub claims_of : Context → Option Claims
claims_of c = lookup default_claims_key c.values

unfoldable pub first_scopes : List Text → List Text → List Text
first_scopes primary fallback = if is_nil primary then fallback else primary

module _ {K X : Type 0} (parse : ParserOptions → Text → (TokenHeader → KeyResult K) → Parsed) where
  reject : Guard K X → ℕ → Text → Handled X
  reject g status code = aborted (g.error_handler status code)

  -- The test of the scopes of a verified token, and what follows it.
  admit : Guard K X → Context → Verified → Handled X
  unfolding reject
  admit g c (refused e) = reject g 401 (codes "invalid_token")
  admit g c (verified t) =
      if not (has_all_scopes (some t.claims) g.required_scopes)
      then reject g 403 (codes "insufficient_scope")
      else next (set_value default_claims_key t.claims (set_value g.claims_key t.claims c))

  check_bearer : Guard K X → Context → BearerResult → Handled X
  unfolding reject admit
  check_bearer g c missing = reject g 401 (codes "missing_bearer_token")
  check_bearer g c invalid = reject g 401 (codes "missing_bearer_token")
  check_bearer g c (token value) = elim g.verifier [
    | none ↦ reject g 500 (codes "auth_misconfigured")
    | some v ↦ admit g c (verify parse (some v) value)
  ]

  -- The handler that `middlewareFromConfig` returns.
  unfoldable pub run_guard : Guard K X → Context → Handled X
  unfolding check_bearer
  run_guard g c = check_bearer g c (bearer_token c.authorization)

  unfoldable pub middleware_from_config : Config K X → Context → Handled X
  unfolding run_guard
  middleware_from_config cfg =
      run_guard (new_guard cfg.verifier cfg.required_scopes cfg.claims_key cfg.error_handler)

  -- `Require`; without scopes it is `Handler`.
  unfoldable pub require : Guard K X → List Text → Context → Handled X
  unfolding middleware_from_config
  require g scopes = middleware_from_config (record {
    verifier = g.verifier;
    required_scopes = first_scopes scopes g.required_scopes;
    claims_key = g.claims_key;
    error_handler = some g.error_handler;
  })
