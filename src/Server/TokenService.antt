-- ===== src/Server/TokenService.antt =====
-- server/token_service.go: the client credentials grant. Time, randomness and the signature enter as
-- the record `Environment`; a store's client and SHA-256 are parameters.
pub mod Grant
pub mod Errors
use orionis.Base.{
  ℕ, ◌≡◌, refl, Bool, true, false, not, ◌&&◌, ◌||◌, Option, none, some, List, [], ◌∷◌,
  if◌then◌else◌, is_nil,
}
use orionis.Base.Int.{ℤ, ◌+ℤ◌}
use orionis.Text.{Text, codes, text_eq}
use orionis.Scopes.{scope_string}
use orionis.Claims.{Claims}
use orionis.Token.{TokenResponse, token_type_bearer, token_use_access}
use orionis.Server.Scopes.{contains_item, resolve_requested_scopes}
use orionis.Server.Client.{Client, normalize, verify_secret}
use orionis.Server.Store.{
  FindResult, ClientStore, client_found, client_not_found, find_unauthorized, find_failed,
}

pub record TokenRequest : Type 0 where
  pub grant_type : Text
  pub client_id : Text
  pub client_secret : Text
  pub audience : Text
  pub scopes : List Text

-- What a call of `issue` takes from outside: the clock, the random id (`none` is an error),
-- `jwt.NewNumericDate`, the whole seconds of a duration, and the signer (`none` is an error).
pub record Environment : Type 0 where
  pub now : ℤ
  pub random_id : Option Text
  pub numeric_date : ℤ → ℤ
  pub whole_seconds : ℤ → ℤ
  pub sign : Claims → Option Text

pub record TokenService : Type 0 where
  pub issuer : Text
  pub store : ClientStore
  pub access_token_ttl : ℤ

-- The errors that `issue` makes, each with its status, its code and its description.
pub data OAuthError : Type 0 where
  unsupported_grant_type invalid_client audience_missing invalid_target invalid_scope : OAuthError

unfoldable pub status : OAuthError → ℕ
status unsupported_grant_type = 400
status invalid_client = 401
status audience_missing = 400
status invalid_target = 403
status invalid_scope = 400

unfoldable pub error_code : OAuthError → Text
error_code unsupported_grant_type = codes "unsupported_grant_type"
error_code invalid_client = codes "invalid_client"
error_code audience_missing = codes "invalid_request"
error_code invalid_target = codes "invalid_target"
error_code invalid_scope = codes "invalid_scope"

unfoldable pub description : OAuthError → Text
description unsupported_grant_type = codes "grant_type must be client_credentials"
description invalid_client = codes "invalid client credentials"
description audience_missing = codes "audience is required"
description invalid_target = codes "client is not allowed to request this audience"
description invalid_scope = codes "client requested a scope that is not allowed"

-- A response, an `oauthError`, or any other error.
pub data Issued : Type 0 where
  issued : TokenResponse → Issued
  oauth_error : OAuthError → Issued
  issue_failed : Issued

-- `unauthorized` is ErrUnauthorized, the store's own included, `not_found` is ErrClientNotFound, and
-- `auth_failed` an error of the store that is none of the two.
pub data AuthResult : Type 0 where
  authenticated : Client → AuthResult
  unauthorized : AuthResult
  not_found : AuthResult
  auth_failed : AuthResult

module _ (sum256 : Text → List ℕ) where
  check_found : FindResult → Text → AuthResult
  check_found client_not_found secret = not_found
  check_found find_unauthorized secret = unauthorized
  check_found find_failed secret = auth_failed
  check_found (client_found client) secret =
      if client.disabled || not (verify_secret sum256 client secret)
      then unauthorized
      else authenticated (normalize client)

  unfoldable pub authenticate : TokenService → Text → Text → AuthResult
  unfolding check_found
  authenticate s id secret =
      if is_nil id || is_nil secret then unauthorized else check_found (s.store id) secret

-- The claims of a new token.
unfoldable pub token_claims : Environment → TokenService → Client → Text → List Text → Text → Claims
token_claims env s client audience scopes jti = record {
  issuer = s.issuer;
  subject = client.id;
  audience = audience ∷ [];
  expires_at = some (env.numeric_date (env.now +ℤ s.access_token_ttl));
  not_before = some (env.numeric_date env.now);
  issued_at = some (env.numeric_date env.now);
  id = jti;
  client_id = client.id;
  scope = scope_string scopes;
  token_use = token_use_access;
}

unfoldable pub response : Environment → TokenService → Claims → Text → TokenResponse
response env s claims signed = record {
  access_token = signed;
  token_type = token_type_bearer;
  expires_in = env.whole_seconds s.access_token_ttl;
  scope = claims.scope;
}

issue_access_token : Environment → TokenService → Client → Text → List Text → Issued
issue_access_token env s client audience scopes = elim env.random_id [
  | none ↦ issue_failed
  | some jti ↦
      let claims = token_claims env s client audience scopes jti in
      elim (env.sign claims) [
        | none ↦ issue_failed
        | some signed ↦ issued (response env s claims signed)
      ]
]

-- The scopes of the request, or the client's defaults.
unfoldable pub requested_scopes : TokenRequest → Client → List Text
requested_scopes request client =
    if is_nil request.scopes then client.default_scopes else request.scopes

unfoldable pub issue_scopes :
    Environment → TokenService → Client → Text → Option (List Text) → Issued
unfolding issue_access_token
issue_scopes env s client audience none = oauth_error invalid_scope
issue_scopes env s client audience (some scopes) = issue_access_token env s client audience scopes

-- `issue` behind the authentication.
issue_for : Environment → TokenService → TokenRequest → AuthResult → Issued
issue_for env s request unauthorized = oauth_error invalid_client
issue_for env s request not_found = oauth_error invalid_client
issue_for env s request auth_failed = issue_failed
issue_for env s request (authenticated client) =
    if is_nil request.audience
    then oauth_error audience_missing
    else if not (contains_item client.allowed_audiences request.audience)
    then oauth_error invalid_target
    else issue_scopes env s client request.audience
        (resolve_requested_scopes (requested_scopes request client) client.allowed_scopes)

module _ (sum256 : Text → List ℕ) where
  unfoldable pub issue : Environment → TokenService → TokenRequest → Issued
  unfolding issue_for
  issue env s request =
      if not (text_eq request.grant_type (codes "client_credentials"))
      then oauth_error unsupported_grant_type
      else issue_for env s request (authenticate sum256 s request.client_id request.client_secret)
