-- ===== src/Server/Http.antt =====
-- server/http.go and `firstNonEmpty` of server/util.go: the HTTP endpoints. What net/http gives is in
-- the request: the forms that `ParseForm` finds under a limit on the body, and `BasicAuth`. JSON is
-- left as the value that is encoded.
pub mod Token
pub mod Keys
use orionis.Base.{
  ℕ, ◌≡◌, refl, Bool, true, false, not, ◌&&◌, ◌||◌, Option, none, some, List, [], ◌∷◌, ◌++◌,
  if◌then◌else◌, is_nil,
}
use orionis.Base.Int.{ℤ}
use orionis.Text.{Text, codes, text_eq, trim_space}
use orionis.Scopes.{normalize_scopes}
use orionis.Token.{TokenResponse}
use orionis.Jwk.Key.{Key}
use orionis.Server.TokenService.{
  TokenRequest, Environment, OAuthError, status, error_code, description, Issued, issued,
  oauth_error, issue_failed, issue,
}
use orionis.Server.Config.{Signer, Server}

-- `r.Form.Get` and `r.PostForm.Get`, which answer "" for a missing key.
pub record Forms : Type 0 where
  pub form : Text → Text
  pub post_form : Text → Text

pub record Request : Type 0 where
  pub method : Text
  pub parse_form : ℤ → Option Forms
  pub basic_auth : Option (Text × Text)

pub record Discovery : Type 0 where
  pub issuer : Text
  pub token_endpoint : Text
  pub jwks_uri : Text
  pub grant_types_supported : List Text
  pub token_endpoint_auth_methods_supported : List Text
  pub response_types_supported : List Text
  pub id_token_signing_alg_values_supported : List Text

-- The values that are written as JSON.
pub data Body : Type 0 where
  oauth_body : Text → Text → Body
  error_body : Text → Body
  token_body : TokenResponse → Body
  keys_body : List Key → Body
  discovery_body : Discovery → Body
  status_body : Text → Text → Body

pub record Response : Type 0 where
  pub status_code : ℕ
  pub headers : List (Text × Text)
  pub body : Body

abbrev pub content_type : Text × Text
content_type = (codes "Content-Type", codes "application/json; charset=utf-8")

abbrev pub no_store : Text × Text
no_store = (codes "Cache-Control", codes "no-store")

abbrev pub no_cache : Text × Text
no_cache = (codes "Pragma", codes "no-cache")

abbrev pub challenge : Text × Text
challenge = (codes "WWW-Authenticate", codes "Basic realm=\"orionis\"")

abbrev pub key_cache : Text × Text
key_cache = (codes "Cache-Control", codes "public, max-age=300")

abbrev pub post : Text
post = codes "POST"

abbrev pub get : Text
get = codes "GET"

-- `headers` are those set before.
unfoldable pub write_json : List (Text × Text) → ℕ → Body → Response
write_json headers status_code body = record {
  status_code = status_code;
  headers = headers ++ content_type ∷ [];
  body = body;
}

unfoldable pub write_oauth_error : List (Text × Text) → ℕ → Text → Text → Response
unfolding write_json
write_oauth_error headers status_code code text =
    write_json headers status_code (oauth_body code text)

unfoldable pub first_non_empty : List Text → Text
first_non_empty [] = []
first_non_empty (value ∷ values) =
    if is_nil (trim_space value) then first_non_empty values else trim_space value

-- The client id and the secret: from the header, or else from the body.
credentials : Option (Text × Text) → Forms → Text × Text
credentials (some (id, secret)) forms = (id, secret)
credentials none forms =
    (forms.post_form (codes "client_id"), forms.post_form (codes "client_secret"))

unfoldable pub token_request : Option (Text × Text) → Forms → TokenRequest
unfolding credentials
token_request basic forms = record {
  grant_type = forms.form (codes "grant_type");
  client_id = trim_space (credentials basic forms).0;
  client_secret = (credentials basic forms).1;
  audience = first_non_empty (forms.form (codes "audience") ∷ forms.form (codes "resource") ∷ []);
  scopes = normalize_scopes (forms.form (codes "scope") ∷ []);
}

-- The headers of an error: a challenge for the code "invalid_client".
error_headers : Text → List (Text × Text)
error_headers code = if text_eq code (codes "invalid_client") then challenge ∷ [] else []

-- What is written for the outcome of `issue`.
unfoldable pub write_issued : Issued → Response
unfolding error_headers
write_issued (issued response) = write_json (no_store ∷ no_cache ∷ []) 200 (token_body response)
write_issued (oauth_error e) =
    write_oauth_error (error_headers (error_code e)) (status e) (error_code e) (description e)
write_issued issue_failed =
    write_oauth_error [] 500 (codes "server_error") (codes "cannot issue token")

method_not_allowed : Text → Response
method_not_allowed method =
    write_json ((codes "Allow", method) ∷ []) 405 (error_body (codes "method_not_allowed"))

-- The keys of the signers; `none` is a panic on a nil signer.
public_keys : List (Option Signer) → Option (List Key)
public_keys [] = some []
public_keys (none ∷ signers) = none
public_keys (some signer ∷ signers) = elim (public_keys signers) [
  | none ↦ none
  | some keys ↦ some (signer.public_jwk ∷ keys)
]

write_keys : Option (List Key) → Option Response
write_keys none = none
write_keys (some keys) = some (write_json (key_cache ∷ []) 200 (keys_body keys))

unfoldable pub health_http : Response
health_http = write_json [] 200 (status_body (codes "ok") (codes "orionis-auth"))

module _ {Clock : Type 0} where
  unfoldable pub jwks_uri : Server Clock → Text
  jwks_uri s = s.issuer ++ codes "/.well-known/jwks.json"

  unfoldable pub token_endpoint : Server Clock → Text
  token_endpoint s = s.issuer ++ codes "/oauth/token"

  -- `issue` signs with the active signer.
  unfoldable pub environment_of : Server Clock → Environment → Environment
  environment_of s env = record env { sign = s.active_signer.sign }

  module _ (sum256 : Text → List ℕ) where
    answer_forms : Environment → Server Clock → Option (Text × Text) → Option Forms → Response
    answer_forms env s basic none =
        write_oauth_error [] 400 (codes "invalid_request") (codes "invalid form body")
    answer_forms env s basic (some forms) =
        write_issued (issue sum256 (environment_of s env) s.tokens (token_request basic forms))

    unfoldable pub token_http : Environment → Server Clock → Request → Response
    unfolding answer_forms
    token_http env s r =
        if not (text_eq r.method post)
        then write_oauth_error ((codes "Allow", post) ∷ []) 405 (codes "invalid_request")
            (codes "method not allowed")
        else answer_forms env s r.basic_auth (r.parse_form s.max_token_request_body)

  unfoldable pub jwks_http : Server Clock → Request → Option Response
  unfolding method_not_allowed write_keys public_keys
  jwks_http s r =
      if not (text_eq r.method get)
      then some (method_not_allowed get)
      else write_keys (public_keys s.signers)

  unfoldable pub discovery_http : Server Clock → Request → Response
  unfolding method_not_allowed
  discovery_http s r =
      if not (text_eq r.method get)
      then method_not_allowed get
      else write_json [] 200 (
          discovery_body (record {
            issuer = s.issuer;
            token_endpoint = token_endpoint s;
            jwks_uri = jwks_uri s;
            grant_types_supported = codes "client_credentials" ∷ [];
            token_endpoint_auth_methods_supported =
                codes "client_secret_basic" ∷ codes "client_secret_post" ∷ [];
            response_types_supported = codes "token" ∷ [];
            id_token_signing_alg_values_supported = s.active_signer.algorithm ∷ [];
          }))
