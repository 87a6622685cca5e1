-- ===== src/Client/Requests.antt =====
-- client/token_http.go, client/authenticator.go and internal/httpjson/httpjson.go: the request for a
-- token and its answer. What the HTTP client returns is the data type `Exchange`.
pub mod Decoding
pub mod Received
use orionis.Base.{
  ℕ, suc, ◌+◌, ◌≡◌, refl, Bool, true, false, not, ◌&&◌, ◌||◌, Option, none, some, List, [], ◌∷◌,
  ◌++◌, length, ltb, ◌==◌, if◌then◌else◌, is_nil,
}
use orionis.Base.Int.{ℤ, pos, leb_ℤ, ◌+ℤ◌}
use orionis.Base.Time.{seconds}
use orionis.Text.{Text, codes, text_eq, trim_space, equal_fold}
use orionis.Text.Dict.{lookup, insert}
use orionis.Scopes.{scope_string}
use orionis.Token.{TokenResponse, token_type_bearer}
use orionis.Client.Tokens.{CachedToken}

-- A request on its way out. `SetBasicAuth` is kept as the two texts that it is given.
pub record OutRequest : Type 0 where
  pub method : Text
  pub url : Text
  pub form : List (Text × Text)
  pub headers : List (Text × Text)
  pub basic_auth : Option (Text × Text)

-- The interface `Authenticator`; `none` is an error.
abbrev pub Authenticator : Type 0
Authenticator = OutRequest → Option OutRequest

pub record ClientSecretBasic : Type 0 where
  pub client_id : Text
  pub client_secret : Text

unfoldable pub authenticate : ClientSecretBasic → Authenticator
authenticate a req =
    if is_nil (trim_space a.client_id) || is_nil a.client_secret
    then none
    else some (record req { basic_auth = some (a.client_id, a.client_secret) })

pub data ReadError : Type 0 where
  nil_body read_failed too_large : ReadError

-- `none` is a nil reader; a reader gives its bytes, and whether it fails behind them.
pub data Reader : Type 0 where
  nil_reader : Reader
  reader : List ℕ → Bool → Reader

pub data ReadResult : Type 0 where
  bytes : List ℕ → ReadResult
  read_error : ReadError → ReadResult

-- The reader is read to its end, or to one byte more than the limit.
read_limited : ℕ → List ℕ → Bool → ReadResult
read_limited max_bytes raw fails =
    if ltb max_bytes (length raw)
    then read_error too_large
    else if fails
    then read_error read_failed
    else bytes raw

unfoldable pub read : Reader → ℕ → ReadResult
unfolding read_limited
read nil_reader max_bytes = read_error nil_body
read (reader raw fails) max_bytes = read_limited max_bytes raw fails

-- What a JSON decoder finds next in the bytes: the end, something malformed, or a value and the rest.
pub data Next (V : Type 0) : Type 0 where
  eof : Next V
  malformed : Next V
  value : V → List ℕ → Next V

-- `Decode`: exactly one value, and then the end. `none` is an error.
decode_rest : {V W : Type 0} → (List ℕ → Next W) → Next V → Option V
decode_rest skip eof = none
decode_rest skip malformed = none
decode_rest skip (value v rest) = elim (skip rest) [
  | eof ↦ some v
  | malformed ↦ none
  | value w r ↦ none
]

unfoldable pub decode :
    {V W : Type 0} → (List ℕ → Next V) → (List ℕ → Next W) → Reader → ℕ → Option V
unfolding decode_rest
decode next skip r max_bytes = elim (read r max_bytes) [
  | read_error e ↦ none
  | bytes raw ↦ decode_rest skip (next raw)
]

abbrev pub max_token_response_body : ℕ
max_token_response_body = 1_048_576

-- Why a token cannot be had. `status_error` holds the code and the description that the body names.
pub data TokenError : Type 0 where
  bad_request not_authenticated request_failed bad_body invalid_response : TokenError
  unread_error : ℕ → TokenError
  status_error : ℕ → Option (Text × Text) → TokenError

pub data Outcome : Type 0 where
  got : CachedToken → Outcome
  failed : TokenError → Outcome

-- `none` is an error of `Do`; otherwise the status and the body.
abbrev pub Exchange : Type 0
Exchange = Option (ℕ × Reader)

-- The decoders of `encoding/json`: a token response, the two fields of an error, and any value.
pub record Json : Type 0 where
  pub next_response : List ℕ → Next TokenResponse
  pub next_any : List ℕ → Next (Unit {0})
  pub unmarshal_error : List ℕ → Option (Text × Text)

-- The error that a body names, if its code is not empty.
named_error : Option (Text × Text) → Option (Text × Text)
named_error none = none
named_error (some (code, text)) = if is_nil code then none else some (code, text)

token_response_error : Json → ℕ → Reader → TokenError
token_response_error json status body = elim (read body max_token_response_body) [
  | read_error e ↦ unread_error status
  | bytes raw ↦ status_error status (named_error (json.unmarshal_error raw))
]

unfoldable pub token_form : Text → List Text → List (Text × Text)
token_form audience scopes =
    let base =
      insert (codes "audience") audience
        (insert (codes "grant_type") (codes "client_credentials") []) in
    if is_nil (scope_string scopes) then base else insert (codes "scope") (scope_string scopes) base

unfoldable pub token_http_request : Text → Text → List Text → OutRequest
token_http_request url audience scopes = record {
  method = codes "POST";
  url = url;
  form = token_form audience scopes;
  headers =
      insert (codes "Accept") (codes "application/json")
        (insert (codes "Content-Type") (codes "application/x-www-form-urlencoded") []);
  basic_auth = none;
}

-- The checks of a response that was decoded.
checked_response : ℤ → Option TokenResponse → Outcome
checked_response now none = failed bad_body
checked_response now (some response) =
    if is_nil response.access_token
      || not (equal_fold response.token_type token_type_bearer)
      || leb_ℤ response.expires_in (pos 0)
    then failed invalid_response
    else got (record { response = response; expires_at = now +ℤ seconds response.expires_in })

read_exchange : Json → ℤ → Exchange → Outcome
read_exchange json now none = failed request_failed
read_exchange json now (some (status, body)) =
    if not (status == 200)
    then failed (token_response_error json status body)
    else checked_response now (decode json.next_response json.next_any body max_token_response_body)

-- `requestToken`: `makes` tells whether the request can be made; `send` is `httpClient.Do`.
unfoldable pub request_token :
    Json → Authenticator → Text → Text → List Text → Bool → (OutRequest → Exchange) → ℤ → Outcome
unfolding read_exchange checked_response token_response_error named_error
request_token json auth url audience scopes makes send now =
    if not makes then failed bad_request else elim (auth (token_http_request url audience scopes)) [
      | none ↦ failed not_authenticated
      | some req ↦ read_exchange json now (send req)
    ]
