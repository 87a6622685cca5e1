-- ===== src/Tests/Requesting.antt =====
-- A token is requested, and put into a request.
use orionis.Base.{ℕ, ◌≡◌, inr, refl, Bool, true, false, none, some, List, [], ◌∷◌, arith, is_nil}
use orionis.Base.Time.{in_seconds}
use orionis.Base.Int.{ℤ, pos, ◌+ℤ◌, ◌<ℤ◌}
use orionis.Text.{Text, codes, trim_space, equal_fold, contains_char}
use orionis.Scopes.{normalize_scopes}
use orionis.Token.{TokenResponse}
use orionis.Server.Http.{Forms, token_request}
use orionis.Client.Requests.{
  OutRequest, Authenticator, ClientSecretBasic, authenticate, Reader, reader, eof, malformed, value,
  Json, Exchange, request_token, decode, read, token_http_request, token_form,
}
use orionis.Client.Requests.Decoding.{IsBodyOf}
use orionis.Client.Requests.Received.{
  IsUsable, request_token-IsUsable, form_value, token_request-token_form,
}
use orionis.Client.Cache.{new_cache}
use orionis.Client.Provider.{
  HttpRequest, Provider, Result, ok, token, token_response, target, authorize_request, Transport,
  Sender, or_default, round_trip,
}
use orionis.Client.Provider.Signing.{IsSigned, round_trip-IsSigned}
use orionis.Client.Config.{Config, build_provider, normalize_config}
use orionis.Client.Cache.Sharing.{IsFetched}
use orionis.Client.Provider.Serving.{built-hit_unexpired}
use orionis.Tests.Sharing.{response, fresh, key, done, done_reached, done_hits}

-- A JSON decoder that finds the response in a body of one byte.
abbrev json : Json
json = record {
  next_response = λ raw. elim raw [ [] ↦ eof | c ∷ rest ↦ value response rest ];
  next_any = λ raw. elim raw [ [] ↦ eof | c ∷ rest ↦ malformed ];
  unmarshal_error = λ raw. none;
}

abbrev credentials : ClientSecretBasic
credentials = record { client_id = codes "billing"; client_secret = codes "pw" }

abbrev basic : Authenticator
basic = authenticate credentials

abbrev send : OutRequest → Exchange
send req = some (200, reader (codes "{") false)

abbrev audience : Text
audience = codes "orders"

abbrev scopes : List Text
scopes = codes "read" ∷ []

abbrev sent_request : OutRequest
sent_request = record (token_http_request (codes "https://auth/oauth/token") audience scopes) {
  basic_auth = some (codes "billing", codes "pw");
}

-- What a run of a request computes with.
run : ℕ → ℕ
unfolding request_token authenticate is_nil trim_space equal_fold contains_char decode read ◌+ℤ◌
run n = n

request_token-IsUsable_example :
    ◌≡◌ {A = Bool} true true
    × (req : OutRequest) × (basic
          (token_http_request (codes "https://auth/oauth/token") audience scopes)
        ≡ some req)
    × (body : Reader) × (send req ≡ some (200, body))
    × IsBodyOf json body fresh.response
    × IsUsable (pos 1_000_000_000) fresh
unfolding run
request_token-IsUsable_example =
    request_token-IsUsable json basic (codes "https://auth/oauth/token") audience scopes true send
      (pos 1_000_000_000) fresh refl

abbrev forms : Forms
forms = record {
  form = λ key. form_value key (token_form audience scopes);
  post_form = λ key. form_value key (token_form audience scopes);
}

token_request-token_form_example :
    token_request (some (codes "billing", codes "pw")) forms ≡ record {
      grant_type = codes "client_credentials";
      client_id = trim_space (codes "billing");
      client_secret = codes "pw";
      audience = trim_space audience;
      scopes = normalize_scopes scopes;
    }
unfolding run token_http_request token_form
token_request-token_form_example =
    token_request-token_form (λ c. c) credentials (codes "https://auth/oauth/token") audience scopes
      sent_request forms (λ id secret plain. refl) refl refl (λ key. refl) (λ e. ground arith)

abbrev raw_config : Config ℕ
raw_config = record {
  token_url = codes " https://auth/oauth/token";
  client_id = codes "billing";
  client_secret = codes "pw";
  audience = codes " orders ";
  scopes = codes "read" ∷ [];
  http_client = none;
  authenticator = none;
  refresh_skew = pos 0;
}

abbrev pub provider : Provider ℕ
provider = record {
  token_url = codes "https://auth/oauth/token";
  audience = codes "orders";
  scopes = normalize_scopes (codes "read" ∷ []);
  http_client = some 7;
  authenticator = some basic;
  tokens = new_cache (pos 60_000_000_000);
}

abbrev default_client : ℤ → ℕ
default_client timeout = 7

abbrev pub respond : Text → List Text → Result TokenResponse
respond aud ss = ok response

abbrev pub plain : HttpRequest
plain = record { url = codes "https://orders/items"; headers = [] }

abbrev pub signed : HttpRequest
signed = record plain { headers = (codes "Authorization", codes "Bearer abc") ∷ [] }

abbrev transport : Transport ℕ ℕ
transport = record { base = none; provider = some provider; audience = codes "orders"; scopes = [] }

abbrev sender : Sender ℕ ℕ
sender base req = some 200

round_trip-IsSigned_example :
    (signed : HttpRequest) × (value : Text) × (token respond transport.provider transport.audience
        transport.scopes
      ≡ ok value)
    × IsSigned plain signed value
    × (sender (or_default 0 transport.base) signed ≡ some 200)
unfolding round_trip authorize_request token token_response target is_nil trim_space
round_trip-IsSigned_example = round_trip-IsSigned respond sender 0 transport plain 200 refl

built-hit_unexpired_example :
    IsFetched done.provider key fresh
    × (pos 2_000_000_000 <ℤ (pos 1_000_000_000 +ℤ in_seconds (pos 300)))
unfolding run build_provider normalize_config
built-hit_unexpired_example =
    built-hit_unexpired default_client raw_config provider 2 done key fresh json basic
      (codes "https://auth/oauth/token") audience scopes true send (pos 1_000_000_000)
      (pos 2_000_000_000) refl done_reached refl (omega arith) (inr done_hits)
