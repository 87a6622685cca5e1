-- ===== src/Client/Provider.antt =====
-- client/provider.go, client/target.go and client/transport.go: the provider of tokens, its targets,
-- and the transport that signs requests. What `tokenResponse` answers is the parameter `respond`: its
-- callers are those of Client/Cache/Flight. HTTP clients, requests and answers of the network are types.
pub mod Serving
pub mod Signing
use orionis.Base.{
  ℕ, ◌≡◌, refl, Bool, true, false, Option, none, some, List, [], ◌∷◌, ◌++◌, if◌then◌else◌, is_nil,
}
use orionis.Base.Int.{ℤ}
use orionis.Text.{Text, codes, trim_space}
use orionis.Text.Dict.{lookup, insert}
use orionis.Scopes.{normalize_scopes}
use orionis.Token.{TokenResponse}
use orionis.Client.Requests.{Authenticator}
use orionis.Client.Cache.{TokenCache}
use orionis.Client.Cache.Flight.Counting.{Refusal}

-- A request of net/http, as far as it is read here.
pub record HttpRequest : Type 0 where
  pub url : Text
  pub headers : List (Text × Text)

-- `Header.Get`: "" for a header that is missing.
abbrev pub get_header : Text → HttpRequest → Text
get_header key req = elim (lookup key req.headers) [ none ↦ [] | some v ↦ v ]

pub record Provider (H : Type 0) : Type 0 where
  pub token_url : Text
  pub audience : Text
  pub scopes : List Text
  pub http_client : Option H
  pub authenticator : Option Authenticator
  pub tokens : TokenCache

pub data ProviderError : Type 0 where
  nil_provider : ProviderError
  nil_request : ProviderError
  audience_required : ProviderError
  no_token : Refusal → ProviderError
  sending_failed : ProviderError

pub data Result (A : Type 0) : Type 0 where
  ok : A → Result A
  error : ProviderError → Result A

abbrev pub then_ok : {A B : Type 0} → (A → B) → Result A → Result B
then_ok f (ok x) = ok (f x)
then_ok f (error e) = error e

respond_at :
    (Text → List Text → Result TokenResponse) → Result (Text × List Text) → Result TokenResponse
respond_at respond (ok (audience, scopes)) = respond audience scopes
respond_at respond (error e) = error e

module _ {H : Type 0} where
  -- The audience and the scopes that are asked for, or those of the provider.
  unfoldable pub target : Provider H → Text → List Text → Result (Text × List Text)
  target p audience scopes =
      let aud = trim_space (if is_nil (trim_space audience) then p.audience else audience) in
      let ss = normalize_scopes (if is_nil scopes then p.scopes else scopes) in
      if is_nil aud then error audience_required else ok (aud, ss)

  module _ (respond : Text → List Text → Result TokenResponse) where
    unfoldable pub token_response : Option (Provider H) → Text → List Text → Result TokenResponse
    unfolding respond_at
    token_response none audience scopes = error nil_provider
    token_response (some p) audience scopes = respond_at respond (target p audience scopes)

    unfoldable pub token : Option (Provider H) → Text → List Text → Result Text
    token p audience scopes = then_ok (λ r. r.access_token) (token_response p audience scopes)

    -- The request with its token; a request that is nil is refused.
    unfoldable pub authorize_request :
        Option (Provider H) → Option HttpRequest → Text → List Text → Result HttpRequest
    authorize_request p none audience scopes = error nil_request
    authorize_request p (some req) audience scopes =
        then_ok
          (λ value. record req {
            headers = insert (codes "Authorization") (codes "Bearer " ++ value) req.headers;
          })
          (token p audience scopes)

-- A base of `none` is nil.
pub record Transport (H B : Type 0) : Type 0 where
  pub base : Option B
  pub provider : Option (Provider H)
  pub audience : Text
  pub scopes : List Text

pub record Target (H : Type 0) : Type 0 where
  pub provider : Option (Provider H)
  pub audience : Text
  pub scopes : List Text

module _ {H : Type 0} where
  unfoldable pub provider_for : Option (Provider H) → Text → List Text → Target H
  provider_for p audience scopes = record {
    provider = p;
    audience = audience;
    scopes = normalize_scopes scopes;
  }

  unfoldable pub target_scopes : Target H → List Text → Target H
  target_scopes t scopes = record t { scopes = normalize_scopes scopes }

  module _ (respond : Text → List Text → Result TokenResponse) where
    unfoldable pub target_token : Target H → Result Text
    target_token t = token respond t.provider t.audience t.scopes

    unfoldable pub target_token_response : Target H → Result TokenResponse
    target_token_response t = token_response respond t.provider t.audience t.scopes

    unfoldable pub target_authorize_request : Target H → Option HttpRequest → Result HttpRequest
    target_authorize_request t req = authorize_request respond t.provider req t.audience t.scopes

module _ {H B : Type 0} where
  unfoldable pub provider_transport : Option (Provider H) → Option B → Transport H B
  provider_transport p base = record { base = base; provider = p; audience = []; scopes = [] }

  unfoldable pub target_transport : Target H → Option B → Transport H B
  target_transport t base = record {
    base = base;
    provider = t.provider;
    audience = t.audience;
    scopes = t.scopes;
  }

  -- `NewHTTPClient`: the transport of the new client, from that of the base client.
  unfoldable pub new_http_client :
      Option (Option B) → Option B → Option (Provider H) → Text → List Text → Transport H B
  new_http_client base default_base p audience scopes = record {
    base = elim base [ none ↦ default_base | some transport ↦ transport ];
    provider = p;
    audience = audience;
    scopes = normalize_scopes scopes;
  }

  unfoldable pub provider_http_client :
      Option (Provider H) → Option (Option B) → Option B → Transport H B
  provider_http_client p base default_base = new_http_client base default_base p [] []

  unfoldable pub target_http_client : Target H → Option (Option B) → Option B → Transport H B
  target_http_client t base default_base =
      new_http_client base default_base t.provider t.audience t.scopes

-- `Base.RoundTrip`: the answer of the network, or an error.
abbrev pub Sender : Type 0 → Type 0 → Type 0
Sender B R = B → HttpRequest → Option R

sent : {R : Type 0} → Option R → Result R
sent none = error sending_failed
sent (some answer) = ok answer

send_authorized : {B R : Type 0} → Sender B R → B → Result HttpRequest → Result R
unfolding sent
send_authorized send base (ok req) = sent (send base req)
send_authorized send base (error e) = error e

abbrev pub or_default : {B : Type 0} → B → Option B → B
or_default default none = default
or_default default (some base) = base

module _ {H B R : Type 0} (respond : Text → List Text → Result TokenResponse) (send : Sender B R)
    (default_transport : B) where
  -- The transport may be nil, and so may the request.
  unfoldable pub round_trip : Option (Transport H B) → Option HttpRequest → Result R
  unfolding send_authorized
  round_trip none req = error nil_provider
  round_trip (some t) req = elim t.provider [
    | none ↦ error nil_provider
    | some p ↦
        send_authorized send (or_default default_transport t.base)
          (authorize_request respond (some p) req t.audience t.scopes)
  ]
