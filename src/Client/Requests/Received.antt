-- ===== src/Client/Requests/Received.antt =====
-- What a request for a token gives, and how the server reads it.
use orionis.Base.{
  ◌≡◌, ◌≢◌, inl, inr, refl, sym, ap, ◌∙◌, Bool, true, false, Option, none, some, List, [], ◌∷◌,
  arith, Bool-cases, Option-cases, is_nil, ◌||◌, nil_of_is_nil, ◌==◌,
}
use orionis.Base.Int.{ℤ, pos, ◌<ℤ◌}
use orionis.Text.{Text, codes, text_eq, trim_space, equal_fold, contains_char}
use orionis.Text.Dict.{lookup, insert}
use orionis.Scopes.{normalize_scopes, scope_string}
use orionis.Scopes.Granting.{normalize_scopes-scope_string}
use orionis.Token.{TokenResponse, token_type_bearer}
use orionis.Server.Http.{Forms, token_request, first_non_empty}
use orionis.Client.Tokens.{CachedToken}
use orionis.Client.Tokens.Freshness.{IsReceived}
use orionis.Client.Requests.Decoding.{IsBodyOf, decoded-IsBodyOf}
use orionis.Client.Requests.{
  Authenticator, Reader, read, got, Exchange, Json, checked_response, read_exchange, token_form,
  token_http_request, request_token, OutRequest, ClientSecretBasic, authenticate,
}

-- A token that can be used, and that was received at a time.
pub record IsUsable (now : ℤ) (t : CachedToken) : Type 0 where
  pub has_token : t.response.access_token ≢ []
  pub is_bearer : equal_fold t.response.token_type token_type_bearer ≡ true
  pub lives : pos 0 <ℤ t.response.expires_in
  pub received : IsReceived t now t.response.expires_in

checked_response-some :
    (now : ℤ) (o : Option TokenResponse) (t : CachedToken)
    → checked_response now o ≡ got t
    → o ≡ some t.response
unfolding checked_response
checked_response-some now none t e = absurd (ground arith)
checked_response-some now (some r) t e = ground arith

checked_response-IsUsable :
    (now : ℤ) (o : Option TokenResponse) (t : CachedToken)
    → checked_response now o ≡ got t
    → IsUsable now t
unfolding checked_response is_nil
checked_response-IsUsable now none t e = absurd (ground arith)
checked_response-IsUsable now (some r) t e = record {
  has_token = λ z. ground arith;
  is_bearer = ground arith;
  lives = ground arith;
  received = record { lifetime = refl; expiry = ground arith };
}

read_exchange-IsUsable :
    (json : Json) (now : ℤ) (x : Exchange) (t : CachedToken)
    → read_exchange json now x ≡ got t
    → (body : Reader) × (x ≡ some (200, body)) × IsBodyOf json body t.response × IsUsable now t
unfolding read_exchange
read_exchange-IsUsable json now none t e = absurd (ground arith)
read_exchange-IsUsable json now (some (status, body)) t e = elim (Bool-cases (status == 200)) [
  | inl k ↦
      let same : status ≡ 200 = ground arith in
      (
        body,
        ap (λ x. some (x, body)) same,
        decoded-IsBodyOf json body t.response
            (checked_response-some now _ t (rw (k, read_exchange) at e)),
        checked_response-IsUsable now _ t (rw (k, read_exchange) at e),
      )
  | inr k ↦ absurd (ground arith)
]

-- A token that a request brings is the response that is decoded from the body with which the endpoint
-- answered, with status 200: the body could be read to its end within the limit, and has nothing behind
-- the response. The token has a text, the type "Bearer" and a positive lifetime, and it is kept with the
-- expiry that follows from the time at which it was received; and the request was made, and passed the
-- authenticator.
pub request_token-IsUsable :
    (json : Json) (auth : Authenticator) (url audience : Text) (scopes : List Text) (makes : Bool)
    (send : OutRequest → Exchange) (now : ℤ) (t : CachedToken)
    → request_token json auth url audience scopes makes send now ≡ got t
    → (makes ≡ true)
      × (req : OutRequest) × (auth (token_http_request url audience scopes) ≡ some req)
      × (body : Reader) × (send req ≡ some (200, body))
      × IsBodyOf json body t.response
      × IsUsable now t
unfolding request_token
request_token-IsUsable json auth url audience scopes makes send now t e = elim (Bool-cases makes) [
  | inr k ↦ absurd (ground arith)
  | inl k ↦ elim (Option-cases (auth (token_http_request url audience scopes))) [
    | inl f ↦ absurd (ground arith)
    | inr (req, f) ↦
        let (body, x, whole, u) =
          read_exchange-IsUsable json now (send req) t (rw (k, f, request_token) at e) in
        (k, req, f, body, x, whole, u)
  ]
]

-- What a key of a form stands for; a missing key is "".
abbrev pub form_value : Text → List (Text × Text) → Text
form_value key form = elim (lookup key form) [ none ↦ [] | some v ↦ v ]

is_nil-false : (s : Text) → s ≢ [] → is_nil s ≡ false
unfolding is_nil
is_nil-false [] n = absurd (n refl)
is_nil-false (c ∷ s) n = refl

module _ (audience : Text) (scopes : List Text) where
  form_scope : form_value (codes "scope") (token_form audience scopes) ≡ scope_string scopes
  unfolding token_form lookup insert text_eq is_nil
  form_scope = elim (Bool-cases (is_nil (scope_string scopes))) [
    | inl e ↦ rw e (sym (nil_of_is_nil _ e))
    | inr e ↦ rw e refl
  ]

  form_grant :
      form_value (codes "grant_type") (token_form audience scopes) ≡ codes "client_credentials"
  unfolding token_form lookup insert text_eq
  form_grant = elim (Bool-cases (is_nil (scope_string scopes))) [
    | inl e ↦ rw e refl
    | inr e ↦ rw e refl
  ]

  form_audience : form_value (codes "audience") (token_form audience scopes) ≡ audience
  unfolding token_form lookup insert text_eq
  form_audience = elim (Bool-cases (is_nil (scope_string scopes))) [
    | inl e ↦ rw e refl
    | inr e ↦ rw e refl
  ]

-- net/http carries credentials whose name has no ':', which is where they are cut.
abbrev pub IsCarrying : (Option (Text × Text) → Option (Text × Text)) → Type 0
IsCarrying carried =
    (id secret : Text)
    → contains_char id b':' ≡ false
    → carried (some (id, secret)) ≡ some (id, secret)

authenticate-basic :
    (a : ClientSecretBasic) (req out : OutRequest)
    → authenticate a req ≡ some out
    → (out.basic_auth ≡ some (a.client_id, a.client_secret)) × (out.form ≡ req.form)
unfolding authenticate
authenticate-basic a req out e =
    elim (Bool-cases (is_nil (trim_space a.client_id) || is_nil a.client_secret)) [
      | inl k ↦ absurd (ground arith)
      | inr k ↦
          let same : some (record req { basic_auth = some (a.client_id, a.client_secret) })
              ≡ some out =
            rw (k, authenticate) at e in
          let at_out : record req { basic_auth = some (a.client_id, a.client_secret) } ≡ out =
            ground arith in
          (ap (λ x. x.basic_auth) (sym at_out), ap (λ x. x.form) (sym at_out))
    ]

-- From a request for a token that `ClientSecretBasic` has authenticated, the server reads the grant, the
-- audience and the scopes that the client asked for, and the client's id and secret: the id and the
-- audience trimmed, the scopes normalised; if the client's id has no ':', the audience is not blank, and
-- net/http carries such credentials and the form: each key has the value that the form was given, or "".
pub token_request-token_form :
    (carried : Option (Text × Text) → Option (Text × Text)) (a : ClientSecretBasic)
    (url audience : Text) (scopes : List Text) (req : OutRequest) (forms : Forms)
    → IsCarrying carried
    → authenticate a (token_http_request url audience scopes) ≡ some req
    → contains_char a.client_id b':' ≡ false
    → ((key : Text) → forms.form key ≡ form_value key req.form)
    → trim_space audience ≢ []
    → token_request (carried req.basic_auth) forms ≡ record {
      grant_type = codes "client_credentials";
      client_id = trim_space a.client_id;
      client_secret = a.client_secret;
      audience = trim_space audience;
      scopes = normalize_scopes scopes;
    }
unfolding token_request first_non_empty token_http_request
token_request-token_form carried a url audience scopes req forms law made plain read nonblank =
    let (basic, form) = authenticate-basic a (token_http_request url audience scopes) req made in
    let sent = ap carried basic ∙ law a.client_id a.client_secret plain in
    let value_at = λ (key : Text). read key ∙ ap (form_value key) form in
    let grant = value_at (codes "grant_type") ∙ form_grant audience scopes in
    let aud = value_at (codes "audience") ∙ form_audience audience scopes in
    let scope = value_at (codes "scope") ∙ form_scope audience scopes in
    let nonblank_first : is_nil (trim_space audience) ≡ false =
      is_nil-false (trim_space audience) nonblank in
    rw (sent, grant, aud, scope, normalize_scopes-scope_string scopes)
      (rw (nonblank_first, first_non_empty) refl)
