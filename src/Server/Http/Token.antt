-- ===== src/Server/Http/Token.antt =====
-- The token endpoint.
use orionis.Base.{
  ◌≡◌, ◌≢◌, inl, inr, refl, Option, none, some, List, [], ◌∷◌, arith, Bool-cases, All, Has, ℕ,
}
use orionis.Text.{Text, codes, text_eq, IsWord}
use orionis.Text.Order.{text_eq_iff}
use orionis.Stringset.Canonical.{normalize-IsWord}
use orionis.Scopes.{normalize_scopes}
use orionis.Token.{TokenResponse}
use orionis.Server.Client.{Client}
use orionis.Server.TokenService.{
  Environment, status, error_code, Issued, issued, oauth_error, issue_failed, invalid_client,
  unsupported_grant_type, audience_missing, invalid_target, invalid_scope,
}
use orionis.Server.TokenService.Grant.{IsClientOf, IsTokenOf, issue_sound}
use orionis.Jwk.Key.{Key}
use orionis.Server.Config.{Server}
use orionis.Server.Http.{
  Forms, Request, Response, oauth_body, token_body, challenge, no_store, post, write_json,
  write_oauth_error, error_headers, write_issued, token_request, answer_forms, token_http,
  environment_of, get, method_not_allowed, write_keys, public_keys, jwks_http, discovery_http,
}

token_request_words :
    (basic : Option (Text × Text)) (f : Forms) → All IsWord (token_request basic f).scopes
unfolding token_request normalize_scopes
token_request_words basic f = normalize-IsWord (f.form (codes "scope") ∷ [])

written_token :
    (i : Issued) (t : TokenResponse) → (write_issued i).body ≡ token_body t → i ≡ issued t
unfolding write_issued write_json write_oauth_error
written_token (issued r) t e = ground arith
written_token (oauth_error x) t e = absurd (ground arith)
written_token issue_failed t e = absurd (ground arith)

module _ {Clock : Type 0} (sum256 : Text → List ℕ) (env : Environment) (s : Server Clock)
    (r : Request) where
  -- The forms of the request whose token request is answered.
  pub record IsServed (t : TokenResponse) : Type 0 where
    pub is_post : r.method ≡ post
    pub forms : Forms
    pub parsed : r.parse_form s.max_token_request_body ≡ some forms
    pub client : Client
    pub authenticated : IsClientOf sum256 s.tokens (token_request r.basic_auth forms) client
    pub signed :
        IsTokenOf (environment_of s env) s.tokens (token_request r.basic_auth forms) client t

  served :
      (t : TokenResponse) (o : Option Forms)
      → r.method ≡ post
      → r.parse_form s.max_token_request_body ≡ o
      → (answer_forms sum256 env s r.basic_auth o).body ≡ token_body t
      → IsServed t
  unfolding answer_forms write_oauth_error write_json
  served t none m k e = absurd (ground arith)
  served t (some f) m k e =
      let q = token_request r.basic_auth f in
      let (c, a, b) =
        issue_sound sum256 (environment_of s env) s.tokens q t (token_request_words r.basic_auth f)
          (written_token _ t e) in
      record { is_post = m; forms = f; parsed = k; client = c; authenticated = a; signed = b }

  -- The endpoint writes a token only in answer to a POST request whose form is read within the limit on
  -- the body. The store has an enabled client under the request's client id that its secret opens, and
  -- the token, signed by the active signer, holds scopes that are allowed to the client and asked for.
  pub token_http_sound :
      (t : TokenResponse) → (token_http sum256 env s r).body ≡ token_body t → IsServed t
  unfolding token_http write_oauth_error write_json
  token_http_sound t e = elim (Bool-cases (text_eq r.method post)) [
    | inl k ↦
        served t (r.parse_form s.max_token_request_body) ((text_eq_iff r.method post).0 k) refl
          (rw (token_http, k) at e)
    | inr k ↦ absurd (ground arith)
  ]

-- The status, the headers and the body of an answer fit each other.
pub data IsAnswer (a : Response) : Type 0 where
  ok :
      (t : TokenResponse)
      → a.status_code ≡ 200
      → a.body ≡ token_body t
      → Has no_store a.headers
      → IsAnswer a
  unauthorized :
      a.status_code ≡ 401
      → Has challenge a.headers
      → (text : Text) → a.body ≡ oauth_body (codes "invalid_client") text
      → IsAnswer a
  refused :
      Has a.status_code (400 ∷ 403 ∷ 405 ∷ 500 ∷ [])
      → (code text : Text) → a.body ≡ oauth_body code text
      → code ≢ codes "invalid_client"
      → IsAnswer a

write_issued-IsAnswer : (i : Issued) → IsAnswer (write_issued i)
unfolding write_issued write_json write_oauth_error error_headers error_code status text_eq
write_issued-IsAnswer (issued t) = ok t refl refl (inl refl)
write_issued-IsAnswer issue_failed =
    refused (inr (inr (inr (inl refl)))) _ _ refl (λ e. ground arith)
write_issued-IsAnswer (oauth_error unsupported_grant_type) =
    refused (inl refl) _ _ refl (λ e. ground arith)
write_issued-IsAnswer (oauth_error invalid_client) = unauthorized refl (inl refl) _ refl
write_issued-IsAnswer (oauth_error audience_missing) =
    refused (inl refl) _ _ refl (λ e. ground arith)
write_issued-IsAnswer (oauth_error invalid_target) =
    refused (inr (inl refl)) _ _ refl (λ e. ground arith)
write_issued-IsAnswer (oauth_error invalid_scope) = refused (inl refl) _ _ refl (λ e. ground arith)

module _ {Clock : Type 0} (sum256 : Text → List ℕ) (env : Environment) (s : Server Clock) where
  answer_forms-IsAnswer :
      (basic : Option (Text × Text)) (o : Option Forms)
      → IsAnswer (answer_forms sum256 env s basic o)
  unfolding answer_forms write_oauth_error write_json
  answer_forms-IsAnswer basic none = refused (inl refl) _ _ refl (λ e. ground arith)
  answer_forms-IsAnswer basic (some f) = write_issued-IsAnswer _

  -- Each answer of the token endpoint is one of three kinds: a token, with status 200 and a header
  -- that forbids to store it; the error "invalid_client", with status 401 and a challenge; or another
  -- error, with status 400, 403, 405 or 500.
  pub token_http-IsAnswer : (r : Request) → IsAnswer (token_http sum256 env s r)
  unfolding token_http write_oauth_error write_json
  token_http-IsAnswer r = elim (Bool-cases (text_eq r.method post)) [
    | inl k ↦
        rw (token_http, k)
          (answer_forms-IsAnswer r.basic_auth (r.parse_form s.max_token_request_body))
    | inr k ↦ rw (token_http, k) (refused (inr (inr (inl refl))) _ _ refl (λ e. ground arith))
  ]

-- The other endpoints write no token.
module _ {Clock : Type 0} (s : Server Clock) (q : Request) (t : TokenResponse) where
  write_keys_no_token :
      (keys : Option (List Key)) (r : Response) → write_keys keys ≡ some r → r.body ≢ token_body t
  unfolding write_keys write_json
  write_keys_no_token none r e b = ground arith
  write_keys_no_token (some keys) r e b = ground arith

  pub jwks_http_no_token : (r : Response) → jwks_http s q ≡ some r → r.body ≢ token_body t
  unfolding jwks_http method_not_allowed write_json
  jwks_http_no_token r e b = elim (Bool-cases (text_eq q.method get)) [
    | inl k ↦ write_keys_no_token (public_keys s.signers) r (rw (k, jwks_http) at e) b
    | inr k ↦ absurd (ground arith)
  ]

  pub discovery_http_no_token : (discovery_http s q).body ≢ token_body t
  unfolding discovery_http method_not_allowed write_json
  discovery_http_no_token b = elim (Bool-cases (text_eq q.method get)) [
    | inl k ↦ let x = (rw (k, discovery_http) at b) in absurd (ground arith)
    | inr k ↦ let x = (rw (k, discovery_http) at b) in absurd (ground arith)
  ]
