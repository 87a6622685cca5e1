-- ===== src/Server/TokenService/Grant.antt =====
-- What an issued token holds, and that it verifies.
use mathlib.Core.Path.{subst}
use orionis.Base.{
  ◌≡◌, ◌≢◌, inl, inr, refl, sym, ap, true, false, ◌||◌, some, List, [], ◌∷◌, arith, Bool-cases,
  Option-cases, All, Has, ℕ, is_nil,
}
use orionis.Base.Int.{◌+ℤ◌}
use orionis.Text.{Text, trim_space, IsWord, fields}
use orionis.Text.Order.{Has-of_contains}
use orionis.Stringset.Canonical.{normalize-IsWord}
use orionis.Scopes.{normalize_scopes}
use orionis.Scopes.Granting.{fields-scope_string}
use orionis.Claims.{Claims}
use orionis.Token.{TokenResponse, token_use_access}
use orionis.Server.Scopes.{contains_item, resolve_requested_scopes}
use orionis.Server.Scopes.Resolving.{IsIssuable, resolve_sound, All-normalize, issuable_words}
use orionis.Server.Client.{Client, normalize, verify_secret}
use orionis.Server.Store.{
  client_found, client_not_found, find_unauthorized, find_failed, FindResult,
}
use orionis.Server.TokenService.{
  TokenRequest, Environment, TokenService, issued, AuthResult, authenticated, unauthorized,
  not_found, auth_failed, authenticate, check_found, token_claims, response, issue_access_token,
  requested_scopes, issue_scopes, issue_for, issue,
}

-- The client that a request is issued a token for.
pub record IsClientOf (sum256 : Text → List ℕ) (s : TokenService) (q : TokenRequest) (c : Client)
    : Type 0 where
  pub stored : Client
  pub found : s.store q.client_id ≡ client_found stored
  pub enabled : stored.disabled ≡ false
  pub secret_fits : verify_secret sum256 stored q.client_secret ≡ true
  pub normal : c ≡ normalize stored

-- The token of a response: its claims, as they were signed.
pub record IsTokenOf (env : Environment) (s : TokenService) (q : TokenRequest) (c : Client)
    (r : TokenResponse) : Type 0 where
  pub claims : Claims
  pub signed : env.sign claims ≡ some r.access_token
  pub issuer_is : claims.issuer ≡ s.issuer
  pub subject_is : claims.subject ≡ c.id
  pub client_is : claims.client_id ≡ c.id
  pub audience_is : claims.audience ≡ q.audience ∷ []
  pub use_is : claims.token_use ≡ token_use_access
  pub expires_is : claims.expires_at ≡ some (env.numeric_date (env.now +ℤ s.access_token_ttl))
  pub not_before_is : claims.not_before ≡ some (env.numeric_date env.now)
  pub issued_at_is : claims.issued_at ≡ some (env.numeric_date env.now)
  pub scope_is : claims.scope ≡ r.scope
  pub audience_allowed : Has (trim_space q.audience) c.allowed_audiences
  pub scopes_allowed :
      All (IsIssuable c.allowed_scopes (requested_scopes q c)) (fields claims.scope)

check_found-IsClientOf :
    (sum256 : Text → List ℕ) (s : TokenService) (q : TokenRequest) (c : Client) (f : FindResult)
    → s.store q.client_id ≡ f
    → check_found sum256 f q.client_secret ≡ authenticated c
    → IsClientOf sum256 s q c
unfolding check_found
check_found-IsClientOf sum256 s q c client_not_found k e = absurd (ground arith)
check_found-IsClientOf sum256 s q c find_unauthorized k e = absurd (ground arith)
check_found-IsClientOf sum256 s q c find_failed k e = absurd (ground arith)
check_found-IsClientOf sum256 s q c (client_found d) k e = record {
  stored = d;
  found = k;
  enabled = ground arith;
  secret_fits = ground arith;
  normal = ground arith;
}

authenticate-IsClientOf :
    (sum256 : Text → List ℕ) (s : TokenService) (q : TokenRequest) (c : Client)
    → authenticate sum256 s q.client_id q.client_secret ≡ authenticated c
    → IsClientOf sum256 s q c
unfolding authenticate
authenticate-IsClientOf sum256 s q c e =
    elim (Bool-cases (is_nil q.client_id || is_nil q.client_secret)) [
      | inl k ↦ absurd (ground arith)
      | inr k ↦
          check_found-IsClientOf sum256 s q c (s.store q.client_id) refl (rw (k, authenticate) at e)
    ]

module _ (sum256 : Text → List ℕ) (env : Environment) (s : TokenService) (q : TokenRequest) where
  -- The steps of a request that is answered with a token.
  pub record IsAnswered (c : Client) (r : TokenResponse) : Type 0 where
    pub answered : authenticate sum256 s q.client_id q.client_secret ≡ authenticated c
    pub audience_given : q.audience ≢ []
    pub audience_allowed : contains_item c.allowed_audiences q.audience ≡ true
    pub scopes : List Text
    pub resolved : resolve_requested_scopes (requested_scopes q c) c.allowed_scopes ≡ some scopes
    pub jti : Text
    pub signed : env.sign (token_claims env s c q.audience scopes jti) ≡ some r.access_token
    pub response_is : r ≡ response env s (token_claims env s c q.audience scopes jti) r.access_token

  access_token_signed :
      (c : Client) (scopes : List Text) (r : TokenResponse)
      → issue_access_token env s c q.audience scopes ≡ issued r
      → (jti : Text) × (env.sign (token_claims env s c q.audience scopes jti) ≡ some r.access_token)
        × (r ≡ response env s (token_claims env s c q.audience scopes jti) r.access_token)
  unfolding issue_access_token response
  access_token_signed c scopes r e = elim (Option-cases env.random_id) [
    | inl k ↦ absurd (ground arith)
    | inr (jti, k) ↦ elim (Option-cases (env.sign (token_claims env s c q.audience scopes jti))) [
      | inl l ↦ absurd (ground arith)
      | inr (t, l) ↦ (jti, ground arith, ground arith)
    ]
  ]

  issue_for-IsAnswered :
      (a : AuthResult) (r : TokenResponse)
      → authenticate sum256 s q.client_id q.client_secret ≡ a
      → issue_for env s q a ≡ issued r
      → (c : Client) × IsAnswered c r
  unfolding issue_for issue_scopes is_nil
  issue_for-IsAnswered unauthorized r k e = absurd (ground arith)
  issue_for-IsAnswered not_found r k e = absurd (ground arith)
  issue_for-IsAnswered auth_failed r k e = absurd (ground arith)
  issue_for-IsAnswered (authenticated c) r k e =
      elim (Option-cases (resolve_requested_scopes (requested_scopes q c) c.allowed_scopes)) [
        | inl m ↦ absurd (ground arith)
        | inr (scopes, m) ↦
            let (jti, signed, is) = access_token_signed c scopes r (ground arith) in
            (
              c,
              record {
                answered = k;
                audience_given = ground arith;
                audience_allowed = ground arith;
                scopes = scopes;
                resolved = m;
                jti = jti;
                signed = signed;
                response_is = is;
              },
            )
      ]

  pub issue-IsAnswered :
      (r : TokenResponse) → issue sum256 env s q ≡ issued r → (c : Client) × IsAnswered c r
  unfolding issue
  issue-IsAnswered r e = issue_for-IsAnswered _ r refl (ground arith)

  requested_words :
      (c : Client)
      → All IsWord q.scopes
      → All IsWord c.default_scopes
      → All IsWord (requested_scopes q c)
  unfolding requested_scopes
  requested_words c h d = elim (Bool-cases (is_nil q.scopes)) [
    | inl k ↦ rw (k, requested_scopes) d
    | inr k ↦ rw (k, requested_scopes) h
  ]

  answered-IsTokenOf :
      (c : Client) (r : TokenResponse)
      → IsClientOf sum256 s q c
      → All IsWord q.scopes
      → IsAnswered c r
      → IsTokenOf env s q c r
  unfolding normalize normalize_scopes token_claims response contains_item
  answered-IsTokenOf c r k words a =
      let defaults : All IsWord c.default_scopes =
        subst (λ d. All IsWord d.default_scopes) (sym k.normal)
          (normalize-IsWord k.stored.default_scopes) in
      let allowed : All IsWord c.allowed_scopes =
        subst (λ d. All IsWord d.allowed_scopes) (sym k.normal)
          (normalize-IsWord k.stored.allowed_scopes) in
      let h =
        resolve_sound (requested_scopes q c) c.allowed_scopes a.scopes
          (requested_words c words defaults) allowed a.resolved in
      record {
        claims = token_claims env s c q.audience a.scopes a.jti;
        signed = a.signed;
        issuer_is = refl;
        subject_is = refl;
        client_is = refl;
        audience_is = refl;
        use_is = refl;
        expires_is = refl;
        not_before_is = refl;
        issued_at_is = refl;
        scope_is = sym (ap (λ x. x.scope) a.response_is);
        audience_allowed =
            Has-of_contains c.allowed_audiences (trim_space q.audience) a.audience_allowed;
        scopes_allowed =
            subst (All (IsIssuable c.allowed_scopes (requested_scopes q c)))
              (sym (fields-scope_string a.scopes))
              (All-normalize (IsIssuable c.allowed_scopes (requested_scopes q c)) a.scopes
                (issuable_words c.allowed_scopes (requested_scopes q c) a.scopes h) h);
      }

  -- A request whose scopes are words is answered with a token only if the store has an enabled client
  -- under its client id that its secret opens. The token's claims, as they were signed, name the
  -- service as issuer, the client as subject and the requested audience, which the client is allowed,
  -- and are valid from now on for the service's lifetime; and each scope in them is granted by an allowed scope of the client and covered by a scope of the
  -- request, or by one of the client's defaults if the request has none.
  pub issue_sound :
      (r : TokenResponse)
      → All IsWord q.scopes
      → issue sum256 env s q ≡ issued r
      → (c : Client) × IsClientOf sum256 s q c × IsTokenOf env s q c r
  issue_sound r words e =
      let (c, a) = issue-IsAnswered r e in
      let k = authenticate-IsClientOf sum256 s q c a.answered in
      (c, k, answered-IsTokenOf c r k words a)
