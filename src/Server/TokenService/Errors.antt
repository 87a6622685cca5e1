-- ===== src/Server/TokenService/Errors.antt =====
-- When a request is refused as an unknown client, and what a token holds of a plain request.
use mathlib.Core.Path.{subst}
use orionis.Base.{
  ◌≡◌, ◌≢◌, ◌↔◌, ◌⊎◌, inl, inr, refl, sym, ap, ◌∙◌, true, false, Option, none, some, List, [],
  arith, Bool-cases, Option-cases, All, All_of_Has, All_at, Has, ℕ, is_nil, nil_of_is_nil,
  is_nil_of_ne_nil,
}
use orionis.Text.{Text, codes, text_eq, IsWord, fields}
use orionis.Text.Order.{text_eq_iff}
use orionis.Stringset.Collect.{words}
use orionis.Stringset.Canonical.{Has-normalize, words-words, normalize_idem}
use orionis.Scopes.{normalize_scopes, scope_string, contains_scope_wildcard}
use orionis.Scopes.Granting.{Grants, covers_of_Grants, fields-scope_string}
use orionis.Claims.{Claims, scopes, has_scope, has_all_scopes}
use orionis.Claims.Coverage.{scopes-fields, has_all_scopes_iff}
use orionis.Token.{TokenResponse}
use orionis.Server.Scopes.{is_scope_allowed, resolve_requested_scopes}
use orionis.Server.Scopes.Resolving.{Grants-of_allowed, allowed_of_Grants, member-Grants}
use orionis.Server.Scopes.Deciding.{resolve_complete, resolve_refuses}
use orionis.Server.Client.{Client, verify_secret}
use orionis.Server.Store.{
  client_found, client_not_found, find_unauthorized, find_failed, FindResult,
}
use orionis.Server.TokenService.{
  TokenRequest, Environment, TokenService, issued, oauth_error, invalid_client, AuthResult,
  authenticated, unauthorized, not_found, auth_failed, authenticate, check_found, token_claims,
  requested_scopes, issue_access_token, issue_scopes, issue_for, issue,
}
use orionis.Server.TokenService.Grant.{issue-IsAnswered}

-- The credentials open no client: one is missing, the store has no such client or refuses to tell,
-- or the client is disabled or has another secret.
pub data IsUnknown (sum256 : Text → List ℕ) (s : TokenService) (q : TokenRequest) : Type 0 where
  no_id : q.client_id ≡ [] → IsUnknown sum256 s q
  no_secret : q.client_secret ≡ [] → IsUnknown sum256 s q
  no_client : s.store q.client_id ≡ client_not_found → IsUnknown sum256 s q
  refused_by_store : s.store q.client_id ≡ find_unauthorized → IsUnknown sum256 s q
  closed :
      (c : Client)
      → s.store q.client_id ≡ client_found c
      → (c.disabled ≡ true) ⊎ (verify_secret sum256 c q.client_secret ≡ false)
      → IsUnknown sum256 s q

abbrev client_credentials : Text
client_credentials = codes "client_credentials"

-- The two answers of `authenticate` that end in the error "invalid_client".
abbrev IsRefused : AuthResult → Type 0
IsRefused r = (r ≡ unauthorized) ⊎ (r ≡ not_found)

module _ (sum256 : Text → List ℕ) (env : Environment) (s : TokenService) (q : TokenRequest) where
  check_found-IsUnknown :
      (f : FindResult)
      → s.store q.client_id ≡ f
      → IsRefused (check_found sum256 f q.client_secret)
      → IsUnknown sum256 s q
  unfolding check_found
  check_found-IsUnknown client_not_found k e = no_client k
  check_found-IsUnknown find_unauthorized k e = refused_by_store k
  check_found-IsUnknown find_failed k e = absurd (ground arith)
  check_found-IsUnknown (client_found c) k e = closed c k (ground arith)

  refused-IsUnknown :
      IsRefused (authenticate sum256 s q.client_id q.client_secret) → IsUnknown sum256 s q
  unfolding authenticate
  refused-IsUnknown e = elim (Bool-cases (is_nil q.client_id)) [
    | inl k ↦ no_id (nil_of_is_nil q.client_id k)
    | inr k ↦ elim (Bool-cases (is_nil q.client_secret)) [
      | inl l ↦ no_secret (nil_of_is_nil q.client_secret l)
      | inr l ↦ check_found-IsUnknown (s.store q.client_id) refl (rw (k, l, authenticate) at e)
    ]
  ]

  IsUnknown-IsRefused :
      IsUnknown sum256 s q → IsRefused (authenticate sum256 s q.client_id q.client_secret)
  unfolding authenticate check_found is_nil
  IsUnknown-IsRefused (no_id e) = ground arith
  IsUnknown-IsRefused (no_secret e) = ground arith
  IsUnknown-IsRefused (no_client e) = ground arith
  IsUnknown-IsRefused (refused_by_store e) = ground arith
  IsUnknown-IsRefused (closed c e k) = ground arith

  scopes_not_client :
      (c : Client) (o : Option (List Text))
      → issue_scopes env s c q.audience o ≡ oauth_error invalid_client
      → ⊥
  unfolding issue_scopes issue_access_token
  scopes_not_client c none e = ground arith
  scopes_not_client c (some l) e = elim (Option-cases env.random_id) [
    | inl k ↦ ground arith
    | inr (jti, k) ↦ elim (Option-cases (env.sign (token_claims env s c q.audience l jti))) [
      | inl m ↦ ground arith
      | inr (t, m) ↦ ground arith
    ]
  ]

  IsRefused-of_issue_for :
      (a : AuthResult) → issue_for env s q a ≡ oauth_error invalid_client → IsRefused a
  unfolding issue_for
  IsRefused-of_issue_for unauthorized e = inl refl
  IsRefused-of_issue_for not_found e = inr refl
  IsRefused-of_issue_for auth_failed e = absurd (ground arith)
  IsRefused-of_issue_for (authenticated c) e = ground (
    arith,
    scopes_not_client c (resolve_requested_scopes (requested_scopes q c) c.allowed_scopes),
  )

  issue_for_refused :
      (a : AuthResult) → IsRefused a → issue_for env s q a ≡ oauth_error invalid_client
  unfolding issue_for
  issue_for_refused unauthorized e = refl
  issue_for_refused not_found e = refl
  issue_for_refused auth_failed e = absurd (ground arith)
  issue_for_refused (authenticated c) e = absurd (ground arith)

  -- The error "invalid_client" is the answer to exactly the client credentials requests whose
  -- credentials open no client. So it does not tell an unknown client from a disabled one or from a
  -- wrong secret.
  pub issue_invalid_client_iff :
      (issue sum256 env s q ≡ oauth_error invalid_client)
      ↔ ((q.grant_type ≡ codes "client_credentials") × IsUnknown sum256 s q)
  unfolding issue
  issue_invalid_client_iff = (
    λ e.
        let g : text_eq q.grant_type client_credentials ≡ true = ground arith in
        (
          (text_eq_iff q.grant_type client_credentials).0 g,
          refused-IsUnknown (IsRefused-of_issue_for _ (rw g at e)),
        ),
    λ h.
        rw ((text_eq_iff q.grant_type client_credentials).1 h.0)
          (issue_for_refused _ (IsUnknown-IsRefused h.1)),
  )

  plain_allowed :
      (requested allowed result : List Text)
      → All (λ u. contains_scope_wildcard u ≡ false) requested
      → resolve_requested_scopes requested allowed ≡ some result
      → All (λ u. (contains_scope_wildcard u ≡ false) × Grants allowed u) requested
  plain_allowed requested allowed result plain e =
      All_of_Has (λ u. (contains_scope_wildcard u ≡ false) × Grants allowed u) requested
        λ u m.
          let p = All_at (λ u. contains_scope_wildcard u ≡ false) requested u plain m in
          elim (Bool-cases (is_scope_allowed u allowed)) [
            | inl k ↦ (p, Grants-of_allowed u allowed k)
            | inr k ↦ absurd (
                ground (
                  arith,
                  resolve_refuses requested allowed u m p
                      (λ g. ground (arith, allowed_of_Grants u allowed g)),
                ))
          ]

  normal_scopes :
      (c : Claims) (ws : List Text)
      → scopes (some c) ≡ normalize_scopes ws
      → All IsWord ws
      → has_all_scopes (some c) ws ≡ true
  unfolding normalize_scopes has_scope
  normal_scopes c ws e w = (has_all_scopes_iff (some c) ws).1 (
      All_of_Has (λ u. has_scope (some c) u ≡ true) (words ws)
        λ u m.
          let m' = subst (Has u) (words-words ws w) m in
          let normal : Has u (scopes (some c)) = subst (Has u) (sym e) ((Has-normalize ws u).1 m) in
          covers_of_Grants (scopes (some c)) u
            (member-Grants (scopes (some c)) u (All_at IsWord ws u w m') normal))

  read_back :
      (c : Claims) (ws : List Text)
      → ws ≡ normalize_scopes q.scopes
      → c.scope ≡ scope_string ws
      → scopes (some c) ≡ normalize_scopes q.scopes
  unfolding normalize_scopes
  read_back c ws e f =
      scopes-fields c
      ∙ ap fields f
      ∙ fields-scope_string ws
      ∙ ap normalize_scopes e
      ∙ normalize_idem q.scopes

  -- A token that is issued to a request that names scopes, all of them words without wildcard, passes
  -- the check `HasAllScopes` for these scopes.
  pub issued_has_all_scopes :
      (r : TokenResponse)
      → q.scopes ≢ []
      → All IsWord q.scopes
      → All (λ u. contains_scope_wildcard u ≡ false) q.scopes
      → issue sum256 env s q ≡ issued r
      → (c : Claims) × (env.sign c ≡ some r.access_token)
        × (has_all_scopes (some c) q.scopes ≡ true)
  unfolding token_claims requested_scopes
  issued_has_all_scopes r ne w plain e =
      let (c, a) = issue-IsAnswered sum256 env s q r e in
      let asked : requested_scopes q c ≡ q.scopes = ground (arith, is_nil_of_ne_nil q.scopes ne) in
      let res =
        subst (λ l. resolve_requested_scopes l c.allowed_scopes ≡ some a.scopes) asked a.resolved in
      let full =
        resolve_complete q.scopes c.allowed_scopes
          (plain_allowed q.scopes c.allowed_scopes a.scopes plain res) in
      let same : a.scopes ≡ normalize_scopes q.scopes = cc in
      let t = token_claims env s c q.audience a.scopes a.jti in
      (t, a.signed, normal_scopes t q.scopes (read_back t a.scopes same refl) w)
