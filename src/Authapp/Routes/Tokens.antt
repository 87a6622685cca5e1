-- ===== src/Authapp/Routes/Tokens.antt =====
-- Which routes of the application answer with a token, and to whom.
use orionis.Base.{
  ℕ, ◌≡◌, ◌≢◌, inl, inr, sym, ap, ◌∙◌, Option, none, some, List, arith, Bool-cases, Has,
}
use orionis.Base.Int.{ℤ}
use orionis.Text.{Text, codes}
use orionis.Token.{TokenResponse}
use orionis.Server.Config.{Server}
use orionis.Server.Http.{
  Response, token_body, post, token_http, jwks_http, discovery_http, health_http, write_json,
}
use orionis.Server.Http.Token.{
  IsServed, token_http_sound, jwks_http_no_token, discovery_http_no_token,
}
use orionis.Authroute
use orionis.Authapp.Ratelimit.{FixedWindowRateLimiter, Allowed}
use orionis.Authapp.Runtime.{EffectiveRateLimit, ResolvedConfig}
use orionis.Authapp.Security.{
  Incoming, replied, RuntimeSecurity, new_runtime_security, handlers, reply_of, run_chain,
}
use orionis.Authapp.Security.Auditing.{asked, answer_by, handled_chain}
use orionis.Authapp.Routes.{AuthRoute, mount_auth_routes}

reply_of-replied : (o : Option Response) (r : Response) → reply_of o ≡ some (replied r) → o ≡ some r
unfolding reply_of
reply_of-replied none r e = absurd (ground arith)
reply_of-replied (some x) r e = ground arith

module _ (split_host_port : Text → Option Text) (ceil_seconds : ℤ → ℤ) where
  answer_by-replied :
      (a : Option Allowed) (o : Option Response) (r : Response)
      → answer_by split_host_port ceil_seconds a o ≡ some (replied r)
      → o ≡ some r
  unfolding answer_by
  answer_by-replied none o r e = reply_of-replied o r e
  answer_by-replied (some a) o r e = elim (Bool-cases a.ok) [
    | inl k ↦ reply_of-replied o r (rw (k, answer_by) at e)
    | inr k ↦ absurd (ground arith)
  ]

  -- A reply that the limiter did not make is the handler's.
  pub handlers-replied :
      (s : RuntimeSecurity) (l : FixedWindowRateLimiter) (endpoint : Text)
      (limit : EffectiveRateLimit) (handler : Incoming → Option Response) (c : Incoming)
      (r : Response)
      → (run_chain split_host_port ceil_seconds l c (handlers s endpoint limit handler)).reply
        ≡ some (replied r)
      → handler c ≡ some r
  unfolding handlers
  handlers-replied s l endpoint limit handler c r e =
      answer_by-replied (asked split_host_port ceil_seconds l endpoint limit c).1 (handler c) r (
        sym (
          ap (λ x. x.reply)
            (handled_chain split_host_port ceil_seconds (record s { limiter = l }) endpoint limit
              handler c))
        ∙ e)

some_inj : (a b : Response) → some a ≡ some b → a ≡ b
some_inj a b e = ground arith

health_no_token : (t : TokenResponse) → health_http.body ≢ token_body t
unfolding health_http write_json
health_no_token t e = ground arith

module _ (split_host_port : Text → Option Text) (ceil_seconds : ℤ → ℤ)
    (join_paths : Text → Text → Text) (sum256 : Text → List ℕ) {Clock : Type 0}
    (auth : Server Clock) (cfg : ResolvedConfig) where
  replies :
      (x route : AuthRoute) (l : FixedWindowRateLimiter) (c : Incoming) (r : Response)
      → x ≡ route
      → (run_chain split_host_port ceil_seconds l c route.handlers).reply ≡ some (replied r)
      → (run_chain split_host_port ceil_seconds l c x.handlers).reply ≡ some (replied r)
  replies x route l c r same e =
      ap (λ y. (run_chain split_host_port ceil_seconds l c y.handlers).reply) same ∙ e

  -- Only one route of the application answers with a token, that of POST under the base path, and only
  -- as the token endpoint does: to a client of the store that is enabled and that its secret opens, in
  -- any state of the limiter.
  pub mounted-IsServed :
      (route : AuthRoute) (l : FixedWindowRateLimiter) (c : Incoming) (r : Response)
      (t : TokenResponse)
      → Has route (mount_auth_routes join_paths sum256 auth cfg)
      → (run_chain split_host_port ceil_seconds l c route.handlers).reply ≡ some (replied r)
      → r.body ≡ token_body t
      → (route.method ≡ post)
        × (route.path ≡ join_paths cfg.base_path Authroute.token)
        × IsServed sum256 c.environment auth c.request t
  unfolding mount_auth_routes run_chain
  mounted-IsServed route l c r t (inl here) e b =
      let given =
        handlers-replied split_host_port ceil_seconds (new_runtime_security cfg) l (codes "token")
          cfg.token_limit (λ x. some (token_http sum256 x.environment auth x.request)) c r
          (replies _ route l c r here e) in
      (
        ap (λ x. x.method) (sym here),
        ap (λ x. x.path) (sym here),
        token_http_sound sum256 c.environment auth c.request t
            (ap (λ x. x.body) (some_inj _ r given) ∙ b),
      )
  mounted-IsServed route l c r t (inr (inl here)) e b = absurd (
      jwks_http_no_token auth c.request t r
        (reply_of-replied (jwks_http auth c.request) r (replies _ route l c r here e)) b)
  mounted-IsServed route l c r t (inr (inr (inl here))) e b =
      let given =
        reply_of-replied (some (discovery_http auth c.request)) r (replies _ route l c r here e) in
      absurd (discovery_http_no_token auth c.request t (ap (λ x. x.body) (some_inj _ r given) ∙ b))
  mounted-IsServed route l c r t (inr (inr (inr (inl here)))) e b = absurd (
      health_no_token t (
        ap (λ x. x.body)
          (some_inj _ r (reply_of-replied (some health_http) r (replies _ route l c r here e)))
        ∙ b))
  mounted-IsServed route l c r t (inr (inr (inr (inr (inl here))))) e b =
      let given =
        handlers-replied split_host_port ceil_seconds (new_runtime_security cfg) l (codes "readyz")
          cfg.readyz_limit (λ x. some health_http) c r (replies _ route l c r here e) in
      absurd (health_no_token t (ap (λ x. x.body) (some_inj _ r given) ∙ b))
  mounted-IsServed route l c r t (inr (inr (inr (inr (inr x))))) e b = elim x [ ]
