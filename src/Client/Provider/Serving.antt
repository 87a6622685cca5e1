-- ===== src/Client/Provider/Serving.antt =====
-- The tokens that a provider gives from its cache, from its configuration on.
use orionis.Base.{ℕ, ◌≡◌, ◌⊎◌, inl, inr, some, refl, sym, ap, subst, ◌∙◌, Bool, Option, List, arith}
use orionis.Base.Int.{ℤ, pos, ◌+ℤ◌, ◌≤ℤ◌, ◌<ℤ◌}
use orionis.Base.Time.{in_seconds}
use orionis.Text.{Text}
use orionis.Client.Requests.{Json, Authenticator, OutRequest, Exchange, Outcome, got, request_token}
use orionis.Client.Requests.Received.{request_token-IsUsable}
use orionis.Client.Tokens.{CachedToken, TokenCacheKey}
use orionis.Client.Cache.{
  TokenCache, hit, cached, purge_stale, join_with, join_or_start, finish_call, release_waiter,
}
use orionis.Client.Cache.Flight.{
  System, look_up, enter, Context, nil, ended, live, Step, look, join, receive, leave, finish,
  Reach, here, next,
}
use orionis.Client.Cache.Flight.Counting.{idle}
use orionis.Client.Cache.Sharing.{IsFetched, purge-cache}
use orionis.Client.Cache.Sharing.Operations.{join_hit}
use orionis.Client.Cache.Progress.{beginning, beginning-IsRun, hit_unexpired}
use orionis.Client.Cache.Progress.Running.{reach-IsRun}
use orionis.Client.Provider.{Provider}
use orionis.Client.Config.{Config, built, build_provider}
use orionis.Client.Config.Building.{build_provider-IsReady}

-- No operation changes the skew.
join_with-skew :
    (q : TokenCache) (k : TokenCacheKey) (t : Option CachedToken) (c : Option ℕ)
    → (join_with q k t c).0.refresh_skew ≡ q.refresh_skew
unfolding join_with
join_with-skew q k t c = ground arith

enter-skew :
    (p : TokenCache) (ctx : Context) (k : TokenCacheKey) (now : ℤ)
    → (enter p ctx k now).0.refresh_skew ≡ p.refresh_skew
unfolding enter join_or_start purge_stale
enter-skew p nil k now = refl
enter-skew p ended k now = refl
enter-skew p live k now = join_with-skew (purge_stale p now) k _ _

release-skew : (p : TokenCache) (c : ℕ) → (release_waiter p c).refresh_skew ≡ p.refresh_skew
unfolding release_waiter
release-skew p c = ground arith

finish-skew :
    (p : TokenCache) (c : ℕ) (o : Outcome) → (finish_call p c o).refresh_skew ≡ p.refresh_skew
unfolding finish_call
finish-skew p c o = ground arith

step-skew : (n : ℕ) (s u : System) → Step n s u → u.provider.refresh_skew ≡ s.provider.refresh_skew
unfolding look_up cached purge_stale
step-skew n s u (look i k now h e x) = ap (λ v. v.provider.refresh_skew) x
step-skew n s u (join i k ctx now h e x) =
    ap (λ v. v.provider.refresh_skew) x ∙ enter-skew s.provider ctx k now
step-skew n s u (receive i k c o h e f x) = ap (λ v. v.provider.refresh_skew) x
step-skew n s u (leave i k c h e x) =
    ap (λ v. v.provider.refresh_skew) x ∙ release-skew s.provider c
step-skew n s u (finish c o h e x) =
    ap (λ v. v.provider.refresh_skew) x ∙ finish-skew s.provider c o

reach-skew :
    (n : ℕ) (s u : System) → Reach n s u → u.provider.refresh_skew ≡ s.provider.refresh_skew
reach-skew n s u here = refl
reach-skew n s u (next {t} r x) = step-skew n t u x ∙ reach-skew n s t r

-- The callers of a provider, before any of them calls it.
abbrev pub unused : {H : Type 0} → Provider H → System
unused p = record { provider = p.tokens; callers = λ i. idle }

-- The two looks into the cache, before a call is joined and while it is, give what they have kept.
given_kept :
    (c : TokenCache) (k : TokenCacheKey) (t : CachedToken) (now : ℤ)
    → ((cached c k now).1 ≡ some t) ⊎ ((join_or_start c k now).1 ≡ hit t)
    → (purge_stale c now).cache k ≡ some t
unfolding cached
given_kept c k t now (inl e) = e
given_kept c k t now (inr e) = (join_hit c k now t e).1

module _ {H : Type 0} (default_client : ℤ → H) where
  -- A token that a provider gives from its cache, at the first look or when a call is joined, in any
  -- state that its callers and requests can reach since it was built from a configuration, is one that a
  -- request for the same audience and scopes brought; and at a time not before that at which its request received it, it is given only before the
  -- whole of the lifetime that the endpoint named is over, whatever skew the configuration has.
  pub built-hit_unexpired :
      (raw : Config H) (p : Provider H) (n : ℕ) (u : System) (k : TokenCacheKey) (t : CachedToken)
      (json : Json) (auth : Authenticator) (url audience : Text) (scopes : List Text) (makes : Bool)
      (send : OutRequest → Exchange) (received now : ℤ)
      → build_provider default_client raw ≡ built p
      → Reach n (unused p) u
      → request_token json auth url audience scopes makes send received ≡ got t
      → received ≤ℤ now
      → ((cached u.provider k now).1 ≡ some t) ⊎ ((join_or_start u.provider k now).1 ≡ hit t)
      → IsFetched u.provider k t × (now <ℤ (received +ℤ in_seconds t.response.expires_in))
  built-hit_unexpired raw p n u k t json auth url audience scopes makes send received now b r q
        later j =
      let ready = (build_provider-IsReady default_client raw p b).0 in
      let skew = p.tokens.refresh_skew in
      let start : Reach n (beginning skew) u =
        subst (λ c. Reach n (record { provider = c; callers = λ i. idle }) u) ready.new_tokens r in
      let run = reach-IsRun n (beginning skew) u (beginning-IsRun n skew) start in
      let kept = given_kept u.provider k t now j in
      let positive : pos 0 ≤ℤ skew = omega (arith, ready.skew) in
      let (asked, req, made, body, sent, whole, usable) =
        request_token-IsUsable json auth url audience scopes makes send received t q in
      (
        run.shared.fetched k t (purge-cache u.provider now k t kept).0,
        hit_unexpired u.provider k t received now t.response.expires_in
            (subst (λ s. pos 0 ≤ℤ s) (sym (reach-skew n (unused p) u r)) positive) usable.received
            later kept,
      )
