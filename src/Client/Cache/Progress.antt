-- ===== src/Client/Cache/Progress.antt =====
-- What the callers of the cache may count on, in every state that they and the requests can reach
-- from a new provider.
pub mod Running
use orionis.Base.{
  ℕ, zero, suc, ◌+◌, ◌≤◌, ◌<◌, ◌≡◌, ◌≢◌, ◌⊎◌, inl, inr, refl, sym, ap, subst, ◌∙◌, Bool, true,
  false, Option, none, some, arith, Bool-cases, Option-cases, if◌then◌else◌, ◌==◌,
}
use orionis.Base.Int.{ℤ, pos, ◌+ℤ◌, ◌≤ℤ◌, ◌<ℤ◌}
use orionis.Base.Time.{in_seconds}
use orionis.Client.Requests.{TokenError, Outcome, got, failed}
use orionis.Client.Tokens.{CachedToken, TokenCacheKey}
use orionis.Client.Tokens.Freshness.{IsReceived, fresh_at_unexpired}
use orionis.Client.Cache.{
  TokenCache, Joined, hit, waiting_for, new_cache, join_or_start, purge_stale, finish_call,
}
use orionis.Client.Cache.Flight.{System, answer, acted, Step, receive, finish, Reach, here, next}
use orionis.Client.Cache.Flight.Counting.{
  Caller, idle, waiting, served, set_caller_self, waiters_of, waiters_of-pos,
}
use orionis.Client.Cache.Sharing.{IsFetched, IsLive, IsShared, purge-cache}
use orionis.Client.Cache.Sharing.Operations.{join_hit}
use orionis.Client.Cache.Sharing.Endings.{finish-outcome}
use orionis.Client.Cache.Progress.Running.{IsRun, reach-IsRun}

-- A new provider, and callers that have not begun.
abbrev pub beginning : ℤ → System
beginning skew = record { provider = new_cache skew; callers = λ i. idle }

none_waits : (n c : ℕ) → waiters_of n (λ i. idle) c ≡ 0
unfolding waiters_of
none_waits zero c = refl
none_waits (suc n) c = omega (arith, none_waits n c)

pub beginning-IsRun : (n : ℕ) (skew : ℤ) → IsRun n (beginning skew)
beginning-IsRun n skew = record {
  shared = record {
    current = λ k c e. absurd (ground arith);
    listed = λ c l. absurd (omega (arith, l.known));
    fetched = λ k t e. absurd (ground arith);
    unknown = λ c h. none_waits n c;
    uncanceled = λ c l. refl;
    unabandoned = λ c h. refl;
  };
  known = λ i k c h e. absurd (ground arith);
  fetched = λ i k t h e. absurd (ground arith);
}

module _ (n : ℕ) (skew : ℤ) (u : System) (r : Reach n (beginning skew) u) where
  run : IsRun n u
  run = reach-IsRun n (beginning skew) u (beginning-IsRun n skew) r

  -- At any time at most one request that somebody still needs is in progress for a key: of two calls
  -- for one key that are neither done nor abandoned, both are the same.
  pub one_request :
      (c d : ℕ)
      → IsLive u.provider c
      → IsLive u.provider d
      → (u.provider.calls c).key ≡ (u.provider.calls d).key
      → c ≡ d
  one_request c d a b e =
      let x = run.shared.listed c a in
      let y = ap u.provider.inflight e ∙ run.shared.listed d b in ground arith

  -- A caller that waits is never forgotten: its call is one for its key and is not abandoned, and
  -- either the call is done, or it is the one in flight for the key and its request is not canceled.
  pub call_of_waiting :
      (i : ℕ) (k : TokenCacheKey) (c : ℕ)
      → i < n
      → u.callers i ≡ waiting k c
      → ((u.provider.calls c).key ≡ k)
        × ((u.provider.calls c).abandoned ≡ false)
        × (((o : Outcome) × ((u.provider.calls c).outcome ≡ some o))
            ⊎ ((u.provider.inflight k ≡ some c) × ((u.provider.calls c).canceled ≡ false)))
  call_of_waiting i k c h e =
      let (key, known) = run.known i k c h e in
      let kept = run.shared.unabandoned c (waiters_of-pos n i c k u.callers h e) in
      (
        key,
        kept,
        elim (Option-cases (u.provider.calls c).outcome) [
          | inr (o, x) ↦ inl (o, x)
          | inl x ↦
              let l : IsLive u.provider c = record { known = known; running = x; kept = kept } in
              inr (
                ap u.provider.inflight (sym key) ∙ run.shared.listed c l,
                run.shared.uncanceled c l,
              )
        ],
      )

  -- A token that a caller is given, from the cache or from a call, is one that a request for the
  -- caller's own audience and scopes brought.
  pub served-IsFetched :
      (i : ℕ) (k : TokenCacheKey) (t : CachedToken)
      → i < n
      → u.callers i ≡ served k t
      → IsFetched u.provider k t
  served-IsFetched i k t h e = run.fetched i k t h e

  receive_next :
      (i : ℕ) (k : TokenCacheKey) (c : ℕ) (o : Outcome) (s : System)
      → i < n
      → s.callers i ≡ waiting k c
      → (s.provider.calls c).outcome ≡ some o
      → Reach n u s
      → (v : System) × Reach n u v × (v.callers i ≡ answer k o)
  receive_next i k c o s h e f p = (
    acted s i (s.provider, answer k o),
    next p (receive i k c o h e f refl),
    set_caller_self i (answer k o) s.callers,
  )

  -- A caller that waits can always be answered: whatever outcome `o` its request would have, a state
  -- can be reached in which the caller has the answer of its call's outcome, which is `o` if the call
  -- was not done before.
  pub waiting_answered :
      (i : ℕ) (k : TokenCacheKey) (c : ℕ) (o : Outcome)
      → i < n
      → u.callers i ≡ waiting k c
      → (a : Outcome) × (v : System) × Reach n u v
        × (v.callers i ≡ answer k a)
        × (((u.provider.calls c).outcome ≡ some a) ⊎ (a ≡ o))
  waiting_answered i k c o h e = elim (Option-cases (u.provider.calls c).outcome) [
    | inr (a, x) ↦ let (v, p, z) = receive_next i k c a u h e x here in (a, v, p, z, inl x)
    | inl x ↦
        let (key, known) = run.known i k c h e in
        let (v, p, z) =
          receive_next i k c o (record u { provider = finish_call u.provider c o }) h e
            (finish-outcome u.provider (waiters_of n u.callers) c o run.shared known x)
            (next here (finish c o known x refl)) in
        (o, v, p, z, inr refl)
  ]

-- A token that the cache gives out has not expired: at a time not before it was received, it is given
-- only before the whole of its lifetime is over.
pub hit_unexpired :
    (p : TokenCache) (k : TokenCacheKey) (t : CachedToken) (received now e : ℤ)
    → pos 0 ≤ℤ p.refresh_skew
    → IsReceived t received e
    → received ≤ℤ now
    → (purge_stale p now).cache k ≡ some t
    → now <ℤ (received +ℤ in_seconds e)
hit_unexpired p k t received now e s r h kept =
    fresh_at_unexpired p.refresh_skew t received now e s r h (purge-cache p now k t kept).1
