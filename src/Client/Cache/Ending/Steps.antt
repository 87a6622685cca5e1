-- ===== src/Client/Cache/Ending/Steps.antt =====
-- The callers of the cache, and the requests of calls, come to an end.
use orionis.Base.{
  ℕ, zero, suc, ◌+◌, ◌*◌, ◌≤◌, ◌<◌, ◌≡◌, refl, sym, ap, subst, Option, none, some, arith,
}
use orionis.Base.Int.{ℤ}
use orionis.Client.Requests.{Outcome, got, failed}
use orionis.Client.Tokens.{CachedToken, TokenCacheKey}
use orionis.Client.Cache.{
  TokenCache, Joined, hit, waiting_for, purge_stale, cached, join_or_start, finish_call,
  release_waiter,
}
use orionis.Client.Cache.Flight.{
  System, look_up, found, joined, enter, Context, nil, ended, live, answer, acted, Step, look, join,
  receive, leave, finish, Reach, here, next,
}
use orionis.Client.Cache.Flight.Counting.{Caller, refused, context_done}
use orionis.Client.Cache.Progress.{beginning}
use orionis.Client.Cache.Ending.{
  total, rank, open_calls, ranks, set_ranks, join_with-open, release-open, finish-open,
}

join-open :
    (p : TokenCache) (k : TokenCacheKey) (now : ℤ)
    → open_calls (join_or_start p k now).0 ≤ open_calls p + 1
unfolding join_or_start purge_stale open_calls
join-open p k now = join_with-open (purge_stale p now) k _ _

joined-rank : (k : TokenCacheKey) (j : Joined) → rank (joined k j) ≤ 2
unfolding joined rank
joined-rank k (hit t) = omega arith
joined-rank k (waiting_for c) = omega arith

enter-less :
    (p : TokenCache) (ctx : Context) (k : TokenCacheKey) (now : ℤ)
    → open_calls (enter p ctx k now).0 + rank (enter p ctx k now).1 < open_calls p + 4
unfolding enter rank
enter-less p nil k now = omega arith
enter-less p ended k now = omega arith
enter-less p live k now = omega (arith, join-open p k now, joined-rank k (join_or_start p k now).1)

found-rank : (k : TokenCacheKey) (t : Option CachedToken) → rank (found k t) ≤ 4
unfolding found rank
found-rank k none = omega arith
found-rank k (some t) = omega arith

answer-rank : (k : TokenCacheKey) (o : Outcome) → rank (answer k o) ≡ 0
unfolding answer rank
answer-rank k (got t) = refl
answer-rank k (failed e) = refl

-- What is before the callers and the requests.
left_over : ℕ → System → ℕ
unfolding rank open_calls
left_over n s = ranks n s.callers + open_calls s.provider

acted-less :
    (n i : ℕ) (s : System) (x : TokenCache × Caller)
    → i < n
    → open_calls x.0 + rank x.1 < open_calls s.provider + rank (s.callers i)
    → left_over n (acted s i x) < left_over n s
unfolding left_over
acted-less n i s x l h = omega (arith, set_ranks n i x.1 s.callers l)

finished-less :
    (n : ℕ) (s : System) (c : ℕ) (o : Outcome)
    → c < s.provider.next_call
    → (s.provider.calls c).outcome ≡ none
    → left_over n (record s { provider = finish_call s.provider c o }) < left_over n s
unfolding left_over
finished-less n s c o l e = omega (arith, finish-open s.provider c o l e)

look-less :
    (p : TokenCache) (k : TokenCacheKey) (now : ℤ)
    → open_calls (look_up p k now).0 + rank (look_up p k now).1 < open_calls p + 6
unfolding look_up cached purge_stale open_calls
look-less p k now = omega (arith, found-rank k ((purge_stale p now).cache k))

step-less : (n : ℕ) (s u : System) → Step n s u → left_over n u < left_over n s
unfolding rank
step-less n s u (look i k now l e x) =
    subst (λ v. left_over n v < left_over n s) (sym x)
      (acted-less n i s (look_up s.provider k now) l
        (omega (arith, look-less s.provider k now, ap rank e)))
step-less n s u (join i k ctx now l e x) =
    subst (λ v. left_over n v < left_over n s) (sym x)
      (acted-less n i s (enter s.provider ctx k now) l
        (omega (arith, enter-less s.provider ctx k now, ap rank e)))
step-less n s u (receive i k c o l e f x) =
    subst (λ v. left_over n v < left_over n s) (sym x)
      (acted-less n i s (s.provider, answer k o) l (omega (arith, answer-rank k o, ap rank e)))
step-less n s u (leave i k c l e x) =
    subst (λ v. left_over n v < left_over n s) (sym x)
      (acted-less n i s (release_waiter s.provider c, refused k context_done) l
        (omega (arith, release-open s.provider c, ap rank e)))
step-less n s u (finish c o l e x) =
    subst (λ v. left_over n v < left_over n s) (sym x) (finished-less n s c o l e)

-- The steps of a run.
pub steps : {n : ℕ} {s u : System} → Reach n s u → ℕ
steps here = 0
steps (next r x) = steps r + 1

run-less : (n : ℕ) (s u : System) (r : Reach n s u) → steps r + left_over n u ≤ left_over n s
unfolding steps
run-less n s u here = omega arith
run-less n s u (next {t} r x) = omega (arith, run-less n s t r, step-less n t u x)

beginning-left : (n : ℕ) (skew : ℤ) → left_over n (beginning skew) ≡ 6 * n
unfolding left_over total rank open_calls
beginning-left zero skew = refl
beginning-left (suc n) skew = omega (arith, beginning-left n skew)

-- The callers of a new provider and the requests that they begin come to an end: whatever the order of
-- their steps, `n` callers and their requests take at most 6 n of them.
pub steps_bounded :
    (n : ℕ) (skew : ℤ) (u : System) (r : Reach n (beginning skew) u) → steps r ≤ 6 * n
steps_bounded n skew u r = omega (arith, run-less n (beginning skew) u r, beginning-left n skew)
