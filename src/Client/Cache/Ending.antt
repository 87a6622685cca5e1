-- ===== src/Client/Cache/Ending.antt =====
-- How much is before the callers of the cache, and before the requests of calls.
pub mod Steps
use orionis.Base.{
  ℕ, zero, suc, ◌+◌, ◌*◌, ◌≤◌, ◌<◌, ◌≡◌, inl, inr, refl, sym, ap, subst, ◌∙◌, Bool, true, false,
  Option, none, some, arith, Bool-cases, is_some, if◌then◌else◌, ◌==◌,
}
use orionis.Base.Int.{ℤ}
use orionis.Client.Requests.{Outcome, got, failed}
use orionis.Client.Tokens.{CachedToken, TokenCacheKey}
use orionis.Client.Cache.{
  InflightCall, TokenCache, Joined, hit, waiting_for, store_call, one_more, new_call, new_cache,
  purge_stale, cached, join_with, join_or_start, finish_call, release_waiter,
}
use orionis.Client.Cache.Flight.{
  System, look_up, found, joined, enter, Context, nil, ended, live, answer, acted, Step, look, join,
  receive, leave, finish, Reach, here, next,
}
use orionis.Client.Cache.Flight.Counting.{
  Caller, idle, missed, waiting, served, refused, context_done, set_caller, set_caller_self,
}
use orionis.Client.Cache.Progress.{beginning}

-- The sum of `f` below `n`.
pub total : ℕ → (ℕ → ℕ) → ℕ
total zero f = 0
total (suc n) f = total n f + f n

total-below : (n : ℕ) (f g : ℕ → ℕ) → ((j : ℕ) → j < n → f j ≡ g j) → total n f ≡ total n g
unfolding total
total-below zero f g h = refl
total-below (suc n) f g h =
    omega (arith, total-below n f g (λ j l. h j (omega arith)), h n (omega arith))

-- Where two functions differ at one place, so do their sums.
total-update :
    (n i : ℕ) (f g : ℕ → ℕ)
    → i < n
    → ((j : ℕ) → (i == j) ≡ false → f j ≡ g j)
    → total n f + g i ≡ total n g + f i
unfolding total
total-update zero i f g l h = absurd (omega arith)
total-update (suc n) i f g l h = elim (Bool-cases (i == n)) [
  | inl e ↦
      let same : i ≡ n = ground arith in
      omega (arith, total-below n f g (λ j k. h j (ground (arith, same, k))), ap f same, ap g same)
  | inr e ↦ omega (arith, total-update n i f g (ground arith) h, h n e)
]

-- How much a caller has before it: its steps, twice.
pub rank : Caller → ℕ
rank idle = 6
rank (missed key) = 4
rank (waiting key c) = 2
rank (served key token) = 0
rank (refused key e) = 0

-- A request that goes on.
open_outcome : Option Outcome → ℕ
open_outcome none = 1
open_outcome (some o) = 0

open_call : InflightCall → ℕ
unfolding open_outcome
open_call call = open_outcome call.outcome

pub open_calls : TokenCache → ℕ
unfolding total open_call
open_calls p = total p.next_call (λ c. open_call (p.calls c))

abbrev pub ranks : ℕ → (ℕ → Caller) → ℕ
ranks n callers = total n (λ i. rank (callers i))

pub set_ranks :
    (n i : ℕ) (x : Caller) (callers : ℕ → Caller)
    → i < n
    → ranks n (set_caller i x callers) + rank (callers i) ≡ ranks n callers + rank x
set_ranks n i x callers l = omega (
  arith,
  total-update n i (λ j. rank (set_caller i x callers j)) (λ j. rank (callers j)) l
      (λ j e. rw e refl),
  ap rank (set_caller_self i x callers),
)

-- Only the outcomes decide.
open-same :
    (p q : TokenCache)
    → q.next_call ≡ p.next_call
    → ((d : ℕ) → (q.calls d).outcome ≡ (p.calls d).outcome)
    → open_calls q ≡ open_calls p
unfolding open_calls open_call
open-same p q e h =
    ap (λ n. total n (λ d. open_call (q.calls d))) e
    ∙ total-below p.next_call (λ d. open_call (q.calls d)) (λ d. open_call (p.calls d))
        (λ d l. ap open_outcome (h d))

one_more-outcome :
    (q : TokenCache) (c d : ℕ)
    → (store_call c (one_more (q.calls c)) q.calls d).outcome ≡ (q.calls d).outcome
one_more-outcome q c d = elim (Bool-cases (c == d)) [
  | inl e ↦ let same : c ≡ d = ground arith in rw e (ap (λ x. (q.calls x).outcome) same)
  | inr e ↦ rw e refl
]

store_call_self : (c : ℕ) (x : InflightCall) (calls : ℕ → InflightCall) → store_call c x calls c ≡ x
store_call_self c x calls = ground arith

-- At most one request begins.
pub join_with-open :
    (q : TokenCache) (k : TokenCacheKey) (t : Option CachedToken) (c : Option ℕ)
    → open_calls (join_with q k t c).0 ≤ open_calls q + 1
unfolding join_with open_calls total open_call
join_with-open q k (some t) c = omega arith
join_with-open q k none (some c) =
    omega (arith, open-same q (join_with q k none (some c)).0 refl (one_more-outcome q c))
join_with-open q k none none = omega (
  arith,
  total-below q.next_call (λ d. open_call (store_call q.next_call (new_call k) q.calls d))
      (λ d. open_call (q.calls d))
      (λ d l. let n : (q.next_call == d) ≡ false = ground (arith, l) in rw n refl),
  ap open_call (store_call_self q.next_call (new_call k) q.calls),
)

release-next_call : (p : TokenCache) (c : ℕ) → (release_waiter p c).next_call ≡ p.next_call
unfolding release_waiter
release-next_call p c = ground arith

release-outcome :
    (p : TokenCache) (c d : ℕ) → ((release_waiter p c).calls d).outcome ≡ (p.calls d).outcome
unfolding release_waiter
release-outcome p c d = elim (Bool-cases (c == d)) [
  | inl e ↦ let same : c ≡ d = ground arith in ground (arith, e, ap (λ x. (p.calls x).outcome) same)
  | inr e ↦ ground (arith, e)
]

finish-next_call :
    (p : TokenCache) (c : ℕ) (o : Outcome) → (finish_call p c o).next_call ≡ p.next_call
unfolding finish_call
finish-next_call p c o = ground arith

finish-other :
    (p : TokenCache) (c : ℕ) (o : Outcome) (d : ℕ)
    → (c == d) ≡ false
    → (finish_call p c o).calls d ≡ p.calls d
unfolding finish_call
finish-other p c o d n = ground (arith, n)

finish-done :
    (p : TokenCache) (c : ℕ) (o : Outcome) → ((finish_call p c o).calls c).outcome ≡ some o
unfolding finish_call
finish-done p c o = ground arith

pub release-open : (p : TokenCache) (c : ℕ) → open_calls (release_waiter p c) ≡ open_calls p
release-open p c = open-same p (release_waiter p c) (release-next_call p c) (release-outcome p c)

pub finish-open :
    (p : TokenCache) (c : ℕ) (o : Outcome)
    → c < p.next_call
    → (p.calls c).outcome ≡ none
    → open_calls (finish_call p c o) + 1 ≡ open_calls p
unfolding open_calls open_call
finish-open p c o l e = omega (
  arith,
  ap (λ n. total n (λ d. open_call ((finish_call p c o).calls d))) (finish-next_call p c o),
  total-update p.next_call c (λ d. open_call ((finish_call p c o).calls d))
      (λ d. open_call (p.calls d)) l (λ d n. ap open_call (finish-other p c o d n)),
  ap open_outcome (finish-done p c o),
  ap open_outcome e,
)
