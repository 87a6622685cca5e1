-- ===== src/Client/Cache.antt =====
-- client/cache.go: the cache of tokens and the calls in flight. The maps are functions. A call is
-- known by its number, which stands for the pointer; `calls` is the heap. Each function here runs
-- under the mutex. A call's token, error and flag `completed` are set together: `outcome`.
pub mod Flight
pub mod Sharing
pub mod Progress
pub mod Ending
use orionis.Base.{
  ℕ, suc, ◌+◌, ◌-◌, ◌≡◌, refl, Bool, true, false, not, ◌&&◌, ◌||◌, List, [], Option, none, some,
  if◌then◌else◌, ◌==◌, ltb, is_some,
}
use orionis.Base.Int.{ℤ}
use orionis.Token.{TokenResponse}
use orionis.Client.Tokens.{CachedToken, TokenCacheKey, same_key, fresh_at}
use orionis.Client.Requests.{TokenError, Outcome, got, failed}

pub record InflightCall : Type 0 where
  pub key : TokenCacheKey
  pub waiters : ℕ
  pub outcome : Option Outcome
  pub abandoned : Bool
  pub canceled : Bool

pub record TokenCache : Type 0 where
  pub refresh_skew : ℤ
  pub cache : TokenCacheKey → Option CachedToken
  pub inflight : TokenCacheKey → Option ℕ
  pub calls : ℕ → InflightCall
  pub next_call : ℕ

-- A write to a map, and a write to the heap.
abbrev pub put {ℓ} : {V : Type ℓ} → TokenCacheKey → V → (TokenCacheKey → V) → TokenCacheKey → V
put k v m j = if same_key k j then v else m j

abbrev pub store_call : ℕ → InflightCall → (ℕ → InflightCall) → ℕ → InflightCall
store_call c call calls d = if c == d then call else calls d

-- The value is kept if it is fresh.
keep_fresh : ℤ → ℤ → Option CachedToken → Option CachedToken
keep_fresh skew now none = none
keep_fresh skew now (some token) = if fresh_at skew token now then some token else none

unfoldable pub purge_stale : TokenCache → ℤ → TokenCache
unfolding keep_fresh
purge_stale p now = record p { cache = λ k. keep_fresh p.refresh_skew now (p.cache k) }

unfoldable pub cached : TokenCache → TokenCacheKey → ℤ → TokenCache × Option CachedToken
cached p key now = (purge_stale p now, (purge_stale p now).cache key)

-- A call that was joined or started, or a token of the cache.
pub data Joined : Type 0 where
  hit : CachedToken → Joined
  waiting_for : ℕ → Joined

abbrev pub new_call : TokenCacheKey → InflightCall
new_call key = record {
  key = key;
  waiters = 1;
  outcome = none;
  abandoned = false;
  canceled = false;
}

abbrev pub one_more : InflightCall → InflightCall
one_more call = record call { waiters = call.waiters + 1 }

-- The cache of a new provider.
abbrev pub new_cache : ℤ → TokenCache
new_cache skew = record {
  refresh_skew = skew;
  cache = λ key. none;
  inflight = λ key. none;
  calls = λ c. new_call (record { audience = []; scope = [] });
  next_call = 0;
}

-- What the two maps have for the key decides.
unfoldable pub join_with :
    TokenCache → TokenCacheKey → Option CachedToken → Option ℕ → TokenCache × Joined
join_with q key (some token) call = (q, hit token)
join_with q key none (some c) =
    (record q { calls = store_call c (one_more (q.calls c)) q.calls }, waiting_for c)
join_with q key none none = (
  record q {
    inflight = put key (some q.next_call) q.inflight;
    calls = store_call q.next_call (new_call key) q.calls;
    next_call = suc q.next_call;
  },
  waiting_for q.next_call,
)

unfoldable pub join_or_start : TokenCache → TokenCacheKey → ℤ → TokenCache × Joined
unfolding join_with
join_or_start p key now =
    let q = purge_stale p now in join_with q key (q.cache key) (q.inflight key)

-- Whether the call in flight for a key is this one.
unfoldable pub is_current : Option ℕ → ℕ → Bool
is_current none c = false
is_current (some d) c = d == c

-- The token of an outcome, unless the call was abandoned.
unfoldable pub cacheable : Outcome → Bool → Option CachedToken → Option CachedToken
cacheable (got token) false old = some token
cacheable (got token) true old = old
cacheable (failed e) abandoned old = old

-- `runCall` behind the request.
unfoldable pub finish_call : TokenCache → ℕ → Outcome → TokenCache
unfolding is_current cacheable
finish_call p c outcome =
    let call = p.calls c in
    let done = record call { outcome = some outcome; canceled = true } in
    let q = record p { calls = store_call c done p.calls } in
    if is_current (p.inflight call.key) c
    then record q {
      cache = put call.key (cacheable outcome call.abandoned (p.cache call.key)) p.cache;
      inflight = put call.key none p.inflight;
    }
    else q

unfoldable pub release_waiter : TokenCache → ℕ → TokenCache
unfolding is_current
release_waiter p c =
    let call = p.calls c in
    let fewer = record call { waiters = call.waiters - 1 } in
    if is_some call.outcome || call.abandoned
    then p
    else if not (is_current (p.inflight call.key) c)
    then p
    else if ltb 0 fewer.waiters
    then record p { calls = store_call c fewer p.calls }
    else record p {
      calls = store_call c (record fewer { abandoned = true; canceled = true }) p.calls;
      inflight = put call.key none p.inflight;
    }
