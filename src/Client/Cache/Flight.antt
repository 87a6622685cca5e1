-- ===== src/Client/Cache/Flight.antt =====
-- client/cache.go: the callers of `tokenResponse`, each between two locks of the mutex, with the
-- requests that run beside them. A caller's number is its call of `tokenResponse`.
pub mod Counting
use orionis.Base.{ℕ, suc, ◌<◌, ◌≡◌, Bool, true, false, Option, none, some, if◌then◌else◌, ◌==◌}
use orionis.Base.Int.{ℤ}
use orionis.Client.Requests.{TokenError, Outcome, got, failed}
use orionis.Client.Tokens.{CachedToken, TokenCacheKey}
use orionis.Client.Cache.{
  TokenCache, Joined, hit, waiting_for, cached, join_or_start, finish_call, release_waiter,
}
use orionis.Client.Cache.Flight.Counting.{
  Caller, idle, missed, waiting, served, refused, Refusal, nil_context, context_done,
  request_failed, set_caller,
}

pub data Context : Type 0 where
  nil : Context
  ended : Context
  live : Context

-- What a look into the cache leads to.
unfoldable pub found : TokenCacheKey → Option CachedToken → Caller
found key (some token) = served key token
found key none = missed key

-- The first look into the cache.
unfoldable pub look_up : TokenCache → TokenCacheKey → ℤ → TokenCache × Caller
unfolding cached found
look_up p key now = ((cached p key now).0, found key (cached p key now).1)

-- What `joinOrStartCall` returns is a token or a call.
unfoldable pub joined : TokenCacheKey → Joined → Caller
joined key (hit token) = served key token
joined key (waiting_for c) = waiting key c

-- The checks of the context, and the call.
unfoldable pub enter : TokenCache → Context → TokenCacheKey → ℤ → TokenCache × Caller
enter p nil key now = (p, refused key nil_context)
enter p ended key now = (p, refused key context_done)
enter p live key now = ((join_or_start p key now).0, joined key (join_or_start p key now).1)

-- What `waitForCall` returns when the call is done.
unfoldable pub answer : TokenCacheKey → Outcome → Caller
answer key (got token) = served key token
answer key (failed e) = refused key (request_failed e)

pub record System : Type 0 where
  pub provider : TokenCache
  pub callers : ℕ → Caller

abbrev pub acted : System → ℕ → TokenCache × Caller → System
acted s i (p, x) = record { provider = p; callers = set_caller i x s.callers }

-- One step: of one of the `n` callers, or of the request of a call.
pub data Step (n : ℕ) (s u : System) : Type 0 where
  look :
      (i : ℕ) (key : TokenCacheKey) (now : ℤ)
      → i < n
      → s.callers i ≡ idle
      → u ≡ acted s i (look_up s.provider key now)
      → Step n s u
  join :
      (i : ℕ) (key : TokenCacheKey) (ctx : Context) (now : ℤ)
      → i < n
      → s.callers i ≡ missed key
      → u ≡ acted s i (enter s.provider ctx key now)
      → Step n s u
  receive :
      (i : ℕ) (key : TokenCacheKey) (c : ℕ) (o : Outcome)
      → i < n
      → s.callers i ≡ waiting key c
      → (s.provider.calls c).outcome ≡ some o
      → u ≡ acted s i (s.provider, answer key o)
      → Step n s u
  leave :
      (i : ℕ) (key : TokenCacheKey) (c : ℕ)
      → i < n
      → s.callers i ≡ waiting key c
      → u ≡ acted s i (release_waiter s.provider c, refused key context_done)
      → Step n s u
  finish :
      (c : ℕ) (o : Outcome)
      → c < s.provider.next_call
      → (s.provider.calls c).outcome ≡ none
      → u ≡ record s { provider = finish_call s.provider c o }
      → Step n s u

pub data Reach (n : ℕ) (s : System) : System → Type 0 where
  here : Reach n s s
  next : {t u : System} → Reach n s t → Step n t u → Reach n s u
