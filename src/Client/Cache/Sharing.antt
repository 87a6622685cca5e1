-- ===== src/Client/Cache/Sharing.antt =====
-- The store of tokens and calls: what its operations keep, given the number of waiters of each call.
pub mod Starting
pub mod Adjusting
pub mod Closing
pub mod Operations
pub mod Endings
use orionis.Base.{
  ℕ, suc, ◌+◌, ◌-◌, ◌≤◌, ◌<◌, ◌≡◌, ◌≢◌, ◌⊎◌, inl, inr, refl, sym, ap, subst, ◌∙◌, Bool, true, false,
  not, ◌&&◌, ◌||◌, Option, none, some, arith, Bool-cases, Option-cases, if◌then◌else◌, ◌==◌, ltb,
  is_some,
}
use orionis.Base.Int.{ℤ}
use orionis.Client.Requests.{Outcome, got, failed}
use orionis.Client.Tokens.{CachedToken, TokenCacheKey, same_key, fresh_at}
use orionis.Client.Tokens.Freshness.{same_key_iff}
use orionis.Client.Cache.{
  InflightCall, TokenCache, put, store_call, keep_fresh, purge_stale, Joined, hit, waiting_for,
  new_call, one_more, join_or_start, is_current, cacheable, finish_call, release_waiter,
}

-- Call `c` is in flight for key `k`: it runs, somebody waits for it, and its waiters are counted.
pub record IsOpen (p : TokenCache) (w : ℕ → ℕ) (k : TokenCacheKey) (c : ℕ) : Type 0 where
  pub known : c < p.next_call
  pub key_is : (p.calls c).key ≡ k
  pub running : (p.calls c).outcome ≡ none
  pub kept : (p.calls c).abandoned ≡ false
  pub counted : (p.calls c).waiters ≡ w c
  pub waited : 1 ≤ w c

-- Token `t` comes from a call for key `k` that had success.
pub record IsFetched (p : TokenCache) (k : TokenCacheKey) (t : CachedToken) : Type 0 where
  pub call : ℕ
  pub known : call < p.next_call
  pub key_is : (p.calls call).key ≡ k
  pub outcome_is : (p.calls call).outcome ≡ some (got t)

-- Call `c` waits for its request: it is neither done nor abandoned.
pub record IsLive (p : TokenCache) (c : ℕ) : Type 0 where
  pub known : c < p.next_call
  pub running : (p.calls c).outcome ≡ none
  pub kept : (p.calls c).abandoned ≡ false

pub record IsShared (p : TokenCache) (w : ℕ → ℕ) : Type 0 where
  pub current : (k : TokenCacheKey) (c : ℕ) → p.inflight k ≡ some c → IsOpen p w k c
  pub listed : (c : ℕ) → IsLive p c → p.inflight (p.calls c).key ≡ some c
  pub fetched : (k : TokenCacheKey) (t : CachedToken) → p.cache k ≡ some t → IsFetched p k t
  pub unknown : (c : ℕ) → p.next_call ≤ c → w c ≡ 0
  pub uncanceled : (c : ℕ) → IsLive p c → (p.calls c).canceled ≡ false
  pub unabandoned : (c : ℕ) → 1 ≤ w c → (p.calls c).abandoned ≡ false

keep_fresh-some :
    (skew now : ℤ) (o : Option CachedToken) (t : CachedToken)
    → keep_fresh skew now o ≡ some t
    → (o ≡ some t) × (fresh_at skew t now ≡ true)
unfolding keep_fresh
keep_fresh-some skew now none t e = absurd (ground arith)
keep_fresh-some skew now (some u) t e = elim (Bool-cases (fresh_at skew u now)) [
  | inl k ↦
      let same : u ≡ t = ground arith in
      (ap some same, subst (λ x. fresh_at skew x now ≡ true) same k)
  | inr k ↦ absurd (ground arith)
]

pub purge-cache :
    (p : TokenCache) (now : ℤ) (k : TokenCacheKey) (t : CachedToken)
    → (purge_stale p now).cache k ≡ some t
    → (p.cache k ≡ some t) × (fresh_at p.refresh_skew t now ≡ true)
unfolding purge_stale
purge-cache p now k t e = keep_fresh-some p.refresh_skew now (p.cache k) t e

pub purge-IsShared :
    (p : TokenCache) (w : ℕ → ℕ) (now : ℤ) → IsShared p w → IsShared (purge_stale p now) w
unfolding purge_stale
purge-IsShared p w now s = record {
  current = λ k c e.
      let o = s.current k c e in
      record {
        known = o.known;
        key_is = o.key_is;
        running = o.running;
        kept = o.kept;
        counted = o.counted;
        waited = o.waited;
      };
  listed = λ c l. s.listed c (record { known = l.known; running = l.running; kept = l.kept });
  fetched = λ k t e.
      let f = s.fetched k t (keep_fresh-some p.refresh_skew now (p.cache k) t e).0 in
      record { call = f.call; known = f.known; key_is = f.key_is; outcome_is = f.outcome_is };
  unknown = s.unknown;
  uncanceled =
      λ c l. s.uncanceled c (record { known = l.known; running = l.running; kept = l.kept });
  unabandoned = s.unabandoned;
}

-- One call has one waiter more, or one waiter less.
pub record IsMore (w v : ℕ → ℕ) (c : ℕ) : Type 0 where
  pub here : v c ≡ w c + 1
  pub else_same : (d : ℕ) → d ≢ c → v d ≡ w d

pub store_same : (c : ℕ) (x : InflightCall) (calls : ℕ → InflightCall) → store_call c x calls c ≡ x
store_same c x calls = ground arith

pub store_other :
    (c d : ℕ) (x : InflightCall) (calls : ℕ → InflightCall)
    → c ≢ d
    → store_call c x calls d ≡ calls d
store_other c d x calls n = ground arith

pub put_same {ℓ} :
    {V : Type ℓ} (k : TokenCacheKey) (v : V) (m : TokenCacheKey → V) → put k v m k ≡ v
put_same k v m = rw ((same_key_iff k k).1 refl) refl

-- What is known of a call stays so where the call is left as it is.
pub IsOpen-keep :
    (p q : TokenCache) (w v : ℕ → ℕ) (k : TokenCacheKey) (c : ℕ)
    → q.calls c ≡ p.calls c
    → p.next_call ≤ q.next_call
    → v c ≡ w c
    → IsOpen p w k c
    → IsOpen q v k c
IsOpen-keep p q w v k c e n m o = record {
  known = omega (arith, o.known);
  key_is = ap (λ x. x.key) e ∙ o.key_is;
  running = ap (λ x. x.outcome) e ∙ o.running;
  kept = ap (λ x. x.abandoned) e ∙ o.kept;
  counted = ap (λ x. x.waiters) e ∙ o.counted ∙ sym m;
  waited = omega (arith, o.waited);
}

pub IsLive-back :
    (p q : TokenCache) (c : ℕ) → q.calls c ≡ p.calls c → c < p.next_call → IsLive q c → IsLive p c
IsLive-back p q c e n l = record {
  known = n;
  running = ap (λ x. x.outcome) (sym e) ∙ l.running;
  kept = ap (λ x. x.abandoned) (sym e) ∙ l.kept;
}

-- A call that is done keeps its key and its outcome.
abbrev pub Keeps : TokenCache → TokenCache → Type 0
Keeps p q =
    (c : ℕ)
    → c < p.next_call
    → (o : Outcome) → (p.calls c).outcome ≡ some o
    → ((q.calls c).key ≡ (p.calls c).key) × ((q.calls c).outcome ≡ some o) × (c < q.next_call)

pub IsFetched-keep :
    (p q : TokenCache) (k : TokenCacheKey) (t : CachedToken)
    → Keeps p q
    → IsFetched p k t
    → IsFetched q k t
IsFetched-keep p q k t keeps f =
    let (x, y, z) = keeps f.call f.known (got t) f.outcome_is in
    record { call = f.call; known = z; key_is = x ∙ f.key_is; outcome_is = y }
