-- ===== src/Client/Cache/Sharing/Closing.antt =====
-- A call ends: it is done, or its last waiter leaves.
use orionis.Base.{
  ℕ, ◌≤◌, ◌<◌, ◌≡◌, ◌≢◌, ◌⊎◌, inl, inr, refl, sym, ap, subst, ◌∙◌, true, false, Option, none, some,
  arith, Bool-cases, ◌==◌,
}
use orionis.Client.Requests.{got}
use orionis.Client.Tokens.{CachedToken, TokenCacheKey}
use orionis.Client.Cache.{InflightCall, TokenCache, store_call}
use orionis.Client.Cache.Sharing.{
  IsLive, IsShared, store_same, store_other, IsOpen-keep, IsLive-back, Keeps, IsFetched-keep,
}

-- The call is stored with its end, and `inflight` and `cache` are as given.
abbrev pub closed :
    TokenCache
    → ℕ
    → InflightCall
    → (TokenCacheKey → Option ℕ)
    → (TokenCacheKey → Option CachedToken)
    → TokenCache
closed p c x inflight cache = record p {
  calls = store_call c x p.calls;
  inflight = inflight;
  cache = cache;
}

-- The call has come to its end, and no other call is touched.
pub record IsEnd (p : TokenCache) (w v : ℕ → ℕ) (c : ℕ) (x : InflightCall)
    (f : TokenCacheKey → Option ℕ) : Type 0 where
  pub known : c < p.next_call
  pub was_running : (p.calls c).outcome ≡ none
  pub key_is : x.key ≡ (p.calls c).key
  pub ended : (x.outcome ≢ none) ⊎ (x.abandoned ≡ true)
  pub else_same : (d : ℕ) → d ≢ c → v d ≡ w d
  pub kept_for : 1 ≤ v c → x.abandoned ≡ false
  pub only : (k : TokenCacheKey) (d : ℕ) → f k ≡ some d → (p.inflight k ≡ some d) × (d ≢ c)
  pub others : (k : TokenCacheKey) (d : ℕ) → p.inflight k ≡ some d → d ≢ c → f k ≡ some d

module _ (p : TokenCache) (w v : ℕ → ℕ) (c : ℕ) (x : InflightCall) (f : TokenCacheKey → Option ℕ)
    (g : TokenCacheKey → Option CachedToken) (s : IsShared p w) (z : IsEnd p w v c x f) where
  call_other : (d : ℕ) → d ≢ c → store_call c x p.calls d ≡ p.calls d
  call_other d n = store_other c d x p.calls (λ e. n (sym e))

  closed-Keeps : Keeps p (closed p c x f g)
  closed-Keeps d n o e = elim (Bool-cases (c == d)) [
    | inl q ↦
        let same : c ≡ d = ground arith in
        absurd (ground (arith, ap (λ i. (p.calls i).outcome) same, z.was_running))
    | inr q ↦ rw q (refl, e, n)
  ]

  live_other : (d : ℕ) → IsLive (closed p c x f g) d → d ≢ c
  live_other d l e =
      let at_c = subst (IsLive (closed p c x f g)) e l in
      let is_x = store_same c x p.calls in
      elim z.ended [
        | inl n ↦ n (ap (λ y. y.outcome) (sym is_x) ∙ at_c.running)
        | inr a ↦ ground (arith, ap (λ y. y.abandoned) is_x, at_c.kept, a)
      ]

  pub close-IsShared :
      ((k : TokenCacheKey) (t : CachedToken)
        → g k ≡ some t
        → (p.cache k ≡ some t) ⊎ ((x.key ≡ k) × (x.outcome ≡ some (got t))))
      → IsShared (closed p c x f g) v
  close-IsShared from = record {
    current = λ k d e.
        let (old, ne) = z.only k d e in
        IsOpen-keep p (closed p c x f g) w v k d (call_other d ne) (omega arith) (z.else_same d ne)
          (s.current k d old);
    listed = λ d l.
        let ne = live_other d l in
        let e = call_other d ne in
        ap (λ y. f y.key) e
        ∙ z.others (p.calls d).key d (s.listed d (IsLive-back p (closed p c x f g) d e l.known l))
            ne;
    fetched = λ k t e. elim (from k t e) [
      | inl old ↦ IsFetched-keep p (closed p c x f g) k t closed-Keeps (s.fetched k t old)
      | inr (i, o) ↦
          let is_x = store_same c x p.calls in
          record {
            call = c;
            known = z.known;
            key_is = ap (λ y. y.key) is_x ∙ i;
            outcome_is = ap (λ y. y.outcome) is_x ∙ o;
          }
    ];
    uncanceled = λ d l.
        let e = call_other d (live_other d l) in
        ap (λ y. y.canceled) e ∙ s.uncanceled d (IsLive-back p (closed p c x f g) d e l.known l);
    unknown = λ d l. z.else_same d (λ e. omega (arith, e, l, z.known)) ∙ s.unknown d l;
    unabandoned = λ d l. elim (Bool-cases (c == d)) [
      | inl q ↦
          let same : c ≡ d = ground arith in rw q (z.kept_for (subst (λ i. 1 ≤ v i) (sym same) l))
      | inr q ↦
          let ne : d ≢ c = λ e. ground arith in
          rw q (s.unabandoned d (omega (arith, z.else_same d ne, l)))
    ];
  }
