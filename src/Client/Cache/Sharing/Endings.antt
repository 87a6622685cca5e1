-- ===== src/Client/Cache/Sharing/Endings.antt =====
-- A request ends, and a caller leaves.
use orionis.Base.{
  ℕ, ◌-◌, ◌≤◌, ◌<◌, ◌≡◌, ◌≢◌, ◌⊎◌, ◌↔◌, inl, inr, refl, sym, ap, subst, ◌∙◌, Bool, true, false,
  Option, none, some, arith, Bool-cases, Option-cases, ◌==◌, ltb, is_some,
}
use orionis.Client.Requests.{Outcome, got, failed}
use orionis.Client.Tokens.{CachedToken, TokenCacheKey, same_key}
use orionis.Client.Tokens.Freshness.{same_key_iff}
use orionis.Client.Cache.{
  InflightCall, TokenCache, put, store_call, is_current, cacheable, finish_call, release_waiter,
}
use orionis.Client.Cache.Sharing.{IsShared, IsMore, store_same, IsOpen-keep}
use orionis.Client.Cache.Sharing.Adjusting.{adjusted, adjust-IsShared}
use orionis.Client.Cache.Sharing.Closing.{closed, IsEnd, close-IsShared}
use orionis.Client.Cache.Sharing.Operations.{Extends, stored_extends, adjusted-Extends}

is_current_iff : (o : Option ℕ) (c : ℕ) → (is_current o c ≡ true) ↔ (o ≡ some c)
unfolding is_current
is_current_iff none c = ground arith
is_current_iff (some d) c = ground arith

put_cases {ℓ} :
    {V : Type ℓ} (k j : TokenCacheKey) (v : V) (m : TokenCacheKey → V)
    → ((k ≡ j) × (put k v m j ≡ v)) ⊎ ((k ≢ j) × (put k v m j ≡ m j))
put_cases k j v m = elim (Bool-cases (same_key k j)) [
  | inl e ↦ inl ((same_key_iff k j).0 e, rw e refl)
  | inr e ↦ inr (λ x. ground (arith, (same_key_iff k j).1 x, e), rw e refl)
]

-- The entry of a call is removed: every other stays.
module _ (p : TokenCache) (w : ℕ → ℕ) (c : ℕ) (s : IsShared p w) where
  abbrev removed : TokenCacheKey → Option ℕ
  removed = put (p.calls c).key none p.inflight

  removed_only :
      (k : TokenCacheKey) (d : ℕ) → removed k ≡ some d → (p.inflight k ≡ some d) × (d ≢ c)
  removed_only k d e = elim (put_cases (p.calls c).key k none p.inflight) [
    | inl (same, x) ↦ absurd (ground (arith, x, e))
    | inr (ne, x) ↦
        let at_k : p.inflight k ≡ some d = sym x ∙ e in
        (at_k, λ z. ne ((s.current k c (subst (λ i. p.inflight k ≡ some i) z at_k)).key_is))
  ]

  removed_others :
      p.inflight (p.calls c).key ≡ some c
      → (k : TokenCacheKey) (d : ℕ) → p.inflight k ≡ some d
      → d ≢ c
      → removed k ≡ some d
  removed_others here k d e n = elim (put_cases (p.calls c).key k none p.inflight) [
    | inl (same, x) ↦
        let at_k : p.inflight k ≡ some c = ap p.inflight (sym same) ∙ here in
        absurd (n (ground (arith, at_k, e)))
    | inr (ne, x) ↦ x ∙ e
  ]

  -- A call that is not the current one for its key is in no entry.
  absent :
      is_current (p.inflight (p.calls c).key) c ≡ false
      → (k : TokenCacheKey) (d : ℕ) → p.inflight k ≡ some d
      → d ≢ c
  absent f k d e z =
      let at_c = subst (λ i. p.inflight k ≡ some i) z e in
      let at_key = ap p.inflight (s.current k c at_c).key_is ∙ at_c in
      ground (arith, (is_current_iff (p.inflight (p.calls c).key) c).1 at_key, f)

abbrev done : InflightCall → Outcome → InflightCall
done call o = record call { outcome = some o; canceled = true }

cacheable-some :
    (o : Outcome) (a : Bool) (old : Option CachedToken) (t : CachedToken)
    → cacheable o a old ≡ some t
    → (old ≡ some t) ⊎ (o ≡ got t)
unfolding cacheable
cacheable-some (got u) false old t e = inr (ground arith)
cacheable-some (got u) true old t e = inl e
cacheable-some (failed x) a old t e = inl e

module _ (p : TokenCache) (w : ℕ → ℕ) (c : ℕ) (o : Outcome) (s : IsShared p w) (n : c < p.next_call)
    (r : (p.calls c).outcome ≡ none) where
  finish-IsEnd :
      (f : TokenCacheKey → Option ℕ)
      → ((k : TokenCacheKey) (d : ℕ) → f k ≡ some d → (p.inflight k ≡ some d) × (d ≢ c))
      → ((k : TokenCacheKey) (d : ℕ) → p.inflight k ≡ some d → d ≢ c → f k ≡ some d)
      → IsEnd p w w c (done (p.calls c) o) f
  finish-IsEnd f only others = record {
    known = n;
    was_running = r;
    key_is = refl;
    ended = inl (λ z. ground arith);
    else_same = λ d z. refl;
    kept_for = s.unabandoned c;
    only = only;
    others = others;
  }

  pub finish-IsShared : IsShared (finish_call p c o) w
  unfolding finish_call
  finish-IsShared = elim (Bool-cases (is_current (p.inflight (p.calls c).key) c)) [
    | inl e ↦
        let here = (is_current_iff (p.inflight (p.calls c).key) c).0 e in
        rw e (
          close-IsShared p w w c (done (p.calls c) o) (removed p w c s)
            (put (p.calls c).key (cacheable o (p.calls c).abandoned (p.cache (p.calls c).key))
              p.cache)
            s (finish-IsEnd (removed p w c s) (removed_only p w c s) (removed_others p w c s here))
            (λ k t i.
              elim (put_cases (p.calls c).key k
                (cacheable o (p.calls c).abandoned (p.cache (p.calls c).key)) p.cache) [
                  | inl (same, x) ↦
                      elim (cacheable-some o (p.calls c).abandoned (p.cache (p.calls c).key) t
                        (sym x ∙ i)) [
                          | inl old ↦ inl (ap p.cache (sym same) ∙ old)
                          | inr g ↦ inr (same, ap some g)
                        ]
                  | inr (ne, x) ↦ inl (sym x ∙ i)
                ]))
    | inr e ↦ rw e (
        close-IsShared p w w c (done (p.calls c) o) p.inflight p.cache s
          (finish-IsEnd p.inflight (λ k d i. (i, absent p w c s e k d i)) (λ k d i z. i))
          (λ k t i. inl i))
  ]

  pub finish-calls :
      (d : ℕ) → (finish_call p c o).calls d ≡ store_call c (done (p.calls c) o) p.calls d
  unfolding finish_call
  finish-calls d = ground arith

  pub finish-outcome : ((finish_call p c o).calls c).outcome ≡ some o
  finish-outcome = ap (λ x. x.outcome) (finish-calls c ∙ store_same c (done (p.calls c) o) p.calls)

  pub finish-next_call : (finish_call p c o).next_call ≡ p.next_call
  unfolding finish_call
  finish-next_call = ground arith

  pub finish-Extends : Extends p (finish_call p c o)
  finish-Extends d i =
      let (x, y) = stored_extends p c (done (p.calls c) o) refl (λ z e. absurd (ground arith)) d in
      (
        ap (λ x. x.key) (finish-calls d) ∙ x,
        omega (arith, i, finish-next_call),
        λ z e. ap (λ x. x.outcome) (finish-calls d) ∙ y z e,
      )

abbrev fewer : InflightCall → InflightCall
fewer call = record call { waiters = call.waiters - 1 }

abbrev dropped : InflightCall → InflightCall
dropped call = record call { waiters = call.waiters - 1; abandoned = true; canceled = true }

-- How a caller leaves a call that it waits for.
data Left (p q : TokenCache) (w : ℕ → ℕ) (c : ℕ) (f : TokenCacheKey → Option ℕ) : Type 0 where
  after : (p.calls c).outcome ≢ none → q ≡ p → Left p q w c f
  others :
      (p.calls c).outcome ≡ none
      → p.inflight (p.calls c).key ≡ some c
      → 2 ≤ w c
      → q ≡ adjusted p c (fewer (p.calls c))
      → Left p q w c f
  last :
      (p.calls c).outcome ≡ none
      → p.inflight (p.calls c).key ≡ some c
      → w c ≡ 1
      → q ≡ closed p c (dropped (p.calls c)) f p.cache
      → Left p q w c f

module _ (p : TokenCache) (w v : ℕ → ℕ) (c : ℕ) (s : IsShared p w) (m : IsMore v w c) where
  left_known : c < p.next_call
  left_known = elim (Bool-cases (ltb c p.next_call)) [
    | inl e ↦ ground arith
    | inr e ↦ absurd (omega (arith, s.unknown c (ground arith), m.here))
  ]

  left_else : (d : ℕ) → d ≢ c → v d ≡ w d
  left_else d n = sym (m.else_same d n)

  pub left_done : (p.calls c).outcome ≢ none → IsShared p v
  left_done r = record {
    current = λ k d e.
        let o = s.current k d e in
        IsOpen-keep p p w v k d refl (omega arith)
          (left_else d (λ z. r (subst (λ i. (p.calls i).outcome ≡ none) z o.running))) o;
    listed = s.listed;
    uncanceled = s.uncanceled;
    fetched = s.fetched;
    unknown = λ d l. left_else d (λ z. omega (arith, z, l, left_known)) ∙ s.unknown d l;
    unabandoned = λ d l. elim (Bool-cases (c == d)) [
      | inl q ↦
          let same : c ≡ d = ground arith in
          subst (λ i. (p.calls i).abandoned ≡ false) same (s.unabandoned c (omega (arith, m.here)))
      | inr q ↦ s.unabandoned d (omega (arith, left_else d (λ z. ground arith), l))
    ];
  }

  left_live : (p.calls c).outcome ≡ none → p.inflight (p.calls c).key ≡ some c
  left_live r =
      s.listed c
        (record { known = left_known; running = r; kept = s.unabandoned c (omega (arith, m.here)) })

  release_cases : Left p (release_waiter p c) w c (removed p w c s)
  unfolding release_waiter is_some
  release_cases = elim (Option-cases (p.calls c).outcome) [
    | inr (o, e) ↦ after (λ z. ground arith) (rw e refl)
    | inl e ↦
        let here = left_live e in
        let kept = s.unabandoned c (omega (arith, m.here)) in
        let is_here = (is_current_iff (p.inflight (p.calls c).key) c).1 here in
        let count = (s.current (p.calls c).key c here).counted in
        elim (Bool-cases (ltb 0 ((p.calls c).waiters - 1))) [
          | inl l ↦ others e here (ground arith) (rw (e, kept, is_here, l) refl)
          | inr l ↦ last e here (ground (arith, m.here, count)) (rw (e, kept, is_here, l) refl)
        ]
  ]

  release_at : {q : TokenCache} → Left p q w c (removed p w c s) → IsShared q v
  release_at (after r e) = subst (λ q. IsShared q v) (sym e) (left_done r)
  release_at (others r here l e) =
      let o = s.current (p.calls c).key c here in
      subst (λ q. IsShared q v) (sym e)
        (adjust-IsShared p w v c (fewer (p.calls c)) s
          (record { key = refl; outcome = refl; abandoned = refl; canceled = refl })
          (record {
            here = omega (arith, o.counted, m.here);
            some_left = omega (arith, m.here);
            some_before = o.waited;
            else_same = left_else;
          })
          o.known)
  release_at (last r here l e) =
      subst (λ q. IsShared q v) (sym e)
        (close-IsShared p w v c (dropped (p.calls c)) (removed p w c s) p.cache s
          (record {
            known = left_known;
            was_running = r;
            key_is = refl;
            ended = inr refl;
            else_same = left_else;
            kept_for = λ z. absurd (omega (arith, m.here, l, z));
            only = removed_only p w c s;
            others = removed_others p w c s here;
          })
          (λ k t i. inl i))

  pub release-IsShared : IsShared (release_waiter p c) v
  release-IsShared = release_at release_cases

  Extends-at : {q : TokenCache} → Left p q w c (removed p w c s) → Extends p q
  Extends-at (after r e) = subst (Extends p) (sym e) (λ d i. (refl, i, λ o z. z))
  Extends-at (others r here l e) =
      subst (Extends p) (sym e) (adjusted-Extends p c (fewer (p.calls c)) refl refl)
  Extends-at (last r here l e) =
      subst (Extends p) (sym e) (λ d i.
        let (x, y) = stored_extends p c (dropped (p.calls c)) refl (λ o z. z) d in (x, i, y))

  pub release-Extends : Extends p (release_waiter p c)
  release-Extends = Extends-at release_cases
