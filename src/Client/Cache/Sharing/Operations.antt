-- ===== src/Client/Cache/Sharing/Operations.antt =====
-- The operations of the cache, each by what it does to one call.
use orionis.Base.{
  ℕ, ◌<◌, ◌≡◌, ◌⊎◌, inl, inr, refl, sym, ap, subst, ◌∙◌, Option, none, some, arith, Bool-cases,
  ◌==◌,
}
use orionis.Base.Int.{ℤ}
use orionis.Client.Requests.{Outcome, got}
use orionis.Client.Tokens.{CachedToken, TokenCacheKey}
use orionis.Client.Cache.{
  InflightCall, TokenCache, store_call, purge_stale, hit, waiting_for, new_call, one_more,
  join_with, join_or_start,
}
use orionis.Client.Cache.Sharing.{IsFetched, IsShared, IsMore, store_same, store_other}
use orionis.Client.Cache.Sharing.{purge-IsShared}
use orionis.Client.Cache.Sharing.Starting.{started, start-IsShared}
use orionis.Client.Cache.Sharing.Adjusting.{adjusted, adjust-IsShared}

-- The calls that are known stay known, and keep their keys, and their outcomes where they are done.
abbrev pub Extends : TokenCache → TokenCache → Type 0
Extends p q =
    (c : ℕ)
    → c < p.next_call
    → ((q.calls c).key ≡ (p.calls c).key)
      × (c < q.next_call)
      × ((o : Outcome) → (p.calls c).outcome ≡ some o → (q.calls c).outcome ≡ some o)

pub stored_extends :
    (p : TokenCache) (c : ℕ) (x : InflightCall)
    → x.key ≡ (p.calls c).key
    → ((o : Outcome) → (p.calls c).outcome ≡ some o → x.outcome ≡ some o)
    → (d : ℕ)
    → ((store_call c x p.calls d).key ≡ (p.calls d).key)
      × ((o : Outcome) → (p.calls d).outcome ≡ some o → (store_call c x p.calls d).outcome ≡ some o)
stored_extends p c x e f d = elim (Bool-cases (c == d)) [
  | inl q ↦
      let same : c ≡ d = ground arith in
      rw q (e ∙ ap (λ i. (p.calls i).key) same, λ o z. f o (ap (λ i. (p.calls i).outcome) same ∙ z))
  | inr q ↦ rw q (refl, λ o z. z)
]

pub Extends-IsFetched :
    (p q : TokenCache) (k : TokenCacheKey) (t : CachedToken)
    → Extends p q
    → IsFetched p k t
    → IsFetched q k t
Extends-IsFetched p q k t x f =
    let (key, known, outcome) = x f.call f.known in
    record {
      call = f.call;
      known = known;
      key_is = key ∙ f.key_is;
      outcome_is = outcome (got t) f.outcome_is;
    }

join_with-hit :
    (q : TokenCache) (k : TokenCacheKey) (o : Option CachedToken) (i : Option ℕ) (t : CachedToken)
    → (join_with q k o i).1 ≡ hit t
    → ((join_with q k o i).0 ≡ q) × (o ≡ some t)
unfolding join_with
join_with-hit q k (some u) i t e = (refl, ground arith)
join_with-hit q k none (some c) t e = absurd (ground arith)
join_with-hit q k none none t e = absurd (ground arith)

-- The call in flight is joined, or one is started.
join_with-wait :
    (q : TokenCache) (k : TokenCacheKey) (o : Option CachedToken) (i : Option ℕ) (c : ℕ)
    → (join_with q k o i).1 ≡ waiting_for c
    → ((i ≡ some c) × ((join_with q k o i).0 ≡ adjusted q c (one_more (q.calls c))))
      ⊎ ((i ≡ none) × (q.next_call ≡ c) × ((join_with q k o i).0 ≡ started q k))
unfolding join_with
join_with-wait q k (some u) i c e = absurd (ground arith)
join_with-wait q k none (some d) c e =
    let same : d ≡ c = ground arith in
    inl (ap some same, ap (λ x. adjusted q x (one_more (q.calls x))) same)
join_with-wait q k none none c e = inr (refl, ground arith, refl)

pub adjusted-Extends :
    (p : TokenCache) (c : ℕ) (x : InflightCall)
    → x.key ≡ (p.calls c).key
    → x.outcome ≡ (p.calls c).outcome
    → Extends p (adjusted p c x)
adjusted-Extends p c x e f d n = let (y, z) = stored_extends p c x e (λ o i. f ∙ i) d in (y, n, z)

started-Extends : (p : TokenCache) (k : TokenCacheKey) → Extends p (started p k)
started-Extends p k d n =
    let e = store_other p.next_call d (new_call k) p.calls (λ z. omega (arith, n, z)) in
    (ap (λ x. x.key) e, omega (arith, n), λ o z. ap (λ x. x.outcome) e ∙ z)

module _ (q : TokenCache) (w v : ℕ → ℕ) (k : TokenCacheKey) (c : ℕ) (s : IsShared q w)
    (m : IsMore w v c) where
  joined-IsShared : q.inflight k ≡ some c → IsShared (adjusted q c (one_more (q.calls c))) v
  joined-IsShared e =
      let o = s.current k c e in
      adjust-IsShared q w v c (one_more (q.calls c)) s
        (record { key = refl; outcome = refl; abandoned = refl; canceled = refl })
        (record {
          here = omega (arith, o.counted, m.here);
          some_left = omega (arith, m.here);
          some_before = o.waited;
          else_same = m.else_same;
        })
        o.known

  joined_key : q.inflight k ≡ some c → ((adjusted q c (one_more (q.calls c))).calls c).key ≡ k
  joined_key e =
      ap (λ x. x.key) (store_same c (one_more (q.calls c)) q.calls) ∙ (s.current k c e).key_is

-- A hit: the token is of the cache, and fresh.
pub join_hit :
    (p : TokenCache) (k : TokenCacheKey) (now : ℤ) (t : CachedToken)
    → (join_or_start p k now).1 ≡ hit t
    → ((join_or_start p k now).0 ≡ purge_stale p now) × ((purge_stale p now).cache k ≡ some t)
unfolding join_or_start
join_hit p k now t e = let q = purge_stale p now in join_with-hit q k (q.cache k) (q.inflight k) t e

-- What a caller that waits may count on.
pub record IsJoined (p q : TokenCache) (v : ℕ → ℕ) (k : TokenCacheKey) (c : ℕ) : Type 0 where
  pub shared : IsShared q v
  pub key_is : (q.calls c).key ≡ k
  pub known : c < q.next_call
  pub extends : Extends p q

pub join_wait :
    (p : TokenCache) (w v : ℕ → ℕ) (k : TokenCacheKey) (now : ℤ) (c : ℕ)
    → IsShared p w
    → (join_or_start p k now).1 ≡ waiting_for c
    → IsMore w v c
    → IsJoined p (join_or_start p k now).0 v k c
unfolding join_or_start purge_stale
join_wait p w v k now c s e m =
    let q = purge_stale p now in
    let swept = purge-IsShared p w now s in
    elim (join_with-wait q k (q.cache k) (q.inflight k) c e) [
      | inl (x, r) ↦
          subst (λ y. IsJoined p y v k c) (sym r)
            (record {
              shared = joined-IsShared q w v k c swept m x;
              key_is = joined_key q w v k c swept m x;
              known = (swept.current k c x).known;
              extends = adjusted-Extends q c (one_more (q.calls c)) refl refl;
            })
      | inr (x, same, r) ↦
          subst (λ y. IsJoined p y v k c) (sym r)
            (record {
              shared = start-IsShared q w v k swept x (subst (IsMore w v) (sym same) m);
              key_is =
                  subst (λ d. (store_call q.next_call (new_call k) q.calls d).key ≡ k) same
                    (ap (λ y. y.key) (store_same q.next_call (new_call k) q.calls));
              known = omega (arith, same);
              extends = started-Extends q k;
            })
    ]
