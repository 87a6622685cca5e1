-- ===== src/Client/Cache/Sharing/Starting.antt =====
-- A call is started.
use orionis.Base.{
  ℕ, suc, ◌≤◌, ◌≡◌, ◌≢◌, inl, inr, refl, ap, subst, ◌∙◌, false, none, some, arith, Bool-cases, ◌==◌,
}
use orionis.Client.Tokens.{TokenCacheKey, same_key}
use orionis.Client.Tokens.Freshness.{same_key_iff}
use orionis.Client.Cache.{InflightCall, TokenCache, put, store_call, new_call}
use orionis.Client.Cache.Sharing.{
  IsOpen, IsLive, IsShared, IsMore, store_same, store_other, put_same, IsOpen-keep, IsLive-back,
  Keeps, IsFetched-keep,
}

-- The state after a call is started for a key.
abbrev pub started : TokenCache → TokenCacheKey → TokenCache
started p k = record p {
  inflight = put k (some p.next_call) p.inflight;
  calls = store_call p.next_call (new_call k) p.calls;
  next_call = suc p.next_call;
}

started-IsOpen :
    (p : TokenCache) (w v : ℕ → ℕ) (k : TokenCacheKey)
    → IsShared p w
    → IsMore w v p.next_call
    → IsOpen (started p k) v k p.next_call
started-IsOpen p w v k s m =
    let e = store_same p.next_call (new_call k) p.calls in
    record {
      known = omega arith;
      key_is = ap (λ x. x.key) e;
      running = ap (λ x. x.outcome) e;
      kept = ap (λ x. x.abandoned) e;
      counted = ap (λ x. x.waiters) e ∙ omega (arith, m.here, s.unknown p.next_call (omega arith));
      waited = omega (arith, m.here);
    }

store_unabandoned :
    (p : TokenCache) (w v : ℕ → ℕ) (c : ℕ) (x : InflightCall)
    → IsShared p w
    → v c ≡ w c
    → 1 ≤ v c
    → (p.next_call == c) ≡ false
    → (store_call p.next_call x p.calls c).abandoned ≡ false
store_unabandoned p w v c x s e l n = rw n (s.unabandoned c (omega (arith, e, l)))

start_current :
    (p : TokenCache) (w v : ℕ → ℕ) (k j : TokenCacheKey) (c : ℕ)
    → IsShared p w
    → IsMore w v p.next_call
    → (started p k).inflight j ≡ some c
    → IsOpen (started p k) v j c
start_current p w v k j c s m e = elim (Bool-cases (same_key k j)) [
  | inl x ↦
      let same : p.next_call ≡ c = ground arith in
      subst (λ i. IsOpen (started p k) v i c) ((same_key_iff k j).0 x)
        (subst (IsOpen (started p k) v k) same (started-IsOpen p w v k s m))
  | inr x ↦
      let o = s.current j c (rw x at e) in
      IsOpen-keep p (started p k) w v j c
        (store_other p.next_call c (new_call k) p.calls (λ z. omega (arith, o.known, z)))
        (omega arith) (m.else_same c (λ z. omega (arith, o.known, z))) o
]

start_listed :
    (p : TokenCache) (w v : ℕ → ℕ) (k : TokenCacheKey) (c : ℕ)
    → IsShared p w
    → p.inflight k ≡ none
    → IsLive (started p k) c
    → (started p k).inflight ((started p k).calls c).key ≡ some c
start_listed p w v k c s free l = elim (Bool-cases (p.next_call == c)) [
  | inl x ↦
      let same : p.next_call ≡ c = ground arith in
      subst (λ d. (started p k).inflight ((started p k).calls d).key ≡ some d) same
        (ap (λ y. (started p k).inflight y.key) (store_same p.next_call (new_call k) p.calls)
          ∙ put_same k (some p.next_call) p.inflight)
  | inr x ↦
      let ne : p.next_call ≢ c = λ z. ground arith in
      let e = store_other p.next_call c (new_call k) p.calls ne in
      let at_key = s.listed c (IsLive-back p (started p k) c e (omega (arith, l.known, ne)) l) in
      ap (λ y. (started p k).inflight y.key) e ∙ (elim (Bool-cases (same_key k (p.calls c).key)) [
        | inl y ↦
            let same = (same_key_iff k (p.calls c).key).0 y in
            let at_k : p.inflight k ≡ some c = ap p.inflight same ∙ at_key in
            absurd (ground (arith, free, at_k))
        | inr y ↦ rw y at_key
      ])
]

start-Keeps : (p : TokenCache) (k : TokenCacheKey) → Keeps p (started p k)
start-Keeps p k c n o e =
    let same = store_other p.next_call c (new_call k) p.calls (λ z. omega (arith, n, z)) in
    (ap (λ x. x.key) same, ap (λ x. x.outcome) same ∙ e, omega (arith, n))

pub start-IsShared :
    (p : TokenCache) (w v : ℕ → ℕ) (k : TokenCacheKey)
    → IsShared p w
    → p.inflight k ≡ none
    → IsMore w v p.next_call
    → IsShared (started p k) v
start-IsShared p w v k s free m = record {
  current = λ j c e. start_current p w v k j c s m e;
  listed = λ c l. start_listed p w v k c s free l;
  fetched = λ j t e. IsFetched-keep p (started p k) j t (start-Keeps p k) (s.fetched j t e);
  unknown = λ c l. m.else_same c (λ z. omega (arith, l, z)) ∙ s.unknown c (omega (arith, l));
  uncanceled = λ c l. elim (Bool-cases (p.next_call == c)) [
    | inl x ↦ rw x refl
    | inr x ↦
        let ne : p.next_call ≢ c = λ z. ground arith in
        let e = store_other p.next_call c (new_call k) p.calls ne in
        ap (λ y. y.canceled) e
        ∙ s.uncanceled c (IsLive-back p (started p k) c e (omega (arith, l.known, ne)) l)
  ];
  unabandoned = λ c l. elim (Bool-cases (p.next_call == c)) [
    | inl x ↦ ground arith
    | inr x ↦
        let ne : c ≢ p.next_call = λ z. ground arith in
        store_unabandoned p w v c (new_call k) s (m.else_same c ne) l x
  ];
}
