-- ===== src/Client/Cache/Sharing/Adjusting.antt =====
-- A call gets a waiter more or less.
use orionis.Base.{
  ℕ, ◌≤◌, ◌<◌, ◌≡◌, ◌≢◌, inl, inr, refl, sym, ap, subst, ◌∙◌, some, arith, Bool-cases, ◌==◌,
}
use orionis.Client.Tokens.{TokenCacheKey}
use orionis.Client.Cache.{InflightCall, TokenCache, store_call}
use orionis.Client.Cache.Sharing.{
  IsOpen, IsShared, store_same, store_other, IsOpen-keep, IsFetched-keep,
}

-- A call that differs in its waiters only.
pub record IsAlike (x y : InflightCall) : Type 0 where
  pub key : x.key ≡ y.key
  pub outcome : x.outcome ≡ y.outcome
  pub abandoned : x.abandoned ≡ y.abandoned
  pub canceled : x.canceled ≡ y.canceled

abbrev pub adjusted : TokenCache → ℕ → InflightCall → TokenCache
adjusted p c x = record p { calls = store_call c x p.calls }

-- The number of waiters of one call is as it stands in the call, and at least one; the others keep theirs.
pub record IsCounted (w v : ℕ → ℕ) (c : ℕ) (x : InflightCall) : Type 0 where
  pub here : x.waiters ≡ v c
  pub some_left : 1 ≤ v c
  pub some_before : 1 ≤ w c
  pub else_same : (d : ℕ) → d ≢ c → v d ≡ w d

module _ (p : TokenCache) (w v : ℕ → ℕ) (c : ℕ) (x : InflightCall) (s : IsShared p w)
    (a : IsAlike x (p.calls c)) (m : IsCounted w v c x) where
  IsAlike-at : (d : ℕ) → IsAlike ((adjusted p c x).calls d) (p.calls d)
  IsAlike-at d = elim (Bool-cases (c == d)) [
    | inl e ↦
        let same : c ≡ d = ground arith in
        subst (λ i. IsAlike ((adjusted p c x).calls i) (p.calls i)) same
          (rw (store_same c x p.calls) a)
    | inr e ↦ rw e (record { key = refl; outcome = refl; abandoned = refl; canceled = refl })
  ]

  adjusted_current :
      (k : TokenCacheKey) (d : ℕ) → p.inflight k ≡ some d → IsOpen (adjusted p c x) v k d
  adjusted_current k d e =
      let o = s.current k d e in
      let y = IsAlike-at d in
      elim (Bool-cases (c == d)) [
        | inl q ↦
            let same : c ≡ d = ground arith in
            record {
              known = o.known;
              key_is = y.key ∙ o.key_is;
              running = y.outcome ∙ o.running;
              kept = y.abandoned ∙ o.kept;
              counted = rw q (m.here ∙ ap v same);
              waited = subst (λ i. 1 ≤ v i) same m.some_left;
            }
        | inr q ↦
            let ne : c ≢ d = λ z. ground arith in
            IsOpen-keep p (adjusted p c x) w v k d (store_other c d x p.calls ne) (omega arith)
              (m.else_same d (λ z. ne (sym z))) o
      ]

  pub adjust-IsShared : c < p.next_call → IsShared (adjusted p c x) v
  adjust-IsShared n = record {
    current = adjusted_current;
    listed = λ d l.
        let y = IsAlike-at d in
        ap p.inflight y.key
        ∙ s.listed d (record {
          known = l.known;
          running = sym y.outcome ∙ l.running;
          kept = sym y.abandoned ∙ l.kept;
        });
    fetched = λ k t e.
        IsFetched-keep p (adjusted p c x) k t
          (λ d i o f. ((IsAlike-at d).key, (IsAlike-at d).outcome ∙ f, i)) (s.fetched k t e);
    unknown = λ d l. m.else_same d (λ z. omega (arith, l, n, z)) ∙ s.unknown d l;
    uncanceled = λ d l.
        let y = IsAlike-at d in
        y.canceled
        ∙ s.uncanceled d (record {
          known = l.known;
          running = sym y.outcome ∙ l.running;
          kept = sym y.abandoned ∙ l.kept;
        });
    unabandoned = λ d l. elim (Bool-cases (c == d)) [
      | inl q ↦
          let same : c ≡ d = ground arith in
          (IsAlike-at d).abandoned ∙ s.unabandoned d (subst (λ i. 1 ≤ w i) same m.some_before)
      | inr q ↦
          let ne : d ≢ c = λ z. ground arith in
          (IsAlike-at d).abandoned ∙ s.unabandoned d (omega (arith, m.else_same d ne, l))
    ];
  }
