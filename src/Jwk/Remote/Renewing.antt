-- ===== src/Jwk/Remote/Renewing.antt =====
-- Steps of the provider one after the other, and what they keep.

use orionis.Base.{
  ℕ, suc, ◌≤◌, ◌≡◌, inl, inr, refl, Bool, ◌&&◌, none, some, [], arith, Bool-cases, ◌==◌, is_nil,
}
use orionis.Base.Int.{ℤ, ◌+ℤ◌}
use orionis.Text.{trim_space}
use orionis.Jwk.Key.{Codec}
use orionis.Jwk.Remote.{
  RemoteProvider, Attempt, Fetched, fetched, fetch_failed, fetch, record_fetch, refresh_locked,
  refresh_held, RemoteConfig, new_remote_provider,
}
use orionis.Jwk.Remote.Refreshing.{
  Refreshes, start, failure, success, IsCounting, Refreshes-IsAfter,
}

pub Refreshes-append :
    (codec : Codec) (p q r : RemoteProvider) (n m i j : ℕ)
    → Refreshes codec p n m q
    → Refreshes codec q i j r
    → (k l : ℕ) × Refreshes codec p k l r × (m ≤ l) × (j ≤ l)
Refreshes-append codec p q _ n m _ _ f start = (n, m, f, omega arith, omega arith)
Refreshes-append codec p q _ n m (suc i) j f (failure {q = s} a now e g h) =
    let (k, l, t, x, y) = Refreshes-append codec p q s n m i j f g in
    (suc k, l, failure a now e t h, x, y)
Refreshes-append codec p q _ n m (suc i) (suc j) f (success {q = s} a now ks g h) =
    let (k, l, t, x, y) = Refreshes-append codec p q s n m i j f g in
    (suc k, suc l, success a now ks t h, omega (arith, x), omega (arith, y))

-- A refresh without error is a step with success.
refreshed :
    (codec : Codec) (p q : RemoteProvider) (n m : ℕ) (a : Attempt) (now : ℤ)
    → Refreshes codec p n m q
    → (refresh_locked codec q a now).1 ≡ none
    → (k l : ℕ) × Refreshes codec p k l (refresh_locked codec q a now).0 × (1 ≤ l)
unfolding refresh_locked record_fetch
refreshed codec p q n m a now r e = go (fetch codec a.exchange) refl
  where
    go :
        (f : Fetched)
        → fetch codec a.exchange ≡ f
        → (k l : ℕ) × Refreshes codec p k l (refresh_locked codec q a now).0 × (1 ≤ l)
    go (fetched ks) x = (suc n, suc m, success a now ks r x, omega arith)
    go (fetch_failed y) x = absurd (ground arith)

module _ (codec : Codec) (p q : RemoteProvider) (n m : ℕ) (a : Attempt) (now : ℤ) where
  pub held_renewed :
      (ctx_ok : Bool)
      → IsCounting p
      → Refreshes codec p n m q
      → (refresh_held codec q p.generation p.refresh_version ctx_ok a now).1 ≡ none
      → (k l : ℕ) × Refreshes codec p k l
          (refresh_held codec q p.generation p.refresh_version ctx_ok a now).0
        × (1 ≤ l)
  unfolding refresh_held
  held_renewed ctx_ok c r e =
      let h = Refreshes-IsAfter codec p c n m q r in
      elim (Bool-cases (q.generation == p.generation)) [
        | inr g ↦ rw (g, refresh_held) (n, m, r, ground (arith, h.generation, c.generation_fits))
        | inl g ↦ elim (Bool-cases (q.refresh_version == p.refresh_version)) [
          | inl v ↦
              rw (g, v, refresh_held)
                (refreshed codec p q n m a now r (rw (g, v, refresh_held) at e))
          | inr v ↦ elim (Bool-cases (q.last_refresh_canceled_by_caller && ctx_ok)) [
            | inl x ↦
                rw (g, v, x, refresh_held)
                  (refreshed codec p q n m a now r (rw (g, v, x, refresh_held) at e))
            | inr x ↦
                let clear = rw (g, v, x, refresh_held) at e in
                rw (g, v, x, refresh_held)
                  (
                    n,
                    m,
                    r,
                    elim h.cleared [
                      | inl y ↦ absurd (y clear)
                      | inr (inl z) ↦ absurd (ground (arith, h.version, c.version_fits))
                      | inr (inr z) ↦ z
                    ],
                  )
          ]
        ]
      ]

-- A provider has keys only since it fetched them, and they expire an interval after that.
pub data IsTimed (p : RemoteProvider) : Type 0 where
  unfetched : p.keys ≡ [] → p.fetched_at ≡ none → p.expires_at ≡ none → IsTimed p
  timed :
      (t : ℤ) → p.fetched_at ≡ some t → p.expires_at ≡ some (t +ℤ p.refresh_interval) → IsTimed p

pub Refreshes-IsTimed :
    (codec : Codec) (p q : RemoteProvider) (n m : ℕ)
    → Refreshes codec p n m q
    → IsTimed p
    → IsTimed q
unfolding refresh_locked record_fetch
Refreshes-IsTimed codec p _ _ _ start t = t
Refreshes-IsTimed codec p _ _ _ (failure {n = n} {m = m} {q = q} a now e r f) t =
    elim (Refreshes-IsTimed codec p q n m r t) [
      | unfetched x y z ↦ rw f (unfetched x y z)
      | timed s y z ↦ rw f (timed s y z)
    ]
Refreshes-IsTimed codec p _ _ _ (success {n = n} {m = m} {q = q} a now ks r f) t =
    rw f (timed now refl refl)

pub Refreshes-IsCounting :
    (codec : Codec) (p q : RemoteProvider) (n m : ℕ)
    → IsCounting p
    → Refreshes codec p n m q
    → IsCounting q
Refreshes-IsCounting codec p q n m c r =
    let h = Refreshes-IsAfter codec p c n m q r in
    record {
      generation_fits = omega (arith, h.generation);
      version_fits = omega (arith, h.version);
    }

pub new-IsTimed :
    {C : Type 0} (cfg : RemoteConfig C) (p : RemoteProvider)
    → new_remote_provider cfg ≡ some p
    → IsTimed p × IsCounting p
unfolding new_remote_provider
new-IsTimed cfg p e = elim (Bool-cases (is_nil (trim_space cfg.url))) [
  | inl k ↦ absurd (ground arith)
  | inr k ↦ (
    unfetched (ground arith) (ground arith) (ground arith),
    record { generation_fits = ground arith; version_fits = ground arith },
  )
]
