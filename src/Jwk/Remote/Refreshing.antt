-- ===== src/Jwk/Remote/Refreshing.antt =====
-- Refreshes as steps of the provider, and how calls of `Key` share one.

use orionis.Base.{
  ℕ, suc, ◌+◌, ◌≤◌, ◌<◌, ◌%◌, ◌^◌, ◌≡◌, ◌≢◌, ◌⊎◌, inl, inr, refl, ◌∙◌, Bool, false, none, some,
  List, arith, Bool-cases, Option-cases, ◌==◌,
}
use orionis.Base.Int.{ℤ}
use orionis.Text.{Text}
use orionis.Jwk.Key.{Codec, DecodedKey}
use orionis.Jwk.Remote.{
  RemoteProvider, Attempt, fetched, fetch_failed, fetch, next, record_fetch, refresh_locked,
  RefreshError, refresh_held, refresh_if_unchanged,
}

-- `Refreshes codec p n m q`: from state p, n refreshes, m of them with success, lead to state q.
pub data Refreshes (codec : Codec) (p : RemoteProvider) : ℕ → ℕ → RemoteProvider → Type 0 where
  start : Refreshes codec p 0 0 p
  failure :
      {n m : ℕ} {q : RemoteProvider} (a : Attempt) (now : ℤ) (e : RefreshError)
      → Refreshes codec p n m q
      → fetch codec a.exchange ≡ fetch_failed e
      → Refreshes codec p (suc n) m (refresh_locked codec q a now).0
  success :
      {n m : ℕ} {q : RemoteProvider} (a : Attempt) (now : ℤ) (keys : List (Text × DecodedKey))
      → Refreshes codec p n m q
      → fetch codec a.exchange ≡ fetched keys
      → Refreshes codec p (suc n) (suc m) (refresh_locked codec q a now).0

-- The two counters are uint64.
pub record IsCounting (p : RemoteProvider) : Type 0 where
  pub generation_fits : p.generation < 2 ^ 64
  pub version_fits : p.refresh_version < 2 ^ 64

-- What is known of state q after n refreshes, m of them with success.
pub record IsAfter (p : RemoteProvider) (n m : ℕ) (q : RemoteProvider) : Type 0 where
  pub successes : m ≤ n
  pub generation : q.generation ≡ (p.generation + m) % 2 ^ 64
  pub version : q.refresh_version ≡ (p.refresh_version + n) % 2 ^ 64
  pub cleared : (q.last_refresh_err ≢ none) ⊎ ((n ≡ 0) ⊎ (1 ≤ m))
  pub kept :
      (1 ≤ m) ⊎ ((q.keys ≡ p.keys) × (q.fetched_at ≡ p.fetched_at) × (q.expires_at ≡ p.expires_at))

module _ (codec : Codec) (q : RemoteProvider) (a : Attempt) (now : ℤ) where
  -- A refresh that fails leaves all but the counters and the last error as it was.
  record IsFailed (e : RefreshError) (r : RemoteProvider) : Type 0 where
    generation : r.generation ≡ q.generation
    version : r.refresh_version ≡ next q.refresh_version
    error_is : r.last_refresh_err ≡ some e
    keys : r.keys ≡ q.keys
    fetched_at : r.fetched_at ≡ q.fetched_at
    expires_at : r.expires_at ≡ q.expires_at

  record IsRenewed (ks : List (Text × DecodedKey)) (r : RemoteProvider) : Type 0 where
    generation : r.generation ≡ next q.generation
    version : r.refresh_version ≡ next q.refresh_version
    keys : r.keys ≡ ks

  refresh-IsFailed :
      (e : RefreshError)
      → fetch codec a.exchange ≡ fetch_failed e
      → IsFailed e (refresh_locked codec q a now).0
  unfolding refresh_locked record_fetch
  refresh-IsFailed e f = rw f (record {
    generation = refl;
    version = refl;
    error_is = refl;
    keys = refl;
    fetched_at = refl;
    expires_at = refl;
  })

  refresh-IsRenewed :
      (ks : List (Text × DecodedKey))
      → fetch codec a.exchange ≡ fetched ks
      → IsRenewed ks (refresh_locked codec q a now).0
  unfolding refresh_locked record_fetch
  refresh-IsRenewed ks f = rw f (record { generation = refl; version = refl; keys = refl })

module _ (codec : Codec) (p : RemoteProvider) (c : IsCounting p) where
  pub Refreshes-IsAfter : (n m : ℕ) (q : RemoteProvider) → Refreshes codec p n m q → IsAfter p n m q
  Refreshes-IsAfter _ _ _ start = record {
    successes = omega arith;
    generation = omega (arith, c.generation_fits);
    version = omega (arith, c.version_fits);
    cleared = inr (inl refl);
    kept = inr (refl, refl, refl);
  }
  Refreshes-IsAfter (suc n) m _ (failure {q = q} a now e r f) =
      let h = Refreshes-IsAfter n m q r in
      let d = refresh-IsFailed codec q a now e f in
      record {
        successes = omega (arith, h.successes);
        generation = d.generation ∙ h.generation;
        version = omega (arith, d.version, h.version);
        cleared = inl (λ x. ground (arith, d.error_is));
        kept = elim h.kept [
          | inl k ↦ inl k
          | inr (k, x, y) ↦ inr (d.keys ∙ k, d.fetched_at ∙ x, d.expires_at ∙ y)
        ];
      }
  Refreshes-IsAfter (suc n) (suc m) _ (success {q = q} a now ks r f) =
      let h = Refreshes-IsAfter n m q r in
      let d = refresh-IsRenewed codec q a now ks f in
      record {
        successes = omega (arith, h.successes);
        generation = omega (arith, d.generation, h.generation);
        version = omega (arith, d.version, h.version);
        cleared = inr (inr (omega arith));
        kept = inl (omega arith);
      }

-- A call of `Key` that waits for the gate shares the outcome of the refreshes that happen since its
-- first snapshot, at least one and fewer than 2^64, unless the last one was canceled by its caller:
-- it makes no fetch and changes nothing, and it answers no error if one of them had success, or
-- else the error of the last one.
pub refresh_shared :
    (codec : Codec) (p q : RemoteProvider) (n m : ℕ) (ctx_ok : Bool) (a : Attempt) (now : ℤ)
    → IsCounting p
    → Refreshes codec p n m q
    → 1 ≤ n
    → n < 2 ^ 64
    → q.last_refresh_canceled_by_caller ≡ false
    → ((1 ≤ m)
        × (refresh_if_unchanged codec q p.generation p.refresh_version none ctx_ok a now
            ≡ (q, none)))
      ⊎ ((e : RefreshError) × (m ≡ 0)
          × (q.last_refresh_err ≡ some e)
          × (refresh_if_unchanged codec q p.generation p.refresh_version none ctx_ok a now
              ≡ (q, some e)))
unfolding refresh_if_unchanged refresh_held
refresh_shared codec p q n m ctx_ok a now c r one few free =
    let h = Refreshes-IsAfter codec p c n m q r in
    elim (Bool-cases (q.generation == p.generation)) [
      | inr k ↦ inl (ground (arith, h.generation, c.generation_fits), ground arith)
      | inl k ↦
          let none_new : m ≡ 0 = ground (arith, h.generation, h.successes, c.generation_fits) in
          elim (Option-cases q.last_refresh_err) [
            | inl x ↦ elim h.cleared [
              | inl y ↦ absurd (y x)
              | inr (inl z) ↦ absurd (omega (arith, z, one))
              | inr (inr z) ↦ absurd (omega (arith, z, none_new))
            ]
            | inr (e, x) ↦ inr (e, none_new, x, ground (arith, h.version, c.version_fits))
          ]
    ]
