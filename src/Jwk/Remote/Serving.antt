-- ===== src/Jwk/Remote/Serving.antt =====
-- What `Key` of the remote provider answers.

use orionis.Base.{
  ◌⊎◌, [], ℕ, ◌≤◌, ◌≡◌, inl, inr, refl, true, ◌&&◌, Option, none, some, arith, Bool-cases,
  Option-cases, is_some,
}
use orionis.Base.Int.{ℤ, ◌+ℤ◌, ◌-ℤ◌, ◌<ℤ◌, ◌≤ℤ◌}
use orionis.Base.Time.{saturate}
use orionis.Text.{Text}
use orionis.Text.Dict.{lookup}
use orionis.Jwk.Key.{Codec, DecodedKey, PublicKey, for_algorithm}
use orionis.Jwk.Static.Serving.{for_algorithm-some}
use orionis.Jwk.Static.{answer, answer_for}
use orionis.Jwk.Remote.{
  RemoteProvider, RefreshError, refresh_if_unchanged, before, stale_in, snapshot, answered, Run,
  run_refresh, last_answer, remote_key, RemoteConfig, new_remote_provider,
}
use orionis.Jwk.Remote.Renewing.{
  Refreshes-append, held_renewed, IsTimed, unfetched, timed, Refreshes-IsTimed,
  Refreshes-IsCounting, new-IsTimed,
}
use orionis.Jwk.Remote.Refreshing.{Refreshes, IsCounting}

-- The states of a run follow each other by refreshes.
pub record IsRun (codec : Codec) (r : Run) : Type 0 where
  pub steps : ℕ
  pub successes : ℕ
  pub waited : Refreshes codec r.first steps successes r.held
  pub later_steps : ℕ
  pub later_successes : ℕ
  pub later : Refreshes codec (run_refresh codec r).0 later_steps later_successes r.last

-- The key `k` is held by state `p`, under `kid`, and fits the algorithm: it names it, unless it names
-- none or none is asked for.
pub record IsHolding (p : RemoteProvider) (kid alg : Text) (k : PublicKey) : Type 0 where
  pub decoded_key : DecodedKey
  pub held : lookup kid p.keys ≡ some decoded_key
  pub fits : for_algorithm decoded_key alg ≡ some k
  pub key_is : decoded_key.public_key ≡ k
  pub named : (decoded_key.declared_alg ≡ []) ⊎ (alg ≡ []) ⊎ (decoded_key.declared_alg ≡ alg)

-- Why a key may be answered: its set is fresh, or a refresh failed and the set is not too old, or the
-- set was renewed since the call began.
pub data IsProvided (codec : Codec) (r : Run) (kid alg : Text) (k : PublicKey) : Type 0 where
  fresh :
      IsHolding r.first kid alg k
      → (t : ℤ) → r.first.fetched_at ≡ some t
      → r.first_time <ℤ (t +ℤ r.first.refresh_interval)
      → IsProvided codec r kid alg k
  stale :
      IsHolding r.last kid alg k
      → (e : RefreshError) → (run_refresh codec r).1 ≡ some e
      → (t : ℤ) → r.last.fetched_at ≡ some t
      → saturate (r.last_time -ℤ t) ≤ℤ r.last.max_stale
      → IsProvided codec r kid alg k
  renewed :
      IsHolding r.last kid alg k
      → (n m : ℕ) → Refreshes codec r.first n m r.last
      → 1 ≤ m
      → IsProvided codec r kid alg k

answered-IsHolding :
    (p : RemoteProvider) (kid alg : Text) (k : PublicKey) (o : Option DecodedKey)
    → lookup kid p.keys ≡ o
    → answer_for o alg ≡ answer k
    → IsHolding p kid alg k
unfolding answer_for
answered-IsHolding p kid alg k none h e = absurd (ground arith)
answered-IsHolding p kid alg k (some d) h e =
    let fits : for_algorithm d alg ≡ some k = elim (Option-cases (for_algorithm d alg)) [
      | inl x ↦ absurd (ground arith)
      | inr (y, x) ↦ ground arith
    ] in
    let (same, named) = for_algorithm-some d alg k fits in
    record { decoded_key = d; held = h; fits = fits; key_is = same; named = named }

fresh_time :
    (p : RemoteProvider) (now : ℤ)
    → IsTimed p
    → before now p.expires_at ≡ true
    → (t : ℤ) × (p.fetched_at ≡ some t) × (now <ℤ (t +ℤ p.refresh_interval))
unfolding before
fresh_time p now (unfetched k f x) e = absurd (ground arith)
fresh_time p now (timed t f x) e = (t, f, ground arith)

stale_time :
    (now max_stale : ℤ) (o : Option ℤ)
    → stale_in now max_stale o ≡ true
    → (t : ℤ) × (o ≡ some t) × (saturate (now -ℤ t) ≤ℤ max_stale)
unfolding stale_in
stale_time now max_stale none e = absurd (ground arith)
stale_time now max_stale (some t) e = (t, refl, ground arith)

module _ (codec : Codec) (r : Run) (kid alg : Text) (k : PublicKey) where
  run_renewed :
      IsRun codec r
      → IsCounting r.first
      → (run_refresh codec r).1 ≡ none
      → (n m : ℕ) × Refreshes codec r.first n m r.last × (1 ≤ m)
  unfolding run_refresh refresh_if_unchanged
  run_renewed v counts e = elim (Option-cases r.lock) [
    | inr (x, l) ↦ absurd (ground arith)
    | inl l ↦
        let (n, m, f, one) =
          held_renewed codec r.first r.held v.steps v.successes r.attempt r.refresh_time r.ctx_ok
            counts v.waited (rw (run_refresh, refresh_if_unchanged, l) at e) in
        let later = rw (run_refresh, refresh_if_unchanged, l) at v.later in
        let (i, j, g, x, y) =
          Refreshes-append codec r.first _ r.last n m v.later_steps v.later_successes f later in
        (i, j, g, omega (arith, one, x))
  ]

  last-IsProvided :
      IsRun codec r
      → IsCounting r.first
      → (o : Option RefreshError) → (run_refresh codec r).1 ≡ o
      → last_answer (snapshot r.last kid r.last_time) alg o ≡ answered (answer k)
      → IsProvided codec r kid alg k
  unfolding last_answer snapshot
  last-IsProvided v counts none f e =
      let (n, m, g, one) = run_renewed v counts f in
      renewed (answered-IsHolding r.last kid alg k _ refl (ground arith)) n m g one
  last-IsProvided v counts (some x) f e =
      let (t, at_time, old) =
        stale_time r.last_time r.last.max_stale r.last.fetched_at (ground arith) in
      stale (answered-IsHolding r.last kid alg k _ refl (ground arith)) x f t at_time old

  remote_key-IsProvided :
      IsRun codec r
      → IsCounting r.first
      → IsTimed r.first
      → remote_key codec r kid alg ≡ answered (answer k)
      → IsProvided codec r kid alg k
  unfolding remote_key snapshot
  remote_key-IsProvided v counts t e =
      elim (Bool-cases
        (is_some (lookup kid r.first.keys) && before r.first_time r.first.expires_at)) [
          | inr x ↦ last-IsProvided v counts _ refl (rw (remote_key, snapshot, x) at e)
          | inl x ↦
              let (s, at_time, young) = fresh_time r.first r.first_time t (ground arith) in
              fresh (answered-IsHolding r.first kid alg k _ refl (ground arith)) s at_time young
        ]

  -- A key that `Key` of a provider answers, at any time and while other calls refresh it too, is one that the provider
  -- holds under the kid, decoded, and that fits the algorithm. Its set is fresh by the first
  -- snapshot; or the refresh failed and the set is at most as old as allowed; or a refresh since the
  -- first snapshot had success.
  pub remote_key_sound :
      {C : Type 0} (cfg : RemoteConfig C) (p : RemoteProvider) (n m : ℕ)
      → new_remote_provider cfg ≡ some p
      → Refreshes codec p n m r.first
      → IsRun codec r
      → remote_key codec r kid alg ≡ answered (answer k)
      → IsProvided codec r kid alg k
  remote_key_sound cfg p n m built before_run v e =
      let (t, c) = new-IsTimed cfg p built in
      remote_key-IsProvided v (Refreshes-IsCounting codec p r.first n m c before_run)
        (Refreshes-IsTimed codec p r.first n m before_run t) e
