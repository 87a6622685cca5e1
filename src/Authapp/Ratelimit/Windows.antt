-- ===== src/Authapp/Ratelimit/Windows.antt =====
-- The limiter against one window for each key: sweeps and the requests of other keys change no answer.
pub mod Bound
use mathlib.Core.Path.{subst}
use orionis.Base.{
  ℕ, suc, ◌+◌, ◌≤◌, ◌≡◌, ◌⊎◌, inl, inr, refl, sym, ap, ◌∙◌, Bool, true, false, not, ◌||◌, Option,
  none, some, List, [], ◌∷◌, arith, Bool-cases, Option-cases, if◌then◌else◌,
}
use orionis.Base.Int.{ℤ, pos, ◌+ℤ◌, ◌-ℤ◌, ◌≤ℤ◌, ltb_ℤ, leb_ℤ}
use orionis.Text.{Text, text_eq}
use orionis.Text.Order.{text_eq_iff}
use orionis.Text.Dict.{lookup, insert, lookup-insert, filter_values}
use orionis.Text.Entries.{IsMap, insert-IsMap, filter_values-IsMap, passing, lookup-filter_values}
use orionis.Authapp.Ratelimit.{
  RateWindow, FixedWindowRateLimiter, Allowed, new_fixed_window_rate_limiter, sweep_due, live,
  sweep_expired, current_window, counted, verdict, unlimited, allow,
}

-- A call of `allow`, with the time that it reads.
pub record Call : Type 0 where
  pub key : Text
  pub limit : ℤ
  pub window : ℤ
  pub now : ℤ

-- The answers of the limiter to calls, one after the other.
unfoldable pub run : FixedWindowRateLimiter → List Call → List Allowed
run l [] = []
run l (c ∷ calls) =
    (allow l c.key c.limit c.window c.now).1 ∷ run (allow l c.key c.limit c.window c.now).0 calls

-- The window that a call is counted in, and the answer, by the last window of its key alone.
pub entered : Call → Option RateWindow → RateWindow
entered c o = counted (current_window c.now c.window o)

pub own_answer : Call → Option RateWindow → Allowed
own_answer c o =
    if unlimited c.limit c.window
    then record { ok = true; retry_after = pos 0 }
    else verdict (entered c o) c.limit c.now

pub own_step : Call → (Text → Option RateWindow) → Text → Option RateWindow
own_step c f j =
    if unlimited c.limit c.window
    then f j
    else if text_eq c.key j
    then some (entered c (f c.key))
    else f j

-- The answers if each key has a window of its own, which is never swept.
pub own_run : (Text → Option RateWindow) → List Call → List Allowed
unfolding own_step own_answer entered
own_run f [] = []
own_run f (c ∷ calls) = own_answer c (f c.key) ∷ own_run (own_step c f) calls

-- The times do not go back, from `now` on.
abbrev pub IsOrdered : ℤ → List Call → Type 0
IsOrdered now [] = Unit {0}
IsOrdered now (c ∷ calls) = (now ≤ℤ c.now) × IsOrdered c.now calls

record IsShadow (now : ℤ) (l : FixedWindowRateLimiter) (f : Text → Option RateWindow) : Type 0 where
  is_map : IsMap l.windows
  same : (j : Text) → passing (live now) (lookup j l.windows) ≡ passing (live now) (f j)

passing_later :
    (t u : ℤ) (o : Option RateWindow)
    → t ≤ℤ u
    → passing (live u) (passing (live t) o) ≡ passing (live u) o
unfolding passing live
passing_later t u none h = refl
passing_later t u (some w) h = ground arith

current-passing :
    (now window : ℤ) (o : Option RateWindow)
    → current_window now window (passing (live now) o) ≡ current_window now window o
unfolding passing current_window
current-passing now window none = refl
current-passing now window (some w) = elim (Bool-cases (live now w)) [
  | inl e ↦ ground arith
  | inr e ↦ ground arith
]

IsShadow-later :
    (t u : ℤ) (l : FixedWindowRateLimiter) (f : Text → Option RateWindow)
    → t ≤ℤ u
    → IsShadow t l f
    → IsShadow u l f
IsShadow-later t u l f h s = record {
  is_map = s.is_map;
  same = λ j.
      sym (passing_later t u (lookup j l.windows) h)
      ∙ ap (passing (live u)) (s.same j)
      ∙ passing_later t u (f j) h;
}

sweep-IsShadow :
    (now window : ℤ) (l : FixedWindowRateLimiter) (f : Text → Option RateWindow)
    → IsShadow now l f
    → IsShadow now (sweep_expired l now window) f
unfolding sweep_expired
sweep-IsShadow now window l f s = elim (Bool-cases (sweep_due now l.next_sweep)) [
  | inr e ↦ rw (e) s
  | inl e ↦ rw (e) (record {
    is_map = filter_values-IsMap (live now) l.windows s.is_map;
    same = λ j.
        ap (passing (live now)) (lookup-filter_values (live now) l.windows j s.is_map)
        ∙ passing_later now now (lookup j l.windows) (omega arith)
        ∙ s.same j;
  })
]

module _ (c : Call) (l : FixedWindowRateLimiter) (f : Text → Option RateWindow)
    (s : IsShadow c.now l f) where
  swept : IsShadow c.now (sweep_expired l c.now c.window) f
  swept = sweep-IsShadow c.now c.window l f s

  entered_same :
      entered c (lookup c.key (sweep_expired l c.now c.window).windows) ≡ entered c (f c.key)
  unfolding entered
  entered_same = ap counted (
      sym (current-passing c.now c.window (lookup c.key (sweep_expired l c.now c.window).windows))
      ∙ ap (current_window c.now c.window) (swept.same c.key)
      ∙ current-passing c.now c.window (f c.key))

  answer_same : (allow l c.key c.limit c.window c.now).1 ≡ own_answer c (f c.key)
  unfolding allow own_answer entered
  answer_same = elim (Bool-cases (unlimited c.limit c.window)) [
    | inl e ↦ rw (e) refl
    | inr e ↦ rw (e) (ap (λ w. verdict w c.limit c.now) (entered_same))
  ]

  step-IsMap : IsMap (allow l c.key c.limit c.window c.now).0.windows
  unfolding allow
  step-IsMap = elim (Bool-cases (unlimited c.limit c.window)) [
    | inl e ↦ rw (e) s.is_map
    | inr e ↦ rw (e) (insert-IsMap c.key _ _ swept.is_map)
  ]

  same_entry :
      (j : Text)
      → passing (live c.now) (
          if text_eq c.key j
          then some (entered c (lookup c.key (sweep_expired l c.now c.window).windows))
          else lookup j (sweep_expired l c.now c.window).windows)
        ≡ passing (live c.now) (if text_eq c.key j then some (entered c (f c.key)) else f j)
  same_entry j = elim (Bool-cases (text_eq c.key j)) [
    | inl k ↦ rw (k) (ap (λ w. passing (live c.now) (some w)) entered_same)
    | inr k ↦ rw (k) (swept.same j)
  ]

  step_same :
      (j : Text)
      → passing (live c.now) (lookup j (allow l c.key c.limit c.window c.now).0.windows)
        ≡ passing (live c.now) (own_step c f j)
  unfolding allow own_step entered
  step_same j = elim (Bool-cases (unlimited c.limit c.window)) [
    | inl e ↦ rw (e) (s.same j)
    | inr e ↦ rw (e) (
        ap (passing (live c.now)) (
          lookup-insert c.key j (entered c (lookup c.key (sweep_expired l c.now c.window).windows))
            (sweep_expired l c.now c.window).windows)
        ∙ same_entry j)
  ]

  step-IsShadow : IsShadow c.now (allow l c.key c.limit c.window c.now).0 (own_step c f)
  step-IsShadow = record { is_map = step-IsMap; same = step_same }

run_shadow :
    (calls : List Call) (now : ℤ) (l : FixedWindowRateLimiter) (f : Text → Option RateWindow)
    → IsShadow now l f
    → IsOrdered now calls
    → run l calls ≡ own_run f calls
unfolding run own_run
run_shadow [] now l f s o = refl
run_shadow (c ∷ calls) now l f s (h, o) =
    let later = IsShadow-later now c.now l f h s in
    ap (λ a. a ∷ run (allow l c.key c.limit c.window c.now).0 calls) (answer_same c l f later)
    ∙ ap (λ r. own_answer c (f c.key) ∷ r)
        (run_shadow calls c.now (allow l c.key c.limit c.window c.now).0 (own_step c f)
          (step-IsShadow c l f later) o)

-- A new limiter answers calls whose times do not go back as if each key had a window of its own that
-- is never swept: the calls of other keys and the sweeps change no answer.
pub run-own_run :
    (calls : List Call) (now : ℤ)
    → IsOrdered now calls
    → run new_fixed_window_rate_limiter calls ≡ own_run (λ k. none) calls
unfolding new_fixed_window_rate_limiter lookup
run-own_run calls now o =
    run_shadow calls now new_fixed_window_rate_limiter (λ k. none)
      (record { is_map = tt; same = λ j. refl }) o
