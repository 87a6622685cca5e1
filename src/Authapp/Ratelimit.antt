-- ===== src/Authapp/Ratelimit.antt =====
-- internal/authapp/ratelimit.go: the limit on requests, in fixed windows of time. A call of `allow`
-- holds the lock from its sweep to its end, and is one step; `now` is the time that it reads before.
-- A window that is stored has a reset time that is not the zero time.
pub mod Windows
pub mod Waiting
use orionis.Base.{
  ℕ, suc, ◌+◌, ◌≡◌, refl, Bool, true, false, not, ◌&&◌, ◌||◌, Option, none, some, List, [], ◌∷◌,
  if◌then◌else◌,
}
use orionis.Base.Int.{ℤ, pos, ◌+ℤ◌, ◌-ℤ◌, ltb_ℤ, leb_ℤ}
use orionis.Text.{Text}
use orionis.Text.Dict.{lookup, insert, filter_values}

pub record RateWindow : Type 0 where
  pub reset_at : ℤ
  pub count : ℕ

pub record FixedWindowRateLimiter : Type 0 where
  pub windows : List (Text × RateWindow)
  pub next_sweep : Option ℤ

-- Whether a request may pass, and else for how long to wait.
pub record Allowed : Type 0 where
  pub ok : Bool
  pub retry_after : ℤ

abbrev pub max_limiter_sweep_interval : ℤ
max_limiter_sweep_interval = pos 60_000_000_000

unfoldable pub new_fixed_window_rate_limiter : FixedWindowRateLimiter
new_fixed_window_rate_limiter = record { windows = []; next_sweep = none }

sweep_due : ℤ → Option ℤ → Bool
sweep_due now none = true
sweep_due now (some t) = not (ltb_ℤ now t)

-- The window has not ended.
unfoldable pub live : ℤ → RateWindow → Bool
live now w = ltb_ℤ now w.reset_at

unfoldable pub sweep_expired : FixedWindowRateLimiter → ℤ → ℤ → FixedWindowRateLimiter
unfolding sweep_due live
sweep_expired l now window = if not (sweep_due now l.next_sweep) then l else record {
  windows = filter_values (live now) l.windows;
  next_sweep = some (
      now
      +ℤ (if ltb_ℤ window max_limiter_sweep_interval then window else max_limiter_sweep_interval));
}

-- The window that a request falls in, before it is counted.
unfoldable pub current_window : ℤ → ℤ → Option RateWindow → RateWindow
current_window now window none = record { reset_at = now +ℤ window; count = 0 }
current_window now window (some w) =
    if not (live now w) then record { reset_at = now +ℤ window; count = 0 } else w

unfoldable pub counted : RateWindow → RateWindow
counted w = record w { count = suc w.count }

unfoldable pub verdict : RateWindow → ℤ → ℤ → Allowed
verdict w limit now =
    if leb_ℤ (pos w.count) limit
    then record { ok = true; retry_after = pos 0 }
    else record { ok = false; retry_after = w.reset_at -ℤ now }

unfoldable pub unlimited : ℤ → ℤ → Bool
unlimited limit window = leb_ℤ limit (pos 0) || leb_ℤ window (pos 0)

unfoldable pub allow : FixedWindowRateLimiter → Text → ℤ → ℤ → ℤ → FixedWindowRateLimiter × Allowed
unfolding current_window counted verdict unlimited
allow l key limit window now =
    if unlimited limit window
    then (l, record { ok = true; retry_after = pos 0 })
    else let swept = sweep_expired l now window in
      let current = counted (current_window now window (lookup key swept.windows)) in
      (record swept { windows = insert key current swept.windows }, verdict current limit now)
