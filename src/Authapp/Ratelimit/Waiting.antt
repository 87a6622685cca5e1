-- ===== src/Authapp/Ratelimit/Waiting.antt =====
-- A client that waits as long as it is told is let pass.
use orionis.Base.{
  ℕ, ◌*◌, ◌≤◌, ◌≡◌, inl, inr, refl, sym, ap, subst, ◌∙◌, true, false, Option, some, arith,
  Bool-cases, if◌then◌else◌,
}
use orionis.Base.Int.{ℤ, pos, negsuc, ◌+ℤ◌, ◌-ℤ◌, ◌≤ℤ◌}
use orionis.Text.{Text}
use orionis.Text.Order.{text_eq_refl}
use orionis.Text.Dict.{lookup, insert, lookup-insert}
use orionis.Text.Entries.{IsMap, insert-IsMap, filter_values-IsMap, passing, lookup-filter_values}
use orionis.Authapp.Ratelimit.{
  RateWindow, FixedWindowRateLimiter, live, sweep_expired, current_window, counted, verdict,
  unlimited, allow, sweep_due,
}
use orionis.Authapp.Security.{retry_after_seconds}

-- int(math.Ceil(d.Seconds())) does not fall short of a duration up to a bound, where no rounding occurs.
abbrev pub IsCeil : ℕ → (ℤ → ℤ) → Type 0
IsCeil bound ceil_seconds =
    (d : ℕ) → d ≤ bound → (n : ℕ) × (ceil_seconds (pos d) ≡ pos n) × (d ≤ n * 1_000_000_000)

sweep-IsMap :
    (l : FixedWindowRateLimiter) (now window : ℤ)
    → IsMap l.windows
    → IsMap (sweep_expired l now window).windows
unfolding sweep_expired
sweep-IsMap l now window m = elim (Bool-cases (sweep_due now l.next_sweep)) [
  | inr e ↦ rw e m
  | inl e ↦ rw e (filter_values-IsMap (live now) l.windows m)
]

-- A window that has ended is replaced, whether it is swept before or not.
current-ended :
    (l : FixedWindowRateLimiter) (key : Text) (now window : ℤ) (w : RateWindow)
    → IsMap l.windows
    → lookup key l.windows ≡ some w
    → w.reset_at ≤ℤ now
    → current_window now window (lookup key (sweep_expired l now window).windows)
      ≡ record { reset_at = now +ℤ window; count = 0 }
unfolding sweep_expired current_window passing live
current-ended l key now window w m f e =
    let dead : live now w ≡ false = ground arith in
    elim (Bool-cases (sweep_due now l.next_sweep)) [
      | inr k ↦ rw k (rw f (rw dead refl))
      | inl k ↦ rw k (rw (lookup-filter_values (live now) l.windows key m) (rw f (rw dead refl)))
    ]

-- The window that a call is counted in.
window_for : FixedWindowRateLimiter → Text → ℤ → ℤ → RateWindow
window_for l key window now =
    counted (current_window now window (lookup key (sweep_expired l now window).windows))

allow-limited :
    (l : FixedWindowRateLimiter) (key : Text) (limit window now : ℤ)
    → unlimited limit window ≡ false
    → allow l key limit window now ≡ (
      record (sweep_expired l now window) {
        windows = insert key (window_for l key window now) (sweep_expired l now window).windows;
      },
      verdict (window_for l key window now) limit now,
    )
unfolding allow window_for
allow-limited l key limit window now u = rw u refl

verdict-refused :
    (w : RateWindow) (limit now : ℤ)
    → (verdict w limit now).ok ≡ false
    → (verdict w limit now).retry_after ≡ w.reset_at -ℤ now
unfolding verdict
verdict-refused w limit now e = ground arith

refused-limited :
    (l : FixedWindowRateLimiter) (key : Text) (limit window now : ℤ)
    → (allow l key limit window now).1.ok ≡ false
    → unlimited limit window ≡ false
unfolding allow
refused-limited l key limit window now e = ground arith

verdict-first :
    (limit now window : ℤ)
    → unlimited limit window ≡ false
    → (verdict (counted (record { reset_at = now +ℤ window; count = 0 })) limit now).ok ≡ true
unfolding verdict counted unlimited
verdict-first limit now window u = ground arith

waits :
    (split_host_port : Text → Option Text) (bound : ℕ) (ceil_seconds : ℤ → ℤ) (d : ℤ) (n : ℕ)
    → IsCeil bound ceil_seconds
    → d ≤ℤ pos bound
    → retry_after_seconds split_host_port ceil_seconds d ≡ pos n
    → d ≤ℤ pos (n * 1_000_000_000)
unfolding retry_after_seconds
waits split_host_port bound ceil_seconds (pos d) n c b e =
    let (k, f, g) = c d (ground arith) in ground (arith, f)
waits split_host_port bound ceil_seconds (negsuc d) n c b e = ground arith

ended : (r now later d : ℤ) (k : ℕ) → d ≡ r -ℤ now → d ≤ℤ pos k → now +ℤ pos k ≤ℤ later → r ≤ℤ later
unfolding ◌+ℤ◌ ◌-ℤ◌
ended r now later d k e h t = ground arith

-- A client that is refused, and asks again no sooner than after the seconds that it is told, is let pass,
-- if no other request with its key came between, and the time to wait is within the bound up to which the
-- rounding in floating point does not fall short.
pub retry_after-passes :
    (split_host_port : Text → Option Text) (bound : ℕ) (ceil_seconds : ℤ → ℤ)
    (l : FixedWindowRateLimiter) (key : Text) (limit window now later : ℤ) (n : ℕ)
    → IsCeil bound ceil_seconds
    → IsMap l.windows
    → (allow l key limit window now).1.ok ≡ false
    → (allow l key limit window now).1.retry_after ≤ℤ pos bound
    → retry_after_seconds split_host_port ceil_seconds (allow l key limit window now).1.retry_after
      ≡ pos n
    → now +ℤ pos (n * 1_000_000_000) ≤ℤ later
    → (allow (allow l key limit window now).0 key limit window later).1.ok ≡ true
unfolding window_for
retry_after-passes split_host_port bound ceil_seconds l key limit window now later n c m e b r t =
    let u = refused-limited l key limit window now e in
    let w = window_for l key window now in
    let first = allow-limited l key limit window now u in
    let after = (allow l key limit window now).0 in
    let second = allow-limited after key limit window later u in
    let found : lookup key after.windows ≡ some w =
      ap (λ x. lookup key x.0.windows) first
      ∙ lookup-insert key key w (sweep_expired l now window).windows
      ∙ ap (λ y. if y then some w else lookup key (sweep_expired l now window).windows)
          (text_eq_refl key) in
    let wait : (allow l key limit window now).1.retry_after ≡ w.reset_at -ℤ now =
      ap (λ x. x.1.retry_after) first
      ∙ verdict-refused w limit now (ap (λ x. x.1.ok) (sym first) ∙ e) in
    let is_map : IsMap after.windows =
      subst (λ x. IsMap x.0.windows) (sym first)
        (insert-IsMap key w _ (sweep-IsMap l now window m)) in
    let long =
      waits split_host_port bound ceil_seconds (allow l key limit window now).1.retry_after n c b
        r in
    let over : w.reset_at ≤ℤ later = ended w.reset_at now later _ (n * 1_000_000_000) wait long t in
    ap (λ x. x.1.ok) second
    ∙ ap (λ x. (verdict (counted x) limit later).ok)
        (current-ended after key later window w is_map found over)
    ∙ verdict-first limit later window u
