-- ===== src/Authapp/Ratelimit/Windows/Bound.antt =====
-- How many requests of a key pass in one window.
use mathlib.Core.Path.{subst}
use orionis.Base.{
  ℕ, suc, ◌-◌, ◌≤◌, ◌≡◌, ◌≢◌, ◌⊎◌, inl, inr, refl, sym, ap, ◌∙◌, true, false, ◌&&◌, Option, none,
  some, List, [], ◌∷◌, arith, Bool-cases, All, if◌then◌else◌, leb,
}
use orionis.Base.Int.{ℤ, pos, ◌+ℤ◌, ◌<ℤ◌}
use orionis.Text.{Text, text_eq}
use orionis.Text.Order.{text_eq_iff}
use orionis.Authapp.Ratelimit.{
  RateWindow, Allowed, new_fixed_window_rate_limiter, live, current_window, counted, verdict,
  unlimited,
}
use orionis.Authapp.Ratelimit.Windows.{
  Call, run, entered, own_answer, own_step, own_run, IsOrdered, run-own_run,
}

-- The number of calls of a key that are answered with true.
unfoldable pub passes : Text → List Call → List Allowed → ℕ
passes key [] answers = 0
passes key (c ∷ calls) [] = 0
passes key (c ∷ calls) (a ∷ answers) =
    let rest = passes key calls answers in if text_eq c.key key && a.ok then suc rest else rest

-- The calls of a key have one limit and one window, and come before its end.
pub record IsInWindow (key : Text) (limit : ℕ) (window end : ℤ) (c : Call) : Type 0 where
  pub limit_is : c.limit ≡ pos limit
  pub window_is : c.window ≡ window
  pub in_time : c.now <ℤ end

-- A call is of another key or in the window.
abbrev pub IsCounted : Text → ℕ → ℤ → ℤ → Call → Type 0
IsCounted key limit window end c = (c.key ≢ key) ⊎ IsInWindow key limit window end c

module _ (key : Text) (limit : ℕ) (window end : ℤ) (limited : 1 ≤ limit)
    (open_window : pos 0 <ℤ window) where
  is_limited : (c : Call) → IsInWindow key limit window end c → unlimited c.limit c.window ≡ false
  unfolding unlimited
  is_limited c h = rw (h.limit_is, h.window_is) (ground arith)

  entered_live :
      (c : Call) (w : RateWindow)
      → w.reset_at ≡ end
      → IsInWindow key limit window end c
      → entered c (some w) ≡ counted w
  unfolding entered current_window live
  entered_live c w r h = let l : live c.now w ≡ true = ground (arith, h.in_time, r) in rw (l) refl

  step_other :
      (c : Call) (f : Text → Option RateWindow)
      → text_eq c.key key ≡ false
      → own_step c f key ≡ f key
  unfolding own_step
  step_other c f e = ground arith

  module _ (c : Call) (f : Text → Option RateWindow) (w : RateWindow) (k : f key ≡ some w)
      (r : w.reset_at ≡ end) (e : c.key ≡ key) (h : IsInWindow key limit window end c) where
    entered_key : entered c (f c.key) ≡ counted w
    entered_key = ap (λ x. entered c (f x)) e ∙ ap (entered c) k ∙ entered_live c w r h

    step_key : own_step c f key ≡ some (counted w)
    unfolding own_step
    step_key = rw (is_limited c h, (text_eq_iff c.key key).1 e) (ap some entered_key)

    answer_key : (own_answer c (f c.key)).ok ≡ leb (suc w.count) limit
    unfolding own_answer verdict counted
    answer_key = rw (is_limited c h) (
        ap (λ x. (verdict x c.limit c.now).ok) entered_key
        ∙ ap (λ x. (verdict (counted w) x c.now).ok) h.limit_is
        ∙ ground arith)

  own_passes :
      (calls : List Call) (f : Text → Option RateWindow) (w : RateWindow)
      → f key ≡ some w
      → w.reset_at ≡ end
      → All (IsCounted key limit window end) calls
      → passes key calls (own_run f calls) ≤ limit - w.count
  unfolding passes own_run counted
  own_passes [] f w k r h = omega arith
  own_passes (c ∷ calls) f w k r (h, hs) = elim (Bool-cases (text_eq c.key key)) [
    | inr e ↦ rw (e) (own_passes calls (own_step c f) w (step_other c f e ∙ k) r hs)
    | inl e ↦
        let same = (text_eq_iff c.key key).0 e in
        elim h [
          | inl n ↦ absurd (n same)
          | inr x ↦
              let ih =
                own_passes calls (own_step c f) (counted w) (step_key c f w k r same x) r hs in
              ground (arith, ih, e, answer_key c f w k r same x)
        ]
  ]

module _ (c : Call) (limit : ℕ) (limited : 1 ≤ limit) (given : c.limit ≡ pos limit)
    (open_window : pos 0 <ℤ c.window) where
  abbrev first_window : RateWindow
  first_window = record { reset_at = c.now +ℤ c.window; count = 1 }

  limits : unlimited c.limit c.window ≡ false
  unfolding unlimited
  limits = rw (given) (ground arith)

  first_step : own_step c (λ k. none) c.key ≡ some first_window
  unfolding own_step entered current_window counted
  first_step = rw (limits, (text_eq_iff c.key c.key).1 refl) refl

  -- Of the calls of a key that begin with the first call of a new limiter and come before the end of
  -- its window, at most as many pass as the limit allows, whatever calls of other keys come between,
  -- if the limit and the window are positive, the same for all of them, and the times do not go back.
  pub passes-run :
      (calls : List Call)
      → IsOrdered c.now (c ∷ calls)
      → All (IsCounted c.key limit c.window (c.now +ℤ c.window)) calls
      → passes c.key (c ∷ calls) (run new_fixed_window_rate_limiter (c ∷ calls)) ≤ limit
  unfolding passes own_run
  passes-run calls o h =
      let rest =
        own_passes c.key limit c.window (c.now +ℤ c.window) limited open_window calls
          (own_step c (λ k. none)) first_window first_step refl h in
      let all : passes c.key (c ∷ calls) (own_run (λ k. none) (c ∷ calls)) ≤ limit =
        ground (arith, rest, limited) in
      subst (λ a. passes c.key (c ∷ calls) a ≤ limit) (sym (run-own_run (c ∷ calls) c.now o)) all
