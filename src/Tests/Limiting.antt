-- ===== src/Tests/Limiting.antt =====
-- Three calls of one key, of which two may pass, and one call of another key.
use orionis.Base.{◌≡◌, none, List, [], ◌∷◌, arith}
use orionis.Base.Int.{pos}
use orionis.Text.{codes}
use orionis.Authapp.Ratelimit.{new_fixed_window_rate_limiter}
use orionis.Authapp.Ratelimit.Windows.{Call, run, own_run, IsOrdered, run-own_run}

abbrev first : Call
first = record { key = codes "a"; limit = pos 2; window = pos 10; now = pos 1 }

abbrev calls : List Call
calls =
    record first { now = pos 2 }
    ∷ record first { key = codes "b"; now = pos 3 }
    ∷ record first { now = pos 4 }
    ∷ []

ordered : IsOrdered (pos 1) (first ∷ calls)
ordered = (omega arith, (omega arith, (omega arith, (omega arith, tt))))

run-own_run_example :
    run new_fixed_window_rate_limiter (first ∷ calls) ≡ own_run (λ k. none) (first ∷ calls)
run-own_run_example = run-own_run (first ∷ calls) (pos 1) ordered
