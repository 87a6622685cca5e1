-- ===== src/Tests/Sharing.antt =====
-- Two callers that ask for one token at a time: the first starts the call, the second joins it.
use orionis.Base.{ℕ, ◌≤◌, ◌≡◌, ◌⊎◌, refl, false, some, arith}
use orionis.Base.Int.{ℤ, pos, ◌-ℤ◌}
use orionis.Text.{codes, text_eq}
use orionis.Token.{TokenResponse}
use orionis.Client.Requests.{Outcome, got}
use orionis.Client.Tokens.{CachedToken, TokenCacheKey, same_key, fresh_at}
use orionis.Client.Cache.{purge_stale, join_or_start, join_with, finish_call, hit}
use orionis.Client.Cache.Flight.{
  System, look_up, enter, found, joined, answer, live, acted, look, join, receive, finish, Reach,
  here, next,
}
use orionis.Client.Cache.Sharing.{IsLive, IsFetched}
use orionis.Client.Cache.Ending.Steps.{steps, steps_bounded}
use orionis.Client.Cache.Progress.{
  beginning, one_request, call_of_waiting, served-IsFetched, waiting_answered,
}

abbrev pub key : TokenCacheKey
key = record { audience = codes "orders"; scope = codes "read" }

abbrev pub response : TokenResponse
response = record {
  access_token = codes "abc";
  token_type = codes "Bearer";
  expires_in = pos 300;
  scope = codes "read";
}

abbrev pub fresh : CachedToken
fresh = record { response = response; expires_at = pos 301_000_000_000 }

abbrev skew : ℤ
skew = pos 60_000_000_000

abbrev pub start : System
start = beginning skew

abbrev missed_once : System
missed_once = acted start 0 (look_up start.provider key (pos 1))

abbrev waiting_once : System
waiting_once = acted missed_once 0 (enter missed_once.provider live key (pos 2))

abbrev missed_twice : System
missed_twice = acted waiting_once 1 (look_up waiting_once.provider key (pos 3))

abbrev both_wait : System
both_wait = acted missed_twice 1 (enter missed_twice.provider live key (pos 4))

abbrev pub done : System
done = record both_wait { provider = finish_call both_wait.provider 0 (got fresh) }

abbrev first_served : System
first_served = acted done 0 (done.provider, answer key (got fresh))

-- What a run of the callers computes with.
run : ℕ → ℕ
unfolding look_up enter found joined answer purge_stale join_or_start join_with finish_call same_key
    text_eq fresh_at
run n = n

both_reached : Reach 2 start both_wait
unfolding run
both_reached =
    next
      (next
        (next (next here (look 0 key (pos 1) (omega arith) refl refl))
          (join 0 key live (pos 2) (omega arith) refl refl))
        (look 1 key (pos 3) (omega arith) refl refl))
      (join 1 key live (pos 4) (omega arith) refl refl)

pub done_reached : Reach 2 start done
unfolding run
done_reached = next both_reached (finish 0 (got fresh) (omega arith) refl refl)

served_reached : Reach 2 start first_served
unfolding run
served_reached = next done_reached (receive 0 key 0 (got fresh) (omega arith) refl refl refl)

call_runs : IsLive both_wait.provider 0
unfolding run
call_runs = record { known = omega arith; running = refl; kept = refl }

one_request_example : ◌≡◌ {A = ℕ} 0 0
one_request_example = one_request 2 skew both_wait both_reached 0 0 call_runs call_runs refl

call_of_waiting_example :
    ((both_wait.provider.calls 0).key ≡ key)
    × ((both_wait.provider.calls 0).abandoned ≡ false)
    × (((o : Outcome) × ((both_wait.provider.calls 0).outcome ≡ some o))
        ⊎ ((both_wait.provider.inflight key ≡ some 0)
            × ((both_wait.provider.calls 0).canceled ≡ false)))
unfolding run
call_of_waiting_example = call_of_waiting 2 skew both_wait both_reached 1 key 0 (omega arith) refl

served-IsFetched_example : IsFetched first_served.provider key fresh
unfolding run
served-IsFetched_example =
    served-IsFetched 2 skew first_served served_reached 0 key fresh (omega arith) refl

waiting_answered_example :
    (a : Outcome) × (v : System) × Reach 2 both_wait v
    × (v.callers 1 ≡ answer key a)
    × (((both_wait.provider.calls 0).outcome ≡ some a) ⊎ (a ≡ got fresh))
unfolding run
waiting_answered_example =
    waiting_answered 2 skew both_wait both_reached 1 key 0 (got fresh) (omega arith) refl

pub done_hits : (join_or_start done.provider key (pos 2_000_000_000)).1 ≡ hit fresh
unfolding run ◌-ℤ◌
done_hits = refl

steps_bounded_example : steps both_reached ≤ 12
steps_bounded_example = steps_bounded 2 skew both_wait both_reached
