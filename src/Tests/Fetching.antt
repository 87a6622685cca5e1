-- ===== src/Tests/Fetching.antt =====
-- A remote provider that fetches one key.
use orionis.Base.{◌≡◌, ◌⊎◌, refl, ℕ, ◌≤◌, true, false, some, none, [], arith}
use orionis.Base.Int.{pos, ◌+ℤ◌, ◌-ℤ◌}
use orionis.Text.{Text, codes}
use orionis.Jwk.Key.{ed25519, for_algorithm}
use orionis.Jwk.Static.{answer_for}
use orionis.Jwk.Remote.{
  RemoteConfig, RemoteProvider, Attempt, answered_with, no_request, fetch, refresh_locked,
  refresh_if_unchanged, RefreshError, bad_request, new_remote_provider, Run, run_refresh, snapshot,
  remote_key,
}
use orionis.Jwk.Remote.Refreshing.{Refreshes, start, failure, success, IsCounting, refresh_shared}
use orionis.Jwk.Remote.Serving.{IsRun, IsProvided, remote_key_sound}
use orionis.Tests.Keys.{plain_codec, keys, held, bytes, run}

abbrev config : RemoteConfig ℕ
config = record {
  url = codes " https://auth/jwks";
  http_client = none;
  refresh_interval = pos 100;
  max_stale = pos 300;
}

abbrev empty_provider : RemoteProvider
empty_provider = record {
  refresh_interval = pos 100;
  max_stale = pos 300;
  keys = [];
  expires_at = none;
  fetched_at = none;
  generation = 0;
  refresh_version = 0;
  last_refresh_err = none;
  last_refresh_canceled_by_caller = false;
}

abbrev good : Attempt
good = record { exchange = answered_with 200 (some keys); ctx_done = false; error_is_ctx = false }

abbrev bad : Attempt
bad = record { exchange = no_request; ctx_done = false; error_is_ctx = false }

abbrev full_provider : RemoteProvider
full_provider = record empty_provider {
  keys = held;
  expires_at = some (pos 110);
  fetched_at = some (pos 10);
  generation = 1;
  refresh_version = 1;
}

-- The call meets the provider with its key, later than the key is fresh; its refresh fails.
abbrev late_run : Run
late_run = record {
  first = full_provider;
  first_time = pos 200;
  held = full_provider;
  lock = none;
  ctx_ok = true;
  attempt = bad;
  refresh_time = pos 201;
  last = record full_provider { refresh_version = 2; last_refresh_err = some bad_request };
  last_time = pos 202;
}

-- What a run of the provider computes with.
fetch_run : Text → Text
unfolding run ◌+ℤ◌ ◌-ℤ◌ fetch refresh_locked refresh_if_unchanged new_remote_provider snapshot
    run_refresh remote_key answer_for for_algorithm
fetch_run s = s

full_reached : Refreshes plain_codec empty_provider 1 1 full_provider
unfolding fetch_run
full_reached = success good (pos 10) held start refl

late_run-IsRun : IsRun plain_codec late_run
unfolding fetch_run
late_run-IsRun = record {
  steps = 0;
  successes = 0;
  waited = start;
  later_steps = 0;
  later_successes = 0;
  later = start;
}

remote_key_sound_example :
    IsProvided plain_codec late_run (codes "k1") (codes "EdDSA") (ed25519 bytes)
unfolding fetch_run
remote_key_sound_example =
    remote_key_sound plain_codec late_run (codes "k1") (codes "EdDSA") (ed25519 bytes) config
      empty_provider 1 1 refl full_reached late_run-IsRun refl

empty-IsCounting : IsCounting empty_provider
empty-IsCounting = record { generation_fits = omega arith; version_fits = omega arith }

abbrev failed_provider : RemoteProvider
failed_provider = record empty_provider { refresh_version = 1; last_refresh_err = some bad_request }

failed_reached : Refreshes plain_codec empty_provider 1 0 failed_provider
unfolding fetch_run
failed_reached = failure bad (pos 10) bad_request start refl

abbrev successes : ℕ
successes = 0

refresh_shared_example :
    ((1 ≤ successes)
      × (refresh_if_unchanged plain_codec failed_provider 0 0 none true good (pos 11)
          ≡ (failed_provider, none)))
    ⊎ ((e : RefreshError) × (successes ≡ 0)
        × (failed_provider.last_refresh_err ≡ some e)
        × (refresh_if_unchanged plain_codec failed_provider 0 0 none true good (pos 11)
            ≡ (failed_provider, some e)))
refresh_shared_example =
    refresh_shared plain_codec empty_provider failed_provider 1 0 true good (pos 11)
      empty-IsCounting failed_reached (omega arith) (omega arith) refl
