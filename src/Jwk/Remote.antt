-- ===== src/Jwk/Remote.antt =====
-- jwk/remote.go: the provider that fetches its keys. Its state is what the mutex protects; `now` and
-- what a fetch meets are arguments. A time that may be the zero time is an `Option`. The HTTP client
-- and the decoding of JSON are the data type `Exchange`.
pub mod Builder
pub mod Refreshing
pub mod Renewing
pub mod Serving
use orionis.Base.{
  ℕ, ◌+◌, ◌%◌, ◌^◌, ◌-◌, ◌≡◌, refl, Bool, true, false, not, ◌&&◌, ◌||◌, Option, none, some, List,
  [], ◌∷◌, ltb, ◌==◌, if◌then◌else◌, is_nil, is_some,
}
use orionis.Base.Int.{ℤ, pos, negsuc, ◌+ℤ◌, ◌-ℤ◌, ltb_ℤ, leb_ℤ}
use orionis.Base.Time.{saturate}
use orionis.Text.{Text, trim_space}
use orionis.Text.Dict.{lookup}
use orionis.Jwk.Key.{Key, DecodedKey, Codec}
use orionis.Jwk.Set.{
  DecodeError, no_keys, missing_kid, duplicate_kid, unsupported_use, incompatible_alg, bad_key,
  DecodeResult, decoded, decode_failed, decode_set,
}
use orionis.Jwk.Static.{KeyAnswer, answer_for}

abbrev pub default_refresh_interval : ℤ
default_refresh_interval = pos 600_000_000_000

abbrev pub default_max_stale : ℤ
default_max_stale = pos 3_600_000_000_000

-- `C` stands for an HTTP client.
pub record RemoteConfig (C : Type 0) : Type 0 where
  pub url : Text
  pub http_client : Option C
  pub refresh_interval : ℤ
  pub max_stale : ℤ

pub data RefreshError : Type 0 where
  bad_request caller_done exchange_failed bad_body no_usable_keys nil_context : RefreshError
  unexpected_status : ℕ → RefreshError
  bad_set : DecodeError → RefreshError

pub record RemoteProvider : Type 0 where
  pub refresh_interval : ℤ
  pub max_stale : ℤ
  pub keys : List (Text × DecodedKey)
  pub expires_at : Option ℤ
  pub fetched_at : Option ℤ
  pub generation : ℕ
  pub refresh_version : ℕ
  pub last_refresh_err : Option RefreshError
  pub last_refresh_canceled_by_caller : Bool

pub record RemoteSnapshot : Type 0 where
  pub key : Option DecodedKey
  pub fresh : Bool
  pub stale_ok : Bool
  pub generation : ℕ
  pub refresh_version : ℕ

-- What a fetch meets: no request can be made, no response (and whether the context is done), or a
-- response with its status and the decoded body, if it decodes.
pub data Exchange : Type 0 where
  no_request : Exchange
  no_response : Bool → Exchange
  answered_with : ℕ → Option (List Key) → Exchange

-- One attempt: the exchange, and behind it whether the context is done and the error is the context's.
pub record Attempt : Type 0 where
  pub exchange : Exchange
  pub ctx_done : Bool
  pub error_is_ctx : Bool

pub data Fetched : Type 0 where
  fetched : List (Text × DecodedKey) → Fetched
  fetch_failed : RefreshError → Fetched

set_error : DecodeError → RefreshError
set_error no_keys = no_usable_keys
set_error missing_kid = bad_set missing_kid
set_error (duplicate_kid kid) = bad_set (duplicate_kid kid)
set_error (unsupported_use kid) = bad_set (unsupported_use kid)
set_error (incompatible_alg kid) = bad_set (incompatible_alg kid)
set_error (bad_key kid) = bad_set (bad_key kid)

fetched_set : DecodeResult → Fetched
fetched_set (decoded keys) = fetched keys
fetched_set (decode_failed e) = fetch_failed (set_error e)

pub fetch_response : Codec → ℕ → Option (List Key) → Fetched
fetch_response codec status body =
    if not (status == 200)
    then fetch_failed (unexpected_status status)
    else elim body [ none ↦ fetch_failed bad_body | some set ↦ fetched_set (decode_set codec set) ]

unfoldable pub fetch : Codec → Exchange → Fetched
unfolding fetch_response fetched_set set_error
fetch codec no_request = fetch_failed bad_request
fetch codec (no_response done) = fetch_failed (if done then caller_done else exchange_failed)
fetch codec (answered_with status body) = fetch_response codec status body

-- The next value of a uint64 counter.
abbrev pub next : ℕ → ℕ
next n = (n + 1) % 2 ^ 64

-- `refreshLocked` behind the fetch.
record_fetch : RemoteProvider → Attempt → ℤ → Fetched → RemoteProvider × Option RefreshError
record_fetch p a now (fetch_failed e) = (
  record p {
    refresh_version = next p.refresh_version;
    last_refresh_err = some e;
    last_refresh_canceled_by_caller = a.ctx_done && a.error_is_ctx;
  },
  some e,
)
record_fetch p a now (fetched keys) = (
  record p {
    refresh_version = next p.refresh_version;
    last_refresh_err = none;
    last_refresh_canceled_by_caller = false;
    keys = keys;
    fetched_at = some now;
    expires_at = some (now +ℤ p.refresh_interval);
    generation = next p.generation;
  },
  none,
)

unfoldable pub refresh_locked :
    Codec → RemoteProvider → Attempt → ℤ → RemoteProvider × Option RefreshError
unfolding record_fetch
refresh_locked codec p a now = record_fetch p a now (fetch codec a.exchange)

-- `Refresh`; `lock` is the error of `lockRefresh`, if any.
unfoldable pub refresh :
    Codec
    → RemoteProvider
    → Option RefreshError
    → Attempt
    → ℤ
    → RemoteProvider × Option RefreshError
refresh codec p (some e) a now = (p, some e)
refresh codec p none a now = refresh_locked codec p a now

-- `ctx_ok` is `ctx.Err() == nil` once the gate is held.
pub refresh_held :
    Codec → RemoteProvider → ℕ → ℕ → Bool → Attempt → ℤ → RemoteProvider × Option RefreshError
refresh_held codec p generation version ctx_ok a now =
    if not (p.generation == generation)
    then (p, none)
    else if not (p.refresh_version == version)
    then (if p.last_refresh_canceled_by_caller && ctx_ok
        then refresh_locked codec p a now
        else (p, p.last_refresh_err))
    else refresh_locked codec p a now

unfoldable pub refresh_if_unchanged :
    Codec
    → RemoteProvider
    → ℕ
    → ℕ
    → Option RefreshError
    → Bool
    → Attempt
    → ℤ
    → RemoteProvider × Option RefreshError
unfolding refresh_held
refresh_if_unchanged codec p generation version (some e) ctx_ok a now = (p, some e)
refresh_if_unchanged codec p generation version none ctx_ok a now =
    refresh_held codec p generation version ctx_ok a now

-- `now.Before(t)`, for a time `now` that is not before the zero time.
before : ℤ → Option ℤ → Bool
before now none = false
before now (some t) = ltb_ℤ now t

stale_in : ℤ → ℤ → Option ℤ → Bool
stale_in now max_stale none = false
stale_in now max_stale (some t) = leb_ℤ (saturate (now -ℤ t)) max_stale

unfoldable pub snapshot : RemoteProvider → Text → ℤ → RemoteSnapshot
unfolding before stale_in
snapshot p kid now = record {
  key = lookup kid p.keys;
  fresh = before now p.expires_at;
  stale_ok = stale_in now p.max_stale p.fetched_at;
  generation = p.generation;
  refresh_version = p.refresh_version;
}

-- What `Key` answers: a key or a refusal, or the error of the refresh.
pub data RemoteAnswer : Type 0 where
  answered : KeyAnswer → RemoteAnswer
  key_failed : RefreshError → RemoteAnswer

-- The states that a call of `Key` meets between the steps of other calls, and the times it reads:
-- at its first snapshot, once the gate is held (or `lock` fails), and at its last snapshot.
pub record Run : Type 0 where
  pub first : RemoteProvider
  pub first_time : ℤ
  pub held : RemoteProvider
  pub lock : Option RefreshError
  pub ctx_ok : Bool
  pub attempt : Attempt
  pub refresh_time : ℤ
  pub last : RemoteProvider
  pub last_time : ℤ

-- The refresh of a run.
unfoldable pub run_refresh : Codec → Run → RemoteProvider × Option RefreshError
run_refresh codec r =
    refresh_if_unchanged codec r.held r.first.generation r.first.refresh_version r.lock r.ctx_ok
      r.attempt r.refresh_time

last_answer : RemoteSnapshot → Text → Option RefreshError → RemoteAnswer
last_answer s alg (some e) =
    if is_some s.key && s.stale_ok then answered (answer_for s.key alg) else key_failed e
last_answer s alg none = answered (answer_for s.key alg)

unfoldable pub remote_key : Codec → Run → Text → Text → RemoteAnswer
unfolding last_answer
remote_key codec r kid alg =
    let s = snapshot r.first kid r.first_time in
    if is_some s.key && s.fresh
    then answered (answer_for s.key alg)
    else last_answer (snapshot r.last kid r.last_time) alg (run_refresh codec r).1

positive_or : ℤ → ℤ → ℤ
positive_or value fallback = if leb_ℤ value (pos 0) then fallback else value

module _ {C : Type 0} where
  -- `none` is the error for an empty URL.
  unfoldable pub new_remote_provider : RemoteConfig C → Option RemoteProvider
  unfolding positive_or
  new_remote_provider cfg =
      if is_nil (trim_space cfg.url)
      then none
      else some (record {
        refresh_interval = positive_or cfg.refresh_interval default_refresh_interval;
        max_stale = positive_or cfg.max_stale default_max_stale;
        keys = [];
        expires_at = none;
        fetched_at = none;
        generation = 0;
        refresh_version = 0;
        last_refresh_err = none;
        last_refresh_canceled_by_caller = false;
      })
