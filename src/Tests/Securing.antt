-- ===== src/Tests/Securing.antt =====
-- Requests to an application that lets one request pass in a minute.
use orionis.Base.{ℕ, ◌≡◌, ◌≤◌, refl, inr, true, Option, none, some, [], ◌∷◌, arith, is_nil}
use orionis.Base.Int.{ℤ, pos, ◌+ℤ◌, ◌-ℤ◌}
use orionis.Text.{Text, codes, text_eq}
use orionis.Text.Dict.{lookup, insert, filter_values}
use orionis.Server.Http.{Request, health_http, write_json}
use orionis.Tests.Issuing.{environment}
use orionis.Authapp.Ratelimit.{
  new_fixed_window_rate_limiter, allow, sweep_expired, live, FixedWindowRateLimiter,
}
use orionis.Authapp.Ratelimit.Waiting.{IsCeil, retry_after-passes}
use orionis.Authapp.Runtime.{EffectiveRateLimit}
use orionis.Authapp.Security.{
  replied, Served, safe_audit_client_id, entry_of, audit_outcome, written_status, entries_for,
  status_of, request_path, remote_ip_from_request, limiter_key, reply_of, RuntimeSecurity, handlers,
  run_chain, retry_after_seconds,
}
use orionis.Authapp.Security.Auditing.{run_chain-handlers, asked, answer_by}
use orionis.Authapp.Security.Entries.{IsAudited}
use orionis.Authapp.Security.Limiting.{
  token_endpoint, Asked, serve_all, reached, ip_of, reached-serve_all,
}

abbrev split : Text → Option Text
split addr = some (codes "10.0.0.1")

-- A ceiling for durations of up to a minute.
abbrev ceil : ℤ → ℤ
ceil d = pos 60

ceil-IsCeil : IsCeil 60_000_000_000 ceil
ceil-IsCeil d h = (60, refl, h)

abbrev one : EffectiveRateLimit
one = record { enabled = true; limit = pos 1; window = pos 60_000_000_000 }

abbrev request : Request
request = record { method = codes "POST"; parse_form = λ n. none; basic_auth = none }

abbrev at : ℤ → Asked
at now = record {
  endpoint = token_endpoint;
  incoming = record {
    request = request;
    environment = environment;
    full_path = codes "/oauth/token";
    url_path = codes "/oauth/token";
    remote_addr = codes "10.0.0.1:4711";
    posted = none;
    now = now;
    elapsed = 0;
  };
}

-- A limiter whose window is full.
abbrev full : FixedWindowRateLimiter
full = record {
  windows = (codes "token|a", record { reset_at = pos 60_000_000_000; count = 1 }) ∷ [];
  next_sweep = some (pos 60_000_000_000);
}

abbrev security : RuntimeSecurity
security = record { limiter = new_fixed_window_rate_limiter; audit_enabled = true }

abbrev served : Served
served = record {
  limiter = record {
    windows = (codes "token|10.0.0.1", record { reset_at = pos 60_000_000_005; count = 1 }) ∷ [];
    next_sweep = some (pos 60_000_000_005);
  };
  entries =
      record {
        endpoint = codes "token";
        method = codes "POST";
        path = codes "/oauth/token";
        status = 200;
        outcome = codes "success";
        duration_ms = 0;
        remote_ip = codes "10.0.0.1";
        client_id = none;
      }
      ∷ [];
  reply = some (replied health_http);
}

-- What a chain computes with.
serving : ℕ → ℕ
unfolding allow lookup insert sweep_expired live text_eq run_chain handlers retry_after_seconds
    new_fixed_window_rate_limiter entry_of audit_outcome written_status entries_for status_of
    request_path remote_ip_from_request limiter_key reply_of safe_audit_client_id is_nil health_http
    write_json asked answer_by
serving n = n

reached-serve_all_example :
    reached split ceil token_endpoint
      (ip_of split ceil (at (pos 5)))
      (at (pos 5) ∷ at (pos 6) ∷ [])
      (serve_all split ceil
        (λ e. one)
        (λ e r. some health_http)
        true
        new_fixed_window_rate_limiter
        (at (pos 5) ∷ at (pos 6) ∷ []))
    ≤ 1
unfolding ◌+ℤ◌
reached-serve_all_example =
    reached-serve_all split ceil (λ e. one) (λ e r. some health_http) true (λ e. refl) (at (pos 5))
      1 refl (at (pos 6) ∷ []) (omega arith) (omega arith) (omega arith, tt) (inr (omega arith), tt)

retry_after-passes_example :
    (allow
      (allow full (codes "token|a") (pos 1) (pos 60_000_000_000) (pos 5)).0
      (codes "token|a")
      (pos 1)
      (pos 60_000_000_000)
      (pos 70_000_000_000)).1.ok
    ≡ true
unfolding serving ◌+ℤ◌ ◌-ℤ◌
retry_after-passes_example =
    retry_after-passes split 60_000_000_000 ceil full (codes "token|a") (pos 1) (pos 60_000_000_000)
      (pos 5) (pos 70_000_000_000) 60 ceil-IsCeil ((λ h. h), tt) refl (omega arith) refl
      (omega arith)

run_chain-handlers_example :
    (served.limiter
      ≡ (asked split ceil new_fixed_window_rate_limiter
          (codes "token")
          one
          (at (pos 5)).incoming).0)
    × (served.reply ≡ some (replied health_http))
    × IsAudited split ceil (codes "token") (at (pos 5)).incoming served.reply true served.entries
unfolding serving ◌+ℤ◌ ◌-ℤ◌ filter_values
run_chain-handlers_example =
    run_chain-handlers split ceil security (codes "token") one (λ r. some health_http)
      (at (pos 5)).incoming
