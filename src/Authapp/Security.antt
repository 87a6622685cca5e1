-- ===== src/Authapp/Security.antt =====
-- internal/authapp/audit.go, routes.go and the handler of ratelimit.go: the chain of handlers of an
-- endpoint. `c.Next()` runs the handlers behind, and an aborted chain runs none of them.
pub mod Entries
pub mod Auditing
pub mod Limiting
use orionis.Base.{
  ℕ, ◌/◌, ◌≡◌, refl, Bool, true, false, not, ◌&&◌, Option, none, some, List, [], ◌∷◌, ◌++◌,
  if◌then◌else◌, is_nil, ◌==◌, ltb, leb,
}
use orionis.Base.Int.{ℤ, pos, ltb_ℤ, leb_ℤ}
use orionis.Text.{Text, codes, text_eq, trim_space}
use orionis.Server.TokenService.{Environment}
use orionis.Server.Http.{Request, Response}
use orionis.Authapp.Ratelimit.{
  FixedWindowRateLimiter, Allowed, new_fixed_window_rate_limiter, allow,
}
use orionis.Authapp.Runtime.{EffectiveRateLimit, ResolvedConfig}

-- A request as gin passes it on, with what its handler reads of the outside. `posted` is the value of client_id in `PostForm` once the handler has
-- run, `none` where `PostForm` is nil; `now` is when the limiter reads its clock, and `elapsed` the
-- duration of the handlers, in nanoseconds.
pub record Incoming : Type 0 where
  pub request : Request
  pub environment : Environment
  pub full_path : Text
  pub url_path : Text
  pub remote_addr : Text
  pub posted : Option Text
  pub now : ℤ
  pub elapsed : ℕ

-- What is answered: by the endpoint, or by the limiter, with the seconds of Retry-After.
pub data Reply : Type 0 where
  replied : Response → Reply
  limited : ℤ → Reply

unfoldable pub status_of : Reply → ℕ
status_of (replied r) = r.status_code
status_of (limited seconds) = 429

pub record AuditEntry : Type 0 where
  pub endpoint : Text
  pub method : Text
  pub path : Text
  pub status : ℕ
  pub outcome : Text
  pub duration_ms : ℕ
  pub remote_ip : Text
  pub client_id : Option Text

pub record RuntimeSecurity : Type 0 where
  pub limiter : FixedWindowRateLimiter
  pub audit_enabled : Bool

unfoldable pub new_runtime_security : ResolvedConfig → RuntimeSecurity
new_runtime_security cfg = record {
  limiter = new_fixed_window_rate_limiter;
  audit_enabled = cfg.audit_enabled;
}

unfoldable pub request_path : Incoming → Text
request_path c = if not (is_nil c.full_path) then c.full_path else c.url_path

unfoldable pub audit_outcome : ℕ → Text
audit_outcome status =
    if status == 429
    then codes "rate_limited"
    else if leb 200 status && ltb status 300
    then codes "success"
    else if leb 500 status
    then codes "error"
    else codes "rejected"

basic_client_id : Option (Text × Text) → Option Text → Text
basic_client_id (some (id, secret)) posted = trim_space id
basic_client_id none (some id) = trim_space id
basic_client_id none none = []

unfoldable pub safe_audit_client_id : Incoming → Text
unfolding basic_client_id
safe_audit_client_id c = basic_client_id c.request.basic_auth c.posted

host_or : Text → Option Text → Text
host_or addr none = trim_space addr
host_or addr (some host) = host

-- The status that is written, where a status that was not set is that of success.
unfoldable pub written_status : ℕ → ℕ
written_status status = if status == 0 then 200 else status

given : Text → Option Text
given id = if is_nil id then none else some id

-- The handlers of an endpoint. A wrapped handler that panics answers `none`.
pub data Handler : Type 0 where
  audit : Text → Handler
  rate_limit : Text → EffectiveRateLimit → Handler
  wrapped : (Incoming → Option Response) → Handler

unfoldable pub handlers :
    RuntimeSecurity → Text → EffectiveRateLimit → (Incoming → Option Response) → List Handler
handlers s endpoint limit handler =
    (if s.audit_enabled then audit endpoint ∷ [] else [])
    ++ (if limit.enabled then rate_limit endpoint limit ∷ [] else [])
    ++ wrapped handler ∷ []

unfoldable pub reply_of : Option Response → Option Reply
reply_of none = none
reply_of (some r) = some (replied r)

-- What a chain leaves: the limiter, the entries that are logged, and the reply.
pub record Served : Type 0 where
  pub limiter : FixedWindowRateLimiter
  pub entries : List AuditEntry
  pub reply : Option Reply

-- net.SplitHostPort (`none` is an error), and int(math.Ceil(d.Seconds())).
module _ (split_host_port : Text → Option Text) (ceil_seconds : ℤ → ℤ) where
  unfoldable pub remote_ip_from_request : Incoming → Text
  unfolding host_or
  remote_ip_from_request c = host_or c.remote_addr (split_host_port c.remote_addr)

  unfoldable pub retry_after_seconds : ℤ → ℤ
  retry_after_seconds retry_after =
      if leb_ℤ retry_after (pos 0)
      then pos 1
      else if ltb_ℤ (ceil_seconds retry_after) (pos 1)
      then pos 1
      else ceil_seconds retry_after

  unfoldable pub entry_of : Text → Incoming → ℕ → AuditEntry
  unfolding given
  entry_of endpoint c status = record {
    endpoint = endpoint;
    method = c.request.method;
    path = request_path c;
    status = status;
    outcome = audit_outcome status;
    duration_ms = c.elapsed / 1_000_000;
    remote_ip = remote_ip_from_request c;
    client_id = if text_eq endpoint (codes "token") then given (safe_audit_client_id c) else none;
  }

  unfoldable pub limiter_key : Text → Incoming → Text
  limiter_key endpoint c = endpoint ++ codes "|" ++ remote_ip_from_request c

  -- What the audit logs: nothing for a handler that panics, since it runs behind the handlers.
  unfoldable pub entries_for : Text → Incoming → Option Reply → List AuditEntry
  entries_for endpoint c none = []
  entries_for endpoint c (some r) = entry_of endpoint c (written_status (status_of r)) ∷ []

  pub audited : Text → Incoming → Served → Served
  audited endpoint c s = record s { entries = s.entries ++ entries_for endpoint c s.reply }

  pub refused : FixedWindowRateLimiter → ℤ → Served
  refused l retry_after = record {
    limiter = l;
    entries = [];
    reply = some (limited (retry_after_seconds retry_after));
  }

  -- The chain: each handler decides about the ones behind it.
  unfoldable pub run_chain : FixedWindowRateLimiter → Incoming → List Handler → Served
  unfolding audited refused
  run_chain l c [] = record { limiter = l; entries = []; reply = none }
  run_chain l c (audit endpoint ∷ rest) = audited endpoint c (run_chain l c rest)
  run_chain l c (rate_limit endpoint limit ∷ rest) =
      let r = allow l (limiter_key endpoint c) limit.limit limit.window c.now in
      let next = run_chain r.0 c rest in if r.1.ok then next else refused r.0 r.1.retry_after
  run_chain l c (wrapped handler ∷ rest) = record {
    limiter = l;
    entries = [];
    reply = reply_of (handler c);
  }
