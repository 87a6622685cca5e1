-- ===== src/Authapp/Security/Auditing.antt =====
-- What the chain of an endpoint does, with what the audit logs.
use orionis.Base.{
  ◌≡◌, inl, inr, refl, ap, true, Option, none, some, [], ◌∷◌, ◌++◌, Bool-cases, if◌then◌else◌,
}
use orionis.Base.Int.{ℤ}
use orionis.Text.{Text}
use orionis.Server.Http.{Response}
use orionis.Authapp.Ratelimit.{FixedWindowRateLimiter, Allowed, allow}
use orionis.Authapp.Runtime.{EffectiveRateLimit}
use orionis.Authapp.Security.Entries.{IsAudited, entries-IsAudited}
use orionis.Authapp.Security.{
  Incoming, Reply, limited, RuntimeSecurity, rate_limit, wrapped, handlers, reply_of,
  retry_after_seconds, entries_for, limiter_key, audited, refused, run_chain,
}

module _ (split_host_port : Text → Option Text) (ceil_seconds : ℤ → ℤ) where
  -- What the limiter says of a request, if the endpoint has a limit.
  unfoldable pub asked :
      FixedWindowRateLimiter
      → Text
      → EffectiveRateLimit
      → Incoming
      → FixedWindowRateLimiter × Option Allowed
  asked l endpoint limit c =
      if limit.enabled
      then (let r =
            allow l (limiter_key split_host_port ceil_seconds endpoint c) limit.limit limit.window
              c.now in
          (r.0, some r.1))
      else (l, none)

  -- The reply, by what the limiter says.
  unfoldable pub answer_by : Option Allowed → Option Response → Option Reply
  answer_by none response = reply_of response
  answer_by (some a) response =
      if a.ok
      then reply_of response
      else some (limited (retry_after_seconds split_host_port ceil_seconds a.retry_after))

  pub asked-enabled :
      (l : FixedWindowRateLimiter) (endpoint : Text) (limit : EffectiveRateLimit) (c : Incoming)
      → limit.enabled ≡ true
      → asked l endpoint limit c ≡ (
          let r =
            allow l
              (limiter_key split_host_port ceil_seconds endpoint c)
              limit.limit
              limit.window
              c.now in
          (r.0, some r.1))
  unfolding asked
  asked-enabled l endpoint limit c e = rw e refl

  -- The chain behind the audit.
  limited_chain :
      (l : FixedWindowRateLimiter) (endpoint : Text) (limit : EffectiveRateLimit)
      (handler : Incoming → Option Response) (c : Incoming)
      → run_chain split_host_port ceil_seconds l c
          ((if limit.enabled then rate_limit endpoint limit ∷ [] else []) ++ wrapped handler ∷ [])
        ≡ record {
          limiter = (asked l endpoint limit c).0;
          entries = [];
          reply = answer_by (asked l endpoint limit c).1 (handler c);
        }
  unfolding run_chain asked answer_by refused
  limited_chain l endpoint limit handler c =
      let a =
        (allow l (limiter_key split_host_port ceil_seconds endpoint c) limit.limit limit.window
          c.now).1.ok in
      elim (Bool-cases limit.enabled) [
        | inr e ↦ rw e refl
        | inl e ↦ elim (Bool-cases a) [ inl k ↦ rw e (rw k refl) | inr k ↦ rw e (rw k refl) ]
      ]

  -- The chain of an endpoint in one equation, with the entries as the code makes them.
  pub handled_chain :
      (s : RuntimeSecurity) (endpoint : Text) (limit : EffectiveRateLimit)
      (handler : Incoming → Option Response) (c : Incoming)
      → run_chain split_host_port ceil_seconds s.limiter c (handlers s endpoint limit handler) ≡ (
          let a = asked s.limiter endpoint limit c in
          let reply = answer_by a.1 (handler c) in
          record {
            limiter = a.0;
            entries =
                if s.audit_enabled
                then entries_for split_host_port ceil_seconds endpoint c reply
                else [];
            reply = reply;
          })
  unfolding run_chain handlers audited
  handled_chain s endpoint limit handler c = elim (Bool-cases s.audit_enabled) [
    | inl e ↦ rw e (
        ap (audited split_host_port ceil_seconds endpoint c)
          (limited_chain s.limiter endpoint limit handler c))
    | inr e ↦ rw e (limited_chain s.limiter endpoint limit handler c)
  ]

  -- The chain of an endpoint asks the limiter if the endpoint has a limit; a request that the limiter
  -- refuses is answered with the time to wait, and every other one by the handler. If the audit is enabled,
  -- what is logged is one entry, or nothing if the handler panicked; else nothing is. The entry names the
  -- endpoint, the method, the path of the route or else that of the request, the status that is sent with
  -- its outcome, the duration, the host of the client's address, and, for a token, the client's id.
  pub run_chain-handlers :
      (s : RuntimeSecurity) (endpoint : Text) (limit : EffectiveRateLimit)
      (handler : Incoming → Option Response) (c : Incoming)
      → (let served =
            run_chain split_host_port ceil_seconds s.limiter c
              (handlers s endpoint limit handler) in
          let a = asked s.limiter endpoint limit c in
          (served.limiter ≡ a.0)
          × (served.reply ≡ answer_by a.1 (handler c))
          × IsAudited split_host_port ceil_seconds endpoint c served.reply s.audit_enabled
              served.entries)
  run_chain-handlers s endpoint limit handler c =
      let reply = answer_by (asked s.limiter endpoint limit c).1 (handler c) in
      let same = handled_chain s endpoint limit handler c in
      rw same (
        refl,
        refl,
        entries-IsAudited split_host_port ceil_seconds endpoint c reply s.audit_enabled,
      )
