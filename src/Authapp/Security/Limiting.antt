-- ===== src/Authapp/Security/Limiting.antt =====
-- How many requests of one address reach the handler of an endpoint in one window.
use orionis.Base.{
  ℕ, suc, ◌≤◌, ◌≡◌, ◌≢◌, ◌⊎◌, inl, inr, refl, sym, ap, subst, ◌∙◌, Bool, true, false, ◌&&◌, Option,
  none, some, List, [], ◌∷◌, ◌++◌, map, arith, Bool-cases, if◌then◌else◌, All,
}
use orionis.Base.Int.{ℤ, pos, ◌+ℤ◌, ◌≤ℤ◌, ◌<ℤ◌}
use orionis.Text.{Text, codes, text_eq}
use orionis.Text.Order.{text_eq_iff}
use orionis.Server.Http.{Response}
use orionis.Authapp.Ratelimit.{
  FixedWindowRateLimiter, Allowed, allow, new_fixed_window_rate_limiter,
}
use orionis.Authapp.Ratelimit.Windows.{Call, run, IsOrdered}
use orionis.Authapp.Ratelimit.Windows.Bound.{passes, IsInWindow, IsCounted, passes-run}
use orionis.Authapp.Runtime.{EffectiveRateLimit}
use orionis.Authapp.Security.{
  Incoming, Reply, replied, limited, handlers, reply_of, Served, remote_ip_from_request,
  limiter_key, run_chain,
}
use orionis.Authapp.Security.Auditing.{asked-enabled, answer_by, handled_chain}

-- The endpoints that are limited.
pub data Endpoint : Type 0 where
  token_endpoint readyz_endpoint : Endpoint

unfoldable pub endpoint_name : Endpoint → Text
endpoint_name token_endpoint = codes "token"
endpoint_name readyz_endpoint = codes "readyz"

pub same_endpoint : Endpoint → Endpoint → Bool
same_endpoint token_endpoint token_endpoint = true
same_endpoint token_endpoint readyz_endpoint = false
same_endpoint readyz_endpoint token_endpoint = false
same_endpoint readyz_endpoint readyz_endpoint = true

eq_of_same_endpoint : (d e : Endpoint) → same_endpoint d e ≡ true → d ≡ e
unfolding same_endpoint
eq_of_same_endpoint token_endpoint token_endpoint h = refl
eq_of_same_endpoint token_endpoint readyz_endpoint h = absurd (ground arith)
eq_of_same_endpoint readyz_endpoint token_endpoint h = absurd (ground arith)
eq_of_same_endpoint readyz_endpoint readyz_endpoint h = refl

-- A request to one of them.
pub record Asked : Type 0 where
  pub endpoint : Endpoint
  pub incoming : Incoming

-- The request was not refused by the limiter.
pub is_reached : Option Reply → Bool
is_reached none = true
is_reached (some (replied r)) = true
is_reached (some (limited seconds)) = false

reached_reply : (response : Option Response) → is_reached (reply_of response) ≡ true
unfolding is_reached reply_of
reached_reply none = refl
reached_reply (some r) = refl

reached_answer :
    (split_host_port : Text → Option Text) (ceil_seconds : ℤ → ℤ) (a : Allowed)
    (response : Option Response)
    → is_reached (answer_by split_host_port ceil_seconds (some a) response) ≡ a.ok
unfolding is_reached answer_by reply_of
reached_answer split_host_port ceil_seconds a response = elim (Bool-cases a.ok) [
  | inl e ↦ rw e (reached_reply response)
  | inr e ↦ rw e refl
]

keys_same :
    (d e : Endpoint) (a b : Text)
    → text_eq (endpoint_name d ++ codes "|" ++ a) (endpoint_name e ++ codes "|" ++ b)
      ≡ (same_endpoint d e && text_eq a b)
unfolding endpoint_name same_endpoint text_eq
keys_same token_endpoint token_endpoint a b = refl
keys_same token_endpoint readyz_endpoint a b = refl
keys_same readyz_endpoint token_endpoint a b = refl
keys_same readyz_endpoint readyz_endpoint a b = refl

module _ (split_host_port : Text → Option Text) (ceil_seconds : ℤ → ℤ) where
  unfoldable pub ip_of : Asked → Text
  ip_of x = remote_ip_from_request split_host_port ceil_seconds x.incoming

  -- The request is to this endpoint, from this address.
  pub is_from : Endpoint → Text → Asked → Bool
  is_from e ip x = same_endpoint x.endpoint e && text_eq (ip_of x) ip

  -- How many of the requests to an endpoint from an address reach its handler.
  pub reached : Endpoint → Text → List Asked → List (Option Reply) → ℕ
  reached e ip [] replies = 0
  reached e ip (x ∷ xs) [] = 0
  reached e ip (x ∷ xs) (r ∷ replies) =
      let rest = reached e ip xs replies in
      if is_from e ip x && is_reached r then suc rest else rest

  key_for : Endpoint → Text → Text
  key_for e ip = endpoint_name e ++ codes "|" ++ ip

  module _ (limits : Endpoint → EffectiveRateLimit)
      (handler : Endpoint → Incoming → Option Response) (audit_enabled : Bool) where
    pub serve_one : FixedWindowRateLimiter → Asked → Served
    serve_one l x = run_chain split_host_port ceil_seconds l x.incoming (
        handlers (record { limiter = l; audit_enabled = audit_enabled }) (endpoint_name x.endpoint)
          (limits x.endpoint) (handler x.endpoint))

    -- The replies to requests, one after the other.
    unfoldable pub serve_all : FixedWindowRateLimiter → List Asked → List (Option Reply)
    unfolding serve_one
    serve_all l [] = []
    serve_all l (x ∷ xs) = (serve_one l x).reply ∷ serve_all (serve_one l x).limiter xs

    call_of : Asked → Call
    call_of x = record {
      key = limiter_key split_host_port ceil_seconds (endpoint_name x.endpoint) x.incoming;
      limit = (limits x.endpoint).limit;
      window = (limits x.endpoint).window;
      now = x.incoming.now;
    }

    key_same :
        (e : Endpoint) (ip : Text) (x : Asked)
        → text_eq (call_of x).key (key_for e ip) ≡ is_from e ip x
    unfolding call_of key_for is_from limiter_key ip_of
    key_same e ip x = keys_same x.endpoint e (ip_of x) ip

    module _ (limited_all : (e : Endpoint) → (limits e).enabled ≡ true) where
      served_limiter :
          (l : FixedWindowRateLimiter) (x : Asked)
          → (serve_one l x).limiter
            ≡ (allow l (call_of x).key (call_of x).limit (call_of x).window (call_of x).now).0
      unfolding serve_one call_of
      served_limiter l x =
          ap (λ s. s.limiter)
            (handled_chain split_host_port ceil_seconds
              (record { limiter = l; audit_enabled = audit_enabled }) (endpoint_name x.endpoint)
              (limits x.endpoint) (handler x.endpoint) x.incoming)
          ∙ ap (λ a. a.0)
              (asked-enabled split_host_port ceil_seconds l (endpoint_name x.endpoint)
                (limits x.endpoint) x.incoming (limited_all x.endpoint))

      served_reply :
          (l : FixedWindowRateLimiter) (x : Asked)
          → is_reached (serve_one l x).reply
            ≡ (allow l (call_of x).key (call_of x).limit (call_of x).window (call_of x).now).1.ok
      unfolding serve_one call_of
      served_reply l x =
          ap (λ s. is_reached s.reply)
            (handled_chain split_host_port ceil_seconds
              (record { limiter = l; audit_enabled = audit_enabled }) (endpoint_name x.endpoint)
              (limits x.endpoint) (handler x.endpoint) x.incoming)
          ∙ ap
              (λ a.
                is_reached
                  (answer_by split_host_port ceil_seconds a.1 (handler x.endpoint x.incoming)))
              (asked-enabled split_host_port ceil_seconds l (endpoint_name x.endpoint)
                (limits x.endpoint) x.incoming (limited_all x.endpoint))
          ∙ reached_answer split_host_port ceil_seconds _ (handler x.endpoint x.incoming)

      reached-passes :
          (e : Endpoint) (ip : Text) (l : FixedWindowRateLimiter) (xs : List Asked)
          → reached e ip xs (serve_all l xs)
            ≡ passes (key_for e ip) (map call_of xs) (run l (map call_of xs))
      unfolding reached serve_all passes run
      reached-passes e ip l [] = refl
      reached-passes e ip l (x ∷ xs) =
          rw
            (
              served_reply l x,
              served_limiter l x,
              sym (key_same e ip x),
              reached-passes e ip
                  (allow l (call_of x).key (call_of x).limit (call_of x).window (call_of x).now).0
                  xs,
            )
            refl

      -- The times of requests do not go back, from `now` on.
      abbrev IsTimed : ℤ → List Asked → Type 0
      IsTimed now [] = Unit {0}
      IsTimed now (x ∷ xs) = (now ≤ℤ x.incoming.now) × IsTimed x.incoming.now xs

      -- A request is from elsewhere, to another endpoint, or before the end of the window.
      abbrev IsWithin : Endpoint → Text → ℤ → Asked → Type 0
      IsWithin e ip end x = (is_from e ip x ≡ false) ⊎ (x.incoming.now <ℤ end)

      IsOrdered-call_of :
          (now : ℤ) (xs : List Asked) → IsTimed now xs → IsOrdered now (map call_of xs)
      unfolding call_of
      IsOrdered-call_of now [] o = tt
      IsOrdered-call_of now (x ∷ xs) (h, o) = (h, IsOrdered-call_of x.incoming.now xs o)

      module _ (first : Asked) (limit : ℕ) (given : (limits first.endpoint).limit ≡ pos limit) where
        abbrev end : ℤ
        end = first.incoming.now +ℤ (limits first.endpoint).window

        other-IsCounted :
            (x : Asked)
            → is_from first.endpoint (ip_of first) x ≡ false
            → (call_of x).key ≢ (call_of first).key
        unfolding call_of key_for limiter_key ip_of
        other-IsCounted x n e =
            let t = (text_eq_iff (call_of x).key (call_of first).key).1 e in
            let f = key_same first.endpoint (ip_of first) x ∙ n in absurd (ground (arith, t, f))

        own-IsInWindow :
            (x : Asked)
            → is_from first.endpoint (ip_of first) x ≡ true
            → x.incoming.now <ℤ end
            → IsInWindow (call_of first).key limit (limits first.endpoint).window end (call_of x)
        unfolding call_of is_from
        own-IsInWindow x n t =
            let s : x.endpoint ≡ first.endpoint =
              eq_of_same_endpoint x.endpoint first.endpoint (ground arith) in
            record {
              limit_is = ap (λ e. (limits e).limit) s ∙ given;
              window_is = ap (λ e. (limits e).window) s;
              in_time = t;
            }

        call-IsCounted :
            (x : Asked)
            → IsWithin first.endpoint (ip_of first) end x
            → IsCounted (call_of first).key limit (limits first.endpoint).window end (call_of x)
        call-IsCounted x (inl n) = inl (other-IsCounted x n)
        call-IsCounted x (inr t) = elim (Bool-cases (is_from first.endpoint (ip_of first) x)) [
          | inl n ↦ inr (own-IsInWindow x n t)
          | inr n ↦ inl (other-IsCounted x n)
        ]

        calls-IsCounted :
            (xs : List Asked)
            → All (IsWithin first.endpoint (ip_of first) end) xs
            → All
                (IsCounted (call_of first).key limit (limits first.endpoint).window end)
                (map call_of xs)
        calls-IsCounted [] w = tt
        calls-IsCounted (x ∷ xs) (w, ws) = (call-IsCounted x w, calls-IsCounted xs ws)

        -- Of the requests to an endpoint from one address, from the first request of a new limiter to the
        -- end of its window, at most as many reach the handler as the limit allows, whatever is asked from
        -- other addresses and of the other endpoint between, if both endpoints are limited, the limit and
        -- the window are positive, and the times do not go back.
        pub reached-serve_all :
            (xs : List Asked)
            → 1 ≤ limit
            → pos 0 <ℤ (limits first.endpoint).window
            → IsTimed first.incoming.now xs
            → All (IsWithin first.endpoint (ip_of first) end) xs
            → reached first.endpoint
                (ip_of first)
                (first ∷ xs)
                (serve_all new_fixed_window_rate_limiter (first ∷ xs))
              ≤ limit
        unfolding call_of key_for limiter_key ip_of
        reached-serve_all xs one window o w =
            subst (λ n. n ≤ limit)
              (sym (
                reached-passes first.endpoint (ip_of first) new_fixed_window_rate_limiter
                  (first ∷ xs)))
              (passes-run (call_of first) limit one given window (map call_of xs)
                (ground arith, IsOrdered-call_of first.incoming.now xs o) (calls-IsCounted xs w))
