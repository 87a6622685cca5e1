-- ===== src/Authapp/Security/Entries.antt =====
-- What the audit logs of a reply.
use orionis.Base.{
  ℕ, ◌≤◌, ◌/◌, ◌≡◌, ◌≢◌, ◌⊎◌, inl, inr, refl, true, false, Bool, List, ◌&&◌, ◌==◌, leb, ltb, is_nil,
  is_nil_of_ne_nil, arith, Option, none, some, [], ◌∷◌, Bool-cases, if◌then◌else◌,
}
use orionis.Base.Int.{ℤ}
use orionis.Text.{Text, codes, trim_space}
use orionis.Text.Order.{text_eq_iff}
use orionis.Authapp.Security.{
  Incoming, Reply, limited, entries_for, replied, AuditEntry, status_of, written_status,
  audit_outcome, entry_of, request_path, remote_ip_from_request, host_or, given,
  safe_audit_client_id, basic_client_id,
}

-- The status that a reply is sent with: a status that was not set is 200.
abbrev pub IsSent : Reply → ℕ → Type 0
IsSent (limited seconds) n = n ≡ 429
IsSent (replied r) n =
    ((r.status_code ≡ 0) × (n ≡ 200)) ⊎ ((r.status_code ≢ 0) × (n ≡ r.status_code))

-- The word for a status.
pub data IsOutcome (status : ℕ) (outcome : Text) : Type 0 where
  too_many : status ≡ 429 → outcome ≡ codes "rate_limited" → IsOutcome status outcome
  success : 200 ≤ status → status ≤ 299 → outcome ≡ codes "success" → IsOutcome status outcome
  server_error : 500 ≤ status → outcome ≡ codes "error" → IsOutcome status outcome
  below_success : status ≤ 199 → outcome ≡ codes "rejected" → IsOutcome status outcome
  client_error :
      300 ≤ status
      → status ≤ 499
      → status ≢ 429
      → outcome ≡ codes "rejected"
      → IsOutcome status outcome

written_status-IsSent : (r : Reply) → IsSent r (written_status (status_of r))
unfolding written_status status_of
written_status-IsSent (limited seconds) = refl
written_status-IsSent (replied r) = elim (Bool-cases (r.status_code == 0)) [
  | inl e ↦ inl (ground arith, ground arith)
  | inr e ↦ inr (ground arith, ground arith)
]

audit_outcome-IsOutcome : (status : ℕ) → IsOutcome status (audit_outcome status)
unfolding audit_outcome
audit_outcome-IsOutcome status = elim (Bool-cases (status == 429)) [
  | inl e ↦ rw e (too_many (ground arith) refl)
  | inr e ↦ elim (Bool-cases (leb 200 status && ltb status 300)) [
    | inl k ↦ rw (e, k) (success (ground arith) (ground arith) refl)
    | inr k ↦ elim (Bool-cases (leb 500 status)) [
      | inl l ↦ rw (e, k, l) (server_error (ground arith) refl)
      | inr l ↦ elim (Bool-cases (leb 300 status)) [
        | inl m ↦ rw (e, k, l) (client_error (ground arith) (ground arith) (λ x. ground arith) refl)
        | inr m ↦ rw (e, k, l) (below_success (ground arith) refl)
      ]
    ]
  ]
]

module _ (split_host_port : Text → Option Text) (ceil_seconds : ℤ → ℤ) where
  -- The entry of a reply, field by field.
  pub record IsEntryOf (endpoint : Text) (c : Incoming) (r : Reply) (e : AuditEntry) : Type 0 where
    pub endpoint_is : e.endpoint ≡ endpoint
    pub method_is : e.method ≡ c.request.method
    pub route_path : c.full_path ≢ [] → e.path ≡ c.full_path
    pub other_path : c.full_path ≡ [] → e.path ≡ c.url_path
    pub status_is : IsSent r e.status
    pub outcome_is : IsOutcome e.status e.outcome
    pub duration_is : e.duration_ms ≡ c.elapsed / 1_000_000
    pub host_is : (h : Text) → split_host_port c.remote_addr ≡ some h → e.remote_ip ≡ h
    pub address_is : split_host_port c.remote_addr ≡ none → e.remote_ip ≡ trim_space c.remote_addr
    pub unnamed : endpoint ≢ codes "token" → e.client_id ≡ none
    pub basic_name :
        (id secret : Text)
        → endpoint ≡ codes "token"
        → c.request.basic_auth ≡ some (id, secret)
        → trim_space id ≢ []
        → e.client_id ≡ some (trim_space id)
    pub posted_name :
        (id : Text)
        → endpoint ≡ codes "token"
        → c.request.basic_auth ≡ none
        → c.posted ≡ some id
        → trim_space id ≢ []
        → e.client_id ≡ some (trim_space id)

  -- What is logged of a reply, or of a panic.
  abbrev pub IsLogged : Text → Incoming → Option Reply → List AuditEntry → Type 0
  IsLogged endpoint c none entries = entries ≡ []
  IsLogged endpoint c (some r) entries =
      (e : AuditEntry) × (entries ≡ e ∷ []) × IsEntryOf endpoint c r e

  entry_of-IsEntryOf :
      (endpoint : Text) (c : Incoming) (r : Reply)
      → IsEntryOf endpoint c r
          (entry_of split_host_port ceil_seconds endpoint c (written_status (status_of r)))
  unfolding entry_of request_path remote_ip_from_request host_or given safe_audit_client_id
      basic_client_id is_nil
  entry_of-IsEntryOf endpoint c r = record {
    endpoint_is = refl;
    method_is = refl;
    route_path = λ n. rw (is_nil_of_ne_nil c.full_path n) refl;
    other_path = λ e. rw (e, is_nil) refl;
    status_is = written_status-IsSent r;
    outcome_is = audit_outcome-IsOutcome (written_status (status_of r));
    duration_is = refl;
    host_is = λ h e. rw (e, host_or) refl;
    address_is = λ e. rw (e, host_or) refl;
    unnamed = λ n. ground (arith, text_eq_iff endpoint (codes "token"));
    basic_name = λ id secret t e n.
        rw ((text_eq_iff endpoint (codes "token")).1 t)
          (rw (e, basic_client_id) (rw (is_nil_of_ne_nil (trim_space id) n) refl));
    posted_name = λ id t e p n.
        rw ((text_eq_iff endpoint (codes "token")).1 t)
          (rw (e, p, basic_client_id) (rw (is_nil_of_ne_nil (trim_space id) n) refl));
  }

  entries_for-IsLogged :
      (endpoint : Text) (c : Incoming) (reply : Option Reply)
      → IsLogged endpoint c reply (entries_for split_host_port ceil_seconds endpoint c reply)
  unfolding entries_for
  entries_for-IsLogged endpoint c none = refl
  entries_for-IsLogged endpoint c (some r) = (_, refl, entry_of-IsEntryOf endpoint c r)

  -- The same where the audit is enabled, and nothing where it is not.
  abbrev pub IsAudited : Text → Incoming → Option Reply → Bool → List AuditEntry → Type 0
  IsAudited endpoint c reply true entries = IsLogged endpoint c reply entries
  IsAudited endpoint c reply false entries = entries ≡ []

  pub entries-IsAudited :
      (endpoint : Text) (c : Incoming) (reply : Option Reply) (enabled : Bool)
      → IsAudited endpoint c reply enabled
          (if enabled then entries_for split_host_port ceil_seconds endpoint c reply else [])
  entries-IsAudited endpoint c reply true = entries_for-IsLogged endpoint c reply
  entries-IsAudited endpoint c reply false = refl
