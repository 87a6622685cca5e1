-- ===== src/Server/Config/Building.antt =====
-- `buildServer`: what a server that is built is known to be.
use mathlib.Core.Path.{subst}
use orionis.Base.{
  ◌≡◌, ◌≢◌, inl, inr, refl, sym, ap, ◌∙◌, false, Option, none, some, List, [], ◌∷◌, map, arith,
  Bool-cases, Option-cases, All, Has, is_nil, is_nil-false, is_some,
}
use orionis.Base.Int.{ℤ, pos, ◌<ℤ◌}
use orionis.Text.{Text, trim_space, trim_right_slash, contains}
use orionis.Text.Order.{contains_of_Has}
use orionis.Stringset.Sorting.{IsDistinct}
use orionis.Server.Client.{Client, normalize, validate}
use orionis.Server.Store.{client_found, find_client, new_memory_client_store}
use orionis.Server.Store.Filling.{ids, IsNormal, find-new_store}
use orionis.Server.Client.Validation.{IsValidClient, normalize_client_idem, validate_iff}
use orionis.Server.Config.Signing.{IsSigning, scanned-IsSigning}
use orionis.Server.Config.{
  Signer, Config, Server, ConfigError, Checked, active_is, config_failed, built, check_client,
  check_clients, check_store, default_access_token_ttl, default_max_token_request_body,
  unless_failed, unless_config, validate_config, positive_or, normalize_config, finish, server_of,
  store_or, build_server,
}

record IsRoster (seen : List Text) (cs : List Client) : Type 0 where
  valid : All (λ c. validate c ≡ none) cs
  distinct : IsDistinct (ids cs)
  unseen : (k : Text) → Has k (ids cs) → Has k seen → ⊥

check_clients-IsRoster :
    (seen : List Text) (cs : List Client) → check_clients seen cs ≡ none → IsRoster seen cs
unfolding check_clients check_client
check_clients-IsRoster seen [] e = record { valid = tt; distinct = tt; unseen = λ k h m. h }
check_clients-IsRoster seen (c ∷ cs) e = elim (Option-cases (validate c)) [
  | inr (x, k) ↦ absurd (ground arith)
  | inl k ↦
      let d : contains seen c.id ≡ false = ground arith in
      let r =
        check_clients-IsRoster (c.id ∷ seen) cs (rw (check_clients, check_client, k, d) at e) in
      record {
        valid = (k, r.valid);
        distinct = ((λ h. r.unseen c.id h (inl refl)), r.distinct);
        unseen = λ i h m. elim h [
          | inl q ↦ absurd (ground (arith, contains_of_Has seen i m))
          | inr h' ↦ r.unseen i h' (inr m)
        ];
      }
]

is_nil-map : (cs : List Client) → is_nil (map normalize cs) ≡ is_nil cs
unfolding is_nil
is_nil-map [] = refl
is_nil-map (c ∷ cs) = refl

map_normalized :
    (cs : List Client)
    → All (λ c. validate c ≡ none) (map normalize cs)
    → All IsValidClient (map normalize cs)
map_normalized [] v = tt
map_normalized (c ∷ cs) (v, vs) = (
  subst IsValidClient (normalize_client_idem c) ((validate_iff (normalize c)).0 v),
  map_normalized cs vs,
)

IsNormal-map :
    (cs : List Client) → All IsValidClient (map normalize cs) → All IsNormal (map normalize cs)
IsNormal-map [] v = tt
IsNormal-map (c ∷ cs) (v, vs) =
    (record { normal = normalize_client_idem c; has_id = v.has_id }, IsNormal-map cs vs)

positive_or-pos : (v d : ℤ) → pos 0 <ℤ d → pos 0 <ℤ positive_or v d
unfolding positive_or
positive_or-pos v d h = ground arith

config_checked :
    (r : Checked) (o : Option ConfigError) (a : Signer)
    → unless_config r o ≡ active_is a
    → (r ≡ active_is a) × (o ≡ none)
unfolding unless_config unless_failed
config_checked (config_failed x) o a e = absurd (ground arith)
config_checked (active_is b) none a e = (e, refl)
config_checked (active_is b) (some x) a e = absurd (ground arith)

module _ {Clock : Type 0} where
  -- A server that is built from a configuration.
  pub record IsBuilt (cfg : Config Clock) (s : Server Clock) : Type 0 where
    pub issuer_is : s.issuer ≡ trim_right_slash (trim_space cfg.issuer)
    pub issuer_given : s.issuer ≢ []
    pub tokens_issuer : s.tokens.issuer ≡ s.issuer
    pub ttl_positive : pos 0 <ℤ s.tokens.access_token_ttl
    pub body_positive : pos 0 <ℤ s.max_token_request_body
    pub signers_kept : s.signers ≡ cfg.signers
    pub signing : IsSigning (trim_space cfg.active_kid) s.active_signer s.signers
    pub one_source : is_some cfg.store ≡ is_nil cfg.clients
    pub clients_valid : All IsValidClient (map normalize cfg.clients)
    pub clients_apart : IsDistinct (ids (map normalize cfg.clients))

  -- The configuration is accepted, with the active signer `a`.
  record IsAccepted (cfg : Config Clock) (a : Signer) : Type 0 where
    issuer_given : cfg.issuer ≢ []
    signing : IsSigning cfg.active_kid a cfg.signers
    one_source : is_some cfg.store ≡ is_nil cfg.clients
    roster : IsRoster [] cfg.clients

  store_checked :
      (cfg : Config Clock)
      → check_store cfg ≡ none
      → (is_some cfg.store ≡ is_nil cfg.clients) × (check_clients [] cfg.clients ≡ none)
  unfolding check_store
  store_checked cfg e = (ground arith, ground arith)

  validated-IsAccepted :
      (cfg : Config Clock) (a : Signer) → validate_config cfg ≡ active_is a → IsAccepted cfg a
  unfolding validate_config
  validated-IsAccepted cfg a e = elim (Bool-cases (is_nil cfg.issuer)) [
    | inl k ↦ absurd (ground arith)
    | inr k ↦ elim (Bool-cases (is_nil cfg.signers)) [
      | inl m ↦ absurd (ground arith)
      | inr m ↦
          let (c, o) = config_checked _ _ a (rw (validate_config, k, m) at e) in
          let (one, r) = store_checked cfg o in
          record {
            issuer_given = is_nil-false cfg.issuer k;
            signing = scanned-IsSigning cfg.active_kid a cfg.signers _ refl c;
            one_source = one;
            roster = check_clients-IsRoster [] cfg.clients r;
          }
    ]
  ]

  finish_built :
      (system_clock : Clock) (cfg : Config Clock) (r : Checked) (s : Server Clock)
      → finish system_clock cfg r ≡ built s
      → (a : Signer) × (r ≡ active_is a) × (s ≡ server_of system_clock cfg a)
  unfolding finish
  finish_built system_clock cfg (config_failed x) s e = absurd (ground arith)
  finish_built system_clock cfg (active_is a) s e = (a, refl, ground arith)

  accepted-IsBuilt :
      (system_clock : Clock) (cfg : Config Clock) (a : Signer)
      → IsAccepted (normalize_config system_clock cfg) a
      → IsBuilt cfg (server_of system_clock (normalize_config system_clock cfg) a)
  unfolding server_of normalize_config
  accepted-IsBuilt system_clock cfg a v = record {
    issuer_is = refl;
    issuer_given = v.issuer_given;
    tokens_issuer = refl;
    ttl_positive = positive_or-pos cfg.access_token_ttl default_access_token_ttl (omega arith);
    body_positive =
        positive_or-pos cfg.max_token_request_body default_max_token_request_body (omega arith);
    signers_kept = refl;
    signing = v.signing;
    one_source = v.one_source ∙ is_nil-map cfg.clients;
    clients_valid = map_normalized cfg.clients v.roster.valid;
    clients_apart = v.roster.distinct;
  }

  -- A server that is built has a trimmed issuer that is not empty, a positive lifetime of tokens and a
  -- positive limit on bodies. Its signers have key ids that are not blank and all different, and the
  -- active signer is the one with the configured key id, or the first one if no key id is configured.
  -- The configuration has either a store or clients; the clients are valid and have different ids.
  pub build_server-IsBuilt :
      (system_clock : Clock) (cfg : Config Clock) (s : Server Clock)
      → build_server system_clock cfg ≡ built s
      → IsBuilt cfg s
  unfolding build_server
  build_server-IsBuilt system_clock cfg s e =
      let n = normalize_config system_clock cfg in
      let (a, k, same) = finish_built system_clock n _ s e in
      subst (IsBuilt cfg) (sym same)
        (accepted-IsBuilt system_clock cfg a (validated-IsAccepted n a k))

  server_store :
      (system_clock : Clock) (cfg : Config Clock) (a : Signer)
      → cfg.store ≡ none
      → (server_of system_clock (normalize_config system_clock cfg) a).tokens.store
        ≡ find_client (new_memory_client_store (map normalize cfg.clients))
  unfolding server_of normalize_config store_or
  server_store system_clock cfg a e = ground arith

  -- A server that is built without a store finds each of its configured clients that is not disabled,
  -- normalised, under its id.
  pub build_server_finds :
      (system_clock : Clock) (cfg : Config Clock) (s : Server Clock) (c : Client)
      → build_server system_clock cfg ≡ built s
      → cfg.store ≡ none
      → Has c (map normalize cfg.clients)
      → c.disabled ≡ false
      → s.tokens.store c.id ≡ client_found c
  unfolding build_server
  build_server_finds system_clock cfg s c e none_given h on =
      let v = build_server-IsBuilt system_clock cfg s e in
      let (a, k, same) = finish_built system_clock (normalize_config system_clock cfg) _ s e in
      ap (λ x. x.tokens.store c.id) same
      ∙ ap (λ f. f c.id) (server_store system_clock cfg a none_given)
      ∙ find-new_store (map normalize cfg.clients) c (IsNormal-map cfg.clients v.clients_valid)
          v.clients_apart h on
