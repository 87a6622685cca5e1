-- ===== src/Authapp/Signing/Starting.antt =====
-- A configuration that is compiled, with signers that are loaded, gives a server.
use orionis.Base.{
  ◌≡◌, ◌≢◌, ◌⊎◌, inl, inr, refl, sym, ap, subst, ◌∙◌, true, false, Option, none, some, List, [],
  ◌∷◌, ◌++◌, map, append_assoc, append-nil, arith, Bool-cases, is_nil, nil_of_is_nil,
}
use orionis.Base.Int.{ℤ, pos, ◌≤ℤ◌, ltb_ℤ}
use orionis.Text.{Text, trim_space, trim_right_slash, contains}
use orionis.Text.Order.{text_eq_iff}
use orionis.Text.Trim.{trim_space_idem}
use orionis.Server.Client.{Client, normalize}
use orionis.Server.Config.{Signer, Built, built}
use orionis.Server.Config
use orionis.Server.Config.Accepting.{IsApart, is_called, IsActivatable, build_server_complete}
use orionis.Server.Config.Builder
use orionis.Authapp.Config.{KeyConfig}
use orionis.Authapp.Config as Wire
use orionis.Authapp.Runtime
use orionis.Authapp.Runtime.{ResolvedConfig, effective_key_configs}
use orionis.Authapp.Runtime.Compiled.{compile_config-IsCompiled}
use orionis.Authapp.Runtime.Again.{normal_clients}
use orionis.Authapp.Signing.{
  Loading, signer, load_error, SignerLoader, Loaded, loaded, not_loaded, next_signer, load_keys,
  cons_signer, check_active, load_signing_keys, started, start_with, start_server,
}

cons_loaded :
    (s : Signer) (r : Loaded) (l : List Signer) (seen' : List Text)
    → cons_signer s r ≡ loaded l seen'
    → (rest : List Signer) × (s ∷ rest ≡ l) × (r ≡ loaded rest seen')
unfolding cons_signer
cons_loaded s (loaded rest seen) l seen' e = (rest, ground arith, ground arith)
cons_loaded s (not_loaded x) l seen' e = absurd (ground arith)

next_loaded :
    {S : Type 0} (rest : Text → S → Loaded × S) (seen : List Text) (r : Loading × S)
    (l : List Signer) (seen' : List Text)
    → (next_signer rest seen r).0 ≡ loaded l seen'
    → (s : Signer) × (tail : List Signer) × (r.0 ≡ signer (some s))
      × (contains seen (trim_space s.key_id) ≡ false)
      × (s ∷ tail ≡ l)
      × ((rest (trim_space s.key_id) r.1).0 ≡ loaded tail seen')
unfolding next_signer
next_loaded rest seen (load_error, st) l seen' e = absurd (ground arith)
next_loaded rest seen (signer none, st) l seen' e = absurd (ground arith)
next_loaded rest seen (signer (some s), st) l seen' e =
    elim (Bool-cases (contains seen (trim_space s.key_id))) [
      | inl k ↦ absurd (ground arith)
      | inr k ↦
          let (tail, x, y) =
            cons_loaded s (rest (trim_space s.key_id) st).0 l seen' (rw (k, next_signer) at e) in
          (s, tail, refl, k, x, y)
    ]

-- What the loop over the keys finds: signers apart, each of which is in `seen'`.
record IsLoading (seen : List Text) (l : List Signer) (seen' : List Text) : Type 0 where
  apart : IsApart seen l
  called :
      (kid : Text)
      → contains seen' kid ≡ true
      → (contains seen kid ≡ true) ⊎ (is_called kid l ≡ true)

IsLoading-cons :
    (seen : List Text) (s : Signer) (l : List Signer) (seen' : List Text)
    → is_nil (trim_space s.key_id) ≡ false
    → contains seen (trim_space s.key_id) ≡ false
    → IsLoading (trim_space s.key_id ∷ seen) l seen'
    → IsLoading seen (s ∷ l) seen'
unfolding contains
IsLoading-cons seen s l seen' n u r = record {
  apart = (n, u, r.apart);
  called = λ kid h. elim (r.called kid h) [
    | inr c ↦ inr (ground arith)
    | inl c ↦
        ground (arith, text_eq_iff (trim_space s.key_id) kid, text_eq_iff kid (trim_space s.key_id))
  ];
}

-- Each signer that the loader gives has a key id.
abbrev pub IsNaming : {S : Type 0} → SignerLoader S → Type 0
IsNaming {S} load =
    (st : S) (key : KeyConfig) (s : Signer)
    → (load st key).0 ≡ signer (some s)
    → is_nil (trim_space s.key_id) ≡ false

module _ {S : Type 0} (load : SignerLoader S) (named : IsNaming load) where
  load_keys-IsLoading :
      (seen : List Text) (keys : List KeyConfig) (st : S) (l : List Signer) (seen' : List Text)
      → (load_keys load seen keys st).0 ≡ loaded l seen'
      → IsLoading seen l seen' × (is_nil l ≡ is_nil keys)
  unfolding load_keys is_nil
  load_keys-IsLoading seen [] st [] seen' e =
      (record { apart = tt; called = λ kid h. inl (ground arith) }, refl)
  load_keys-IsLoading seen [] st (s ∷ l) seen' e = absurd (ground arith)
  load_keys-IsLoading seen (key ∷ keys) st l seen' e =
      let (s, tail, r, u, same, f) =
        next_loaded (λ kid. load_keys load (kid ∷ seen) keys) seen (load st key) l seen' e in
      let n = named st key s r in
      let (found, count) =
        load_keys-IsLoading (trim_space s.key_id ∷ seen) keys (load st key).1 tail seen' f in
      subst (λ x. IsLoading seen x seen' × (is_nil x ≡ false)) same
        (IsLoading-cons seen s tail seen' n u found, refl)

check_active-loaded :
    (kid : Text) (r : Loaded) (l : List Signer) (seen : List Text)
    → check_active kid r ≡ loaded l seen
    → (r ≡ loaded l seen) × ((kid ≡ []) ⊎ (contains seen kid ≡ true))
unfolding check_active is_nil
check_active-loaded kid (not_loaded x) l seen e = absurd (ground arith)
check_active-loaded kid (loaded m s) l seen e = elim (Bool-cases (is_nil kid)) [
  | inl k ↦ (ground arith, inl (nil_of_is_nil kid k))
  | inr k ↦ elim (Bool-cases (contains s kid)) [
    | inl c ↦
        let same : s ≡ seen = ground arith in
        (ground arith, inr (subst (λ x. contains x kid ≡ true) same c))
    | inr c ↦ absurd (ground arith)
  ]
]

-- The server's builder, filled.
module _ {Clock : Type 0} where
  add_signers-some :
      (b : Config.Config Clock) (l : List Signer)
      → Builder.add_signers (some b) (map some l)
        ≡ some (record b { signers = b.signers ++ map some l })
  unfolding Builder.add_signers Builder.add_signer
  add_signers-some b [] = ap (λ x. some (record b { signers = x })) (sym (append-nil b.signers))
  add_signers-some b (s ∷ l) =
      add_signers-some (record b { signers = b.signers ++ some s ∷ [] }) l
      ∙ ap (λ x. some (record b { signers = x }))
          (append_assoc b.signers (some s ∷ []) (map some l))

  add_clients-some :
      (b : Config.Config Clock) (cs : List Client)
      → Builder.add_clients (some b) cs ≡ some (record b { clients = b.clients ++ cs })
  unfolding Builder.add_clients Builder.add_client
  add_clients-some b [] = ap (λ x. some (record b { clients = x })) (sym (append-nil b.clients))
  add_clients-some b (c ∷ cs) =
      add_clients-some (record b { clients = b.clients ++ c ∷ [] }) cs
      ∙ ap (λ x. some (record b { clients = x })) (append_assoc b.clients (c ∷ []) cs)

checked_clients :
    (seen : List Text) (cs : List Client)
    → Runtime.check_clients seen cs ≡ none
    → Config.check_clients seen cs ≡ none
unfolding Runtime.check_clients Config.check_clients Runtime.check_client Config.check_client
checked_clients seen [] e = refl
checked_clients seen (c ∷ cs) e = ground (arith, checked_clients (c.id ∷ seen) cs)

checked-validate :
    (cs : List Client) → Runtime.validate_clients cs ≡ none → Runtime.check_clients [] cs ≡ none
unfolding Runtime.validate_clients
checked-validate cs e = ground arith

given-validate : (cs : List Client) → Runtime.validate_clients cs ≡ none → is_nil cs ≡ false
unfolding Runtime.validate_clients
given-validate cs e = ground arith

is_nil_of_ne : (s : Text) → s ≢ [] → is_nil s ≡ false
unfolding is_nil
is_nil_of_ne [] n = absurd (n refl)
is_nil_of_ne (c ∷ s) n = refl

not-nil : (l : List Signer) → is_nil l ≡ false → l ≢ []
unfolding is_nil
not-nil [] e = absurd (ground arith)
not-nil (s ∷ l) e = λ z. ground arith

ltb_of_le : (d : ℤ) → pos 1_000_000_000 ≤ℤ d → ltb_ℤ (pos 0) d ≡ true
ltb_of_le d h = ground arith

-- The configuration that the builder is filled with.
abbrev server_config : {Clock : Type 0} → ResolvedConfig → List Signer → Config.Config Clock
server_config r l = record {
  issuer = trim_right_slash (trim_space r.raw.issuer);
  store = none;
  signers = map some l;
  active_kid = trim_space r.raw.active_kid;
  access_token_ttl = r.access_token_ttl;
  max_token_request_body = pos 0;
  now = none;
  clients = r.raw.clients;
}

start_with-config :
    {Clock : Type 0} (system_clock : Clock) (r : ResolvedConfig) (l : List Signer)
    (seen : List Text)
    → ltb_ℤ (pos 0) r.access_token_ttl ≡ true
    → start_with system_clock r (loaded l seen)
      ≡ started (Config.build_server system_clock (server_config r l)) l
unfolding start_with Builder.set_issuer Builder.set_access_token_ttl Builder.set_active_kid
    Builder.empty_config Builder.build
start_with-config system_clock r l seen h =
    rw (h, add_signers-some _ l, add_clients-some _ r.raw.clients) refl

activatable :
    (kid same : Text) (l : List Signer) (seen : List Text)
    → IsLoading [] l seen
    → same ≡ kid
    → (kid ≡ []) ⊎ (contains seen kid ≡ true)
    → IsActivatable same l
unfolding contains
activatable kid same l seen found e (inl z) = inl (e ∙ z)
activatable kid same l seen found e (inr z) = elim (found.called kid z) [
  | inl c ↦ absurd (ground arith)
  | inr c ↦ inr (ap (λ x. is_called x l) e ∙ c)
]

-- A configuration that was compiled gives a server, if its signers can be loaded: whatever
-- `compileConfig` accepts, `Build` does not refuse, if each signer of the loader has a key id, and
-- trimming the issuer of the compiled configuration changes nothing more.
pub start_server-started :
    {S Clock : Type 0} (system_clock : Clock) (load : SignerLoader S) (st : S)
    (parse_duration : Text → Option ℤ) (to_lower : Text → Text) (input : Wire.Config)
    (r : ResolvedConfig) (l : List Signer) (seen : List Text)
    → Runtime.compile_config parse_duration to_lower input ≡ Runtime.ok r
    → IsNaming load
    → trim_right_slash (trim_space r.raw.issuer) ≡ r.raw.issuer
    → (load_signing_keys load r.raw st).0 ≡ loaded l seen
    → (s : Config.Server Clock) × ((start_server system_clock load r st).0 ≡ started (built s) l)
unfolding start_server load_signing_keys
start_server-started {S} {Clock} system_clock load st parse_duration to_lower input r l seen e named
      normal f =
    let c = compile_config-IsCompiled parse_duration to_lower input r e in
    let (loads, active) =
      check_active-loaded r.raw.active_kid (load_keys load [] (effective_key_configs r.raw) st).0 l
        seen f in
    let (found, count) =
      load_keys-IsLoading load named [] (effective_key_configs r.raw) st l seen loads in
    let cfg = server_config {Clock = Clock} r l in
    let trimmed = ap trim_space c.active_is ∙ trim_space_idem input.active_kid ∙ sym c.active_is in
    let same : map normalize r.raw.clients ≡ r.raw.clients =
      ap (map normalize) c.clients_are ∙ normal_clients input.clients ∙ sym c.clients_are in
    let still =
      ap (λ x. is_nil (trim_right_slash (trim_space x))) normal
      ∙ ap is_nil normal
      ∙ is_nil_of_ne r.raw.issuer c.issuer_given in
    let (s, done) =
      build_server_complete system_clock cfg l still refl (not-nil l (count ∙ c.keys_given))
        found.apart
        (activatable r.raw.active_kid _ l seen found (ap trim_space trimmed ∙ trimmed) active) refl
        (ap is_nil same ∙ given-validate r.raw.clients c.clients_checked)
        (ap (Config.check_clients []) same
          ∙ checked_clients [] r.raw.clients (checked-validate r.raw.clients c.clients_checked)) in
    (
      s,
      ap (start_with system_clock r) f
          ∙ start_with-config system_clock r l seen (ltb_of_le r.access_token_ttl c.ttl)
          ∙ ap (λ x. started x l) done,
    )
