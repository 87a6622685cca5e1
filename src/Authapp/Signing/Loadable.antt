-- ===== src/Authapp/Signing/Loadable.antt =====
-- The keys that a configuration may name can be loaded together, if each of them can.
use orionis.Base.{
  ◌≡◌, inl, inr, refl, ap, ◌∙◌, true, false, not, ◌||◌, none, some, List, [], ◌∷◌, arith, All,
  Bool-cases, is_nil,
}
use orionis.Text.{Text, trim_space, contains}
use orionis.Text.Order.{text_eq_iff}
use orionis.Server.Config.{Signer}
use orionis.Authapp.Config.{KeyConfig, Config}
use orionis.Authapp.Runtime.{
  legacy_key_id, check_kids, validate_signing_config, effective_key_configs,
}
use orionis.Authapp.Signing.{
  signer, SignerLoader, Loaded, loaded, cons_signer, next_signer, load_keys, check_active,
  load_signing_keys,
}

-- The loader gives a signer for the key, with its key id, and changes nothing.
abbrev pub Gives : {S : Type 0} → SignerLoader S → S → KeyConfig → Type 0
Gives load st key =
    (s : Signer) × (load st key ≡ (signer (some s), st)) × (trim_space s.key_id ≡ legacy_key_id key)

legacy_key_id-given :
    (key : KeyConfig) → is_nil (trim_space key.kid) ≡ false → legacy_key_id key ≡ trim_space key.kid
unfolding legacy_key_id
legacy_key_id-given key e = ground arith

check_kids-cons :
    (active_kid : Text) (seen : List Text) (key : KeyConfig) (keys : List KeyConfig)
    → check_kids active_kid seen (key ∷ keys) ≡ none
    → (is_nil (trim_space key.kid) ≡ false)
      × (contains seen (trim_space key.kid) ≡ false)
      × (check_kids active_kid (trim_space key.kid ∷ seen) keys ≡ none)
unfolding check_kids
check_kids-cons active_kid seen key keys e = (ground arith, ground arith, ground arith)

active-legacy :
    (cfg : Config)
    → trim_space cfg.active_kid ≡ cfg.active_kid
    → (cfg.keys_set || not (is_nil cfg.keys)) ≡ false
    → validate_signing_config cfg ≡ none
    → (is_nil cfg.active_kid || contains (legacy_key_id cfg.key ∷ []) cfg.active_kid) ≡ true
unfolding validate_signing_config contains
active-legacy cfg t k e = ground (
  arith,
  t,
  text_eq_iff cfg.active_kid (legacy_key_id cfg.key),
  text_eq_iff (legacy_key_id cfg.key) cfg.active_kid,
)

module _ {S : Type 0} (load : SignerLoader S) (st : S) where
  pub next_signer-some :
      (rest : Text → S → Loaded × S) (seen : List Text) (s : Signer) (kid : Text) (l : List Signer)
      (seen' : List Text)
      → trim_space s.key_id ≡ kid
      → contains seen kid ≡ false
      → rest kid st ≡ (loaded l seen', st)
      → next_signer rest seen (signer (some s), st) ≡ (loaded (s ∷ l) seen', st)
  unfolding next_signer cons_signer
  next_signer-some rest seen s kid l seen' e c r = rw (e, c, r) refl

  load_keys-loaded :
      (active_kid : Text) (seen : List Text) (keys : List KeyConfig)
      → All (Gives load st) keys
      → check_kids active_kid seen keys ≡ none
      → (l : List Signer) × (seen' : List Text) × (load_keys load seen keys st
          ≡ (loaded l seen', st))
        × ((is_nil active_kid || contains seen' active_kid) ≡ true)
  unfolding load_keys check_kids
  load_keys-loaded active_kid seen [] a e = ([], seen, refl, ground arith)
  load_keys-loaded active_kid seen (key ∷ keys) ((s, g, n), a) e =
      let (given, fresh, later) = check_kids-cons active_kid seen key keys e in
      let kid = trim_space key.kid in
      let (l, seen', r, f) = load_keys-loaded active_kid (kid ∷ seen) keys a later in
      (
        s ∷ l,
        seen',
        rw g (
            next_signer-some (λ k. load_keys load (k ∷ seen) keys) seen s kid l seen'
              (n ∙ legacy_key_id-given key given) fresh r),
        f,
      )

  load_one :
      (key : KeyConfig)
      → Gives load st key
      → (s : Signer) × (load_keys load [] (key ∷ []) st
          ≡ (loaded (s ∷ []) (legacy_key_id key ∷ []), st))
  unfolding load_keys contains
  load_one key (s, g, n) = (
    s,
    rw g (
        next_signer-some (λ k. load_keys load (k ∷ []) []) [] s (legacy_key_id key) []
          (legacy_key_id key ∷ []) n refl refl),
  )

  check_active-some :
      (active_kid : Text) (l : List Signer) (seen : List Text)
      → (is_nil active_kid || contains seen active_kid) ≡ true
      → check_active active_kid (loaded l seen) ≡ loaded l seen
  unfolding check_active
  check_active-some active_kid l seen e = ground arith

  -- The keys are loaded, and the active key id, if any, is among theirs.
  abbrev Loads : Config → List KeyConfig → Type 0
  Loads cfg keys =
      (l : List Signer) × (seen : List Text) × (load_keys load [] keys st ≡ (loaded l seen, st))
      × ((is_nil cfg.active_kid || contains seen cfg.active_kid) ≡ true)

  effective_key_configs-Loads :
      (cfg : Config)
      → trim_space cfg.active_kid ≡ cfg.active_kid
      → validate_signing_config cfg ≡ none
      → All (Gives load st) (effective_key_configs cfg)
      → Loads cfg (effective_key_configs cfg)
  unfolding effective_key_configs validate_signing_config
  effective_key_configs-Loads cfg t e a =
      elim (Bool-cases (cfg.keys_set || not (is_nil cfg.keys))) [
        | inl k ↦ rw k (load_keys-loaded cfg.active_kid [] cfg.keys (rw k at a) (ground (arith, t)))
        | inr k ↦
            let a : All (Gives load st) (cfg.key ∷ []) = (rw k at a) in
            let (s, r) = load_one cfg.key a.0 in
            rw k (s ∷ [], legacy_key_id cfg.key ∷ [], r, active-legacy cfg t k e)
      ]

  -- The signing keys of a configuration that is validated are loaded, if the loader gives a signer with
  -- its key id for each of them.
  pub load_signing_keys-loaded :
      (cfg : Config)
      → trim_space cfg.active_kid ≡ cfg.active_kid
      → validate_signing_config cfg ≡ none
      → All (Gives load st) (effective_key_configs cfg)
      → (l : List Signer) × (seen : List Text) × (load_signing_keys load cfg st
          ≡ (loaded l seen, st))
  unfolding load_signing_keys
  load_signing_keys-loaded cfg t e a =
      let (l, seen, r, f) = effective_key_configs-Loads cfg t e a in
      (
        l,
        seen,
        ap (λ x. (check_active cfg.active_kid x.0, x.1)) r
            ∙ ap (λ x. (x, st)) (check_active-some cfg.active_kid l seen f),
      )
