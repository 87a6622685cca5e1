-- ===== src/Authapp/Signing/Repeated.antt =====
-- A second load of the signing keys, over the state that the first one left.
use orionis.Base.{
  ◌≡◌, inl, inr, refl, sym, ap, subst, ◌∙◌, false, none, some, List, [], ◌∷◌, arith, All,
  Bool-cases,
}
use orionis.Text.{Text, trim_space, contains}
use orionis.Server.Config.{Signer, Built}
use orionis.Authapp.Config.{KeyConfig, Config}
use orionis.Authapp.Runtime.{ResolvedConfig, effective_key_configs}
use orionis.Authapp.Signing.{
  Loading, signer, load_error, SignerLoader, Loaded, loaded, not_loaded, cons_signer, next_signer,
  load_keys, check_active, load_signing_keys, started, start_with, start_server,
}
use orionis.Authapp.Signing.Loadable.{next_signer-some}

-- What a loader leaves in the state, `Stored`, stays there, and another one finds it; `Named` says which
-- keys it is known of.
pub record IsLasting {S : Type 0} (load again : SignerLoader S) (Named : KeyConfig → Type 0)
    (Stored : S → KeyConfig → Signer → Type 0) : Type 0 where
  pub stored :
      (st st' : S) (key : KeyConfig) (s : Signer)
      → Named key
      → load st key ≡ (signer (some s), st')
      → Stored st' key s
  pub kept :
      (st : S) (key other : KeyConfig) (s : Signer)
      → Stored st other s
      → Stored (load st key).1 other s
  pub found :
      (st : S) (key : KeyConfig) (s : Signer)
      → Stored st key s
      → again st key ≡ (signer (some s), st)

cons_signer-loaded :
    (s : Signer) (r : Loaded) (l : List Signer) (seen : List Text)
    → cons_signer s r ≡ loaded l seen
    → (l' : List Signer) × (r ≡ loaded l' seen) × (s ∷ l' ≡ l)
unfolding cons_signer
cons_signer-loaded s (loaded l' seen') l seen e = (l', ground arith, ground arith)
cons_signer-loaded s (not_loaded x) l seen e = absurd (ground arith)

check_active-loaded :
    (active_kid : Text) (r : Loaded) (l : List Signer) (seen : List Text)
    → check_active active_kid r ≡ loaded l seen
    → r ≡ loaded l seen
unfolding check_active
check_active-loaded active_kid (not_loaded x) l seen e = absurd (ground arith)
check_active-loaded active_kid (loaded l' seen') l seen e = ground arith

module _ {S : Type 0} where
  -- A round of the loop that ends well.
  abbrev IsNext :
      (Text → S → Loaded × S) → List Text → Loading × S → List Signer → List Text → S → Type 0
  IsNext rest seen r l seen' st' =
      (s : Signer) × (l' : List Signer) × (r ≡ (signer (some s), r.1))
      × (contains seen (trim_space s.key_id) ≡ false)
      × (rest (trim_space s.key_id) r.1 ≡ (loaded l' seen', st'))
      × (s ∷ l' ≡ l)

  next_signer-IsNext :
      (rest : Text → S → Loaded × S) (seen : List Text) (r : Loading × S) (l : List Signer)
      (seen' : List Text) (st' : S)
      → next_signer rest seen r ≡ (loaded l seen', st')
      → IsNext rest seen r l seen' st'
  unfolding next_signer
  next_signer-IsNext rest seen (load_error, st) l seen' st' e = absurd (ground arith)
  next_signer-IsNext rest seen (signer none, st) l seen' st' e = absurd (ground arith)
  next_signer-IsNext rest seen (signer (some s), st) l seen' st' e =
      elim (Bool-cases (contains seen (trim_space s.key_id))) [
        | inl c ↦ let e = (rw (c, next_signer) at e) in absurd (ground arith)
        | inr c ↦
            let e = (rw (c, next_signer) at e) in
            let (l', r, n) =
              cons_signer-loaded s (rest (trim_space s.key_id) st).0 l seen' (ap (λ x. x.0) e) in
            (
              s,
              l',
              refl,
              c,
              ap (λ x. (x, (rest (trim_space s.key_id) st).1)) r
                  ∙ ap (λ x. (loaded l' seen', x.1)) e,
              n,
            )
      ]

  module _ (load again : SignerLoader S) (Named : KeyConfig → Type 0)
      (Stored : S → KeyConfig → Signer → Type 0) (lasting : IsLasting load again Named Stored) where
    next_signer_keeps :
        (rest : Text → S → Loaded × S) (seen : List Text) (r : Loading × S) (key : KeyConfig)
        (s : Signer)
        → ((kid : Text) (st : S) → Stored st key s → Stored (rest kid st).1 key s)
        → Stored r.1 key s
        → Stored (next_signer rest seen r).1 key s
    unfolding next_signer
    next_signer_keeps rest seen (load_error, st) key s k h = h
    next_signer_keeps rest seen (signer none, st) key s k h = h
    next_signer_keeps rest seen (signer (some t), st) key s k h =
        elim (Bool-cases (contains seen (trim_space t.key_id))) [
          | inl c ↦ rw c h
          | inr c ↦ rw c (k (trim_space t.key_id) st h)
        ]

    load_keys_keeps :
        (seen : List Text) (keys : List KeyConfig) (st : S) (key : KeyConfig) (s : Signer)
        → Stored st key s
        → Stored (load_keys load seen keys st).1 key s
    unfolding load_keys
    load_keys_keeps seen [] st key s h = h
    load_keys_keeps seen (other ∷ keys) st key s h =
        next_signer_keeps (λ kid. load_keys load (kid ∷ seen) keys) seen (load st other) key s
          (λ kid st h. load_keys_keeps (kid ∷ seen) keys st key s h) (lasting.kept st other key s h)

    load_keys-again :
        (seen : List Text) (keys : List KeyConfig) (st : S) (l : List Signer) (seen' : List Text)
        (st' : S)
        → All Named keys
        → load_keys load seen keys st ≡ (loaded l seen', st')
        → load_keys again seen keys st' ≡ (loaded l seen', st')
    unfolding load_keys
    load_keys-again seen [] st l seen' st' a e = ap (λ x. (x.0, st')) e
    load_keys-again seen (key ∷ keys) st l seen' st' (n, a) e =
        let (s, l', r, c, f, m) =
          next_signer-IsNext (λ kid. load_keys load (kid ∷ seen) keys) seen (load st key) l seen'
            st' e in
        let kid = trim_space s.key_id in
        let stored = lasting.stored st (load st key).1 key s n r in
        let kept : Stored st' key s =
          subst (λ x. Stored x key s) (ap (λ x. x.1) f)
            (load_keys_keeps (kid ∷ seen) keys (load st key).1 key s stored) in
        rw (lasting.found st' key s kept) (
          next_signer-some again st' (λ k. load_keys again (k ∷ seen) keys) seen s kid l' seen' refl
            c (load_keys-again (kid ∷ seen) keys (load st key).1 l' seen' st' a f)
          ∙ ap (λ x. (loaded x seen', st')) m)

    -- Signing keys that were loaded are loaded again, from the state that was left, and that stays as it is.
    pub load_signing_keys-again :
        (cfg : Config) (st : S) (l : List Signer) (seen : List Text) (st' : S)
        → All Named (effective_key_configs cfg)
        → load_signing_keys load cfg st ≡ (loaded l seen, st')
        → load_signing_keys again cfg st' ≡ (loaded l seen, st')
    unfolding load_signing_keys
    load_signing_keys-again cfg st l seen st' a e =
        let keys = effective_key_configs cfg in
        let r = load_keys load [] keys st in
        let first = check_active-loaded cfg.active_kid r.0 l seen (ap (λ x. x.0) e) in
        let loads : r ≡ (loaded l seen, st') =
          (ap (λ x. (x, r.1)) first ∙ ap (λ x. (loaded l seen, x.1)) e) in
        rw (load_keys-again [] keys st l seen st' a loads)
          (ap (λ x. (x, st')) (ap (check_active cfg.active_kid) (sym first) ∙ ap (λ x. x.0) e))

    module _ {Clock : Type 0} (system_clock : Clock) where
      start_with-loaded :
          (cfg : ResolvedConfig) (r : Loaded) (server : Built Clock) (signers : List Signer)
          → start_with system_clock cfg r ≡ started server signers
          → (l : List Signer) × (seen : List Text) × (r ≡ loaded l seen)
      unfolding start_with
      start_with-loaded cfg (not_loaded x) server signers e = absurd (ground arith)
      start_with-loaded cfg (loaded l seen) server signers e = (l, seen, refl)

      -- A server that was started is started again with the same signers, and the state stays as it is.
      pub start_server-again :
          (cfg : ResolvedConfig) (st : S) (server : Built Clock) (signers : List Signer) (st' : S)
          → All Named (effective_key_configs cfg.raw)
          → start_server system_clock load cfg st ≡ (started server signers, st')
          → start_server system_clock again cfg st' ≡ (started server signers, st')
      unfolding start_server
      start_server-again cfg st server signers st' a e =
          let r = load_signing_keys load cfg.raw st in
          let (l, seen, first) = start_with-loaded cfg r.0 server signers (ap (λ x. x.0) e) in
          let loads : r ≡ (loaded l seen, st') =
            (ap (λ x. (x, r.1)) first ∙ ap (λ x. (loaded l seen, x.1)) e) in
          rw (load_signing_keys-again cfg.raw st l seen st' a loads)
            (ap (λ x. (x, st')) (ap (start_with system_clock cfg) (sym first) ∙ ap (λ x. x.0) e))
