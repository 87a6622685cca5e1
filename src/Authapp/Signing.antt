-- ===== src/Authapp/Signing.antt =====
-- internal/authapp/signing.go and app.go: the signers are loaded, and the server is built. A loader may
-- fail, or give a nil signer.
pub mod Starting
pub mod Loadable
pub mod Repeated
use orionis.Base.{
  ◌≡◌, refl, Bool, true, false, not, ◌&&◌, Option, none, some, List, [], ◌∷◌, map, if◌then◌else◌,
  is_nil,
}
use orionis.Text.{Text, trim_space, contains}
use orionis.Server.Config.{Signer, Built, build_server}
use orionis.Server.Config.Builder
use orionis.Authapp.Config.{KeyConfig, Config}
use orionis.Authapp.Runtime.{ResolvedConfig, effective_key_configs}

pub data Loading : Type 0 where
  signer : Option Signer → Loading
  load_error : Loading

-- A loader, over the state that its calls change.
abbrev pub SignerLoader : Type 0 → Type 0
SignerLoader S = S → KeyConfig → Loading × S

pub data LoadError : Type 0 where
  loader_failed nil_signer active_not_loaded : LoadError
  duplicate_kid : Text → LoadError

-- What the loop finds: the signers, and the map `seen`.
pub data Loaded : Type 0 where
  loaded : List Signer → List Text → Loaded
  not_loaded : LoadError → Loaded

cons_signer : Signer → Loaded → Loaded
cons_signer s (loaded signers seen) = loaded (s ∷ signers) seen
cons_signer s (not_loaded e) = not_loaded e

check_active : Text → Loaded → Loaded
check_active active_kid (not_loaded e) = not_loaded e
check_active active_kid (loaded signers seen) =
    if not (is_nil active_kid) && not (contains seen active_kid)
    then not_loaded active_not_loaded
    else loaded signers seen

module _ {S : Type 0} where
  -- One round of the loop; `rest` is the loop behind it, given the key id that is added to `seen`.
  pub next_signer : (Text → S → Loaded × S) → List Text → Loading × S → Loaded × S
  unfolding cons_signer
  next_signer rest seen (load_error, st) = (not_loaded loader_failed, st)
  next_signer rest seen (signer none, st) = (not_loaded nil_signer, st)
  next_signer rest seen (signer (some s), st) =
      let kid = trim_space s.key_id in
      if contains seen kid
      then (not_loaded (duplicate_kid kid), st)
      else (cons_signer s (rest kid st).0, (rest kid st).1)

  load_keys : SignerLoader S → List Text → List KeyConfig → S → Loaded × S
  load_keys load seen [] st = (loaded [] seen, st)
  load_keys load seen (key ∷ keys) st =
      next_signer (λ kid. load_keys load (kid ∷ seen) keys) seen (load st key)

  unfoldable pub load_signing_keys : SignerLoader S → Config → S → Loaded × S
  unfolding check_active load_keys next_signer
  load_signing_keys load cfg st =
      let r = load_keys load [] (effective_key_configs cfg) st in
      (check_active cfg.active_kid r.0, r.1)

unfoldable pub effective_active_kid : Text → List (Option Signer) → Text
effective_active_kid active_kid [] = trim_space active_kid
effective_active_kid active_kid (none ∷ signers) = trim_space active_kid
effective_active_kid active_kid (some s ∷ signers) =
    if is_nil (trim_space active_kid) then s.key_id else trim_space active_kid

pub data Started (Clock : Type 0) : Type 0 where
  not_started : LoadError → Started Clock
  started : Built Clock → List Signer → Started Clock

module _ {Clock : Type 0} (system_clock : Clock) where
  start_with : ResolvedConfig → Loaded → Started Clock
  start_with cfg (not_loaded e) = not_started e
  start_with cfg (loaded signers seen) =
      let issuer = Builder.set_issuer (some Builder.empty_config) cfg.raw.issuer in
      let ttl = Builder.set_access_token_ttl issuer cfg.access_token_ttl in
      let keys = Builder.add_signers ttl (map some signers) in
      let active = Builder.set_active_kid keys cfg.raw.active_kid in
      started (Builder.build system_clock (Builder.add_clients active cfg.raw.clients)) signers

  -- `buildServer`; the error of `Build` is in what is built.
  unfoldable pub start_server :
      {S : Type 0} → SignerLoader S → ResolvedConfig → S → Started Clock × S
  unfolding start_with
  start_server load cfg st = let r = load_signing_keys load cfg.raw st in (start_with cfg r.0, r.1)
