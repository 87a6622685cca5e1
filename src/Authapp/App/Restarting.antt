-- ===== src/Authapp/App/Restarting.antt =====
-- A second start of the application, on the disk that the first one left.
use orionis.Base.{ℕ, ◌≡◌, refl, ap, sym, ◌∙◌, Option, List, arith, All}
use orionis.Jwk.Key.{Codec}
use orionis.Jwk.Ed25519.{Files, Crypto}
use orionis.Jwk.Ed25519.Creating.{IsCrypto, IsFiles, IsGenerated}
use orionis.Server.Config.{Signer, Built}
use orionis.Authapp.Config.{KeyConfig}
use orionis.Authapp.Runtime.{ResolvedConfig, effective_key_configs}
use orionis.Authapp.Signing.{Started, not_started, started, start_server}
use orionis.Authapp.Signing.Repeated.{start_server-again}
use orionis.Authapp.Materials.{System, load_signer}
use orionis.Authapp.Materials.Restart.{IsNamed, load_signer-IsLasting}
use orionis.Authapp.App.{Runtime, made, made_of, new_runtime}

made_of-started :
    {Clock : Type 0} (cfg : ResolvedConfig) (s : Started Clock) (app : Runtime Clock)
    → made_of cfg s ≡ made app
    → (server : Built Clock) × (signers : List Signer) × (s ≡ started server signers)
unfolding made_of
made_of-started cfg (not_started x) app e = absurd (ground arith)
made_of-started cfg (started server signers) app e = (server, signers, refl)

-- An application that was made from a configuration, with keys created where they were missing, is made
-- again with the same signers from the same configuration and the disk that was left, whatever keys
-- would be generated then, and that disk stays as it is, if each key of the configuration names a file
-- or a variable of the environment, generated keys are made from seeds, and the disk and the coding
-- of keys keep their laws: what is written is read, and what is encoded is decoded.
pub new_runtime-again :
    {Clock : Type 0} (system_clock : Clock) (crypto : Crypto) (lawful : IsCrypto crypto)
    (codec : Codec) (system : System) (F : Files) (disks : IsFiles F)
    (generated later : KeyConfig → Option (List ℕ))
    → ((key : KeyConfig) → IsGenerated crypto (generated key))
    → (cfg : ResolvedConfig) (disk disk' : F.State) (app : Runtime Clock)
    → All (IsNamed system) (effective_key_configs cfg.raw)
    → new_runtime system_clock cfg (load_signer crypto codec system F generated) disk
      ≡ (made app, disk')
    → new_runtime system_clock cfg (load_signer crypto codec system F later) disk'
      ≡ (made app, disk')
unfolding new_runtime
new_runtime-again system_clock crypto lawful codec system F disks generated later sized cfg disk
      disk' app a e =
    let load = load_signer crypto codec system F generated in
    let again = load_signer crypto codec system F later in
    let r = start_server system_clock load cfg disk in
    let (server, signers, first) = made_of-started cfg r.0 app (ap (λ x. x.0) e) in
    let starts : r ≡ (started server signers, disk') =
      (ap (λ x. (x, r.1)) first ∙ ap (λ x. (started server signers, x.1)) e) in
    rw
      (start_server-again load again (IsNamed system) _
        (load_signer-IsLasting crypto codec system F disks generated lawful sized later)
        system_clock cfg disk server signers disk' a starts)
      (ap (λ x. (x, disk')) (ap (made_of cfg) (sym first) ∙ ap (λ x. x.0) e))
