-- ===== src/Authapp/App/Starting.antt =====
-- A configuration that is resolved gives a running application.
use orionis.Base.{
  ℕ, ◌≡◌, inl, inr, refl, sym, ap, subst, ◌∙◌, Option, none, some, List, [], ◌∷◌, map, arith, All,
  is_nil, first_error, Bool-cases, false, not, ◌&&◌,
}
use orionis.Base.Int.{ℤ}
use orionis.Text.{Text, trim_space, trim_right_slash}
use orionis.Text.Trim.{trim_space_idem}
use orionis.Jwk.Key.{Codec}
use orionis.Jwk.Ed25519.{Files, Crypto, default_kid}
use orionis.Jwk.Ed25519.Creating.{IsCrypto, IsGenerated, trim_space-default_kid}
use orionis.Authapp.Config.{KeyConfig}
use orionis.Authapp.Config as Wire
use orionis.Authapp.Runtime.{
  ConfigError, ResolvedConfig, ok, compile_config, legacy_key_id, effective_key_configs,
  normalize_key_config, validate_key_source_config,
}
use orionis.Authapp.Runtime.Compiled.{compile_config-IsCompiled, >>=-ok, >>-ok}
use orionis.Authapp.Signing.{start_server}
use orionis.Authapp.Signing.Loadable.{Gives, load_signing_keys-loaded}
use orionis.Authapp.Signing.Starting.{start_server-started}
use orionis.Authapp.Materials.{
  System, check_env, check_path, validate_key_materials, resolve_config, as_signer, load_signer,
}
use orionis.Authapp.Materials.Naming.{load_signer-IsLoaded, load_signer-IsNaming}
use orionis.Authapp.Materials.Validated.{IsPresent, IsSourced, load_signer-validated}
use orionis.Authapp.App.{Runtime, made, made_of, with_server, of_resolved, new_runtime, new}

normalized-IsSourced :
    (key : KeyConfig)
    → (not (is_nil (trim_space (normalize_key_config key).private_key_path))
        && not (is_nil (trim_space (normalize_key_config key).private_key_pem_env)))
      ≡ false
    → IsSourced (normalize_key_config key)
unfolding normalize_key_config
normalized-IsSourced key e = record {
  path_trimmed = trim_space_idem key.private_key_path;
  env_trimmed = trim_space_idem key.private_key_pem_env;
  one_source =
      rw (trim_space_idem key.private_key_path, trim_space_idem key.private_key_pem_env) at e;
}

all-IsSourced :
    (keys : List KeyConfig)
    → validate_key_source_config (map normalize_key_config keys) ≡ none
    → All IsSourced (map normalize_key_config keys)
unfolding validate_key_source_config
all-IsSourced [] e = tt
all-IsSourced (key ∷ keys) e =
    elim (Bool-cases (
      not (is_nil (trim_space (normalize_key_config key).private_key_path))
      && not (is_nil (trim_space (normalize_key_config key).private_key_pem_env)))) [
        | inl k ↦ absurd (ground arith)
        | inr k ↦ (
          normalized-IsSourced key k,
          all-IsSourced keys (rw (k, validate_key_source_config) at e),
        )
      ]

default_kid-legacy : (key : KeyConfig) → default_kid key.kid ≡ legacy_key_id key
unfolding default_kid legacy_key_id
default_kid-legacy key = refl

first_error-none : (a b : Option ConfigError) → first_error a b ≡ none → (a ≡ none) × (b ≡ none)
first_error-none none b e = (refl, e)
first_error-none (some x) b e = absurd (ground arith)

module _ (crypto : Crypto) (lawful : IsCrypto crypto) (codec : Codec) (system : System) (F : Files)
    (generated : KeyConfig → Option (List ℕ))
    (sizes : (key : KeyConfig) → IsGenerated crypto (generated key)) where
  load_signer-Gives :
      (disk : F.State) (key : KeyConfig)
      → IsSourced key
      → IsPresent system F disk key
      → check_env crypto system key ≡ none
      → check_path crypto system F disk key ≡ none
      → Gives (load_signer crypto codec system F generated) disk key
  unfolding as_signer
  load_signer-Gives disk key i p v w =
      let (s, e) = load_signer-validated crypto codec system F generated disk key i p v w in
      let (t, a, n) =
        load_signer-IsLoaded crypto codec lawful system F generated sizes disk key
          (as_signer crypto codec s) (ap (λ x. x.0) e) in
      (
        as_signer crypto codec s,
        e,
        ap (λ x. trim_space x.key_id) (sym a)
            ∙ ap trim_space n.kid_is
            ∙ trim_space-default_kid key.kid
            ∙ default_kid-legacy key,
      )

  validated-cons :
      (disk : F.State) (key : KeyConfig) (keys : List KeyConfig)
      → validate_key_materials crypto system F disk (key ∷ keys) ≡ none
      → (check_env crypto system key ≡ none)
        × (check_path crypto system F disk key ≡ none)
        × (validate_key_materials crypto system F disk keys ≡ none)
  unfolding validate_key_materials
  validated-cons disk key keys e =
      let (v, rest) = first_error-none (check_env crypto system key) _ e in
      let (w, later) = first_error-none (check_path crypto system F disk key) _ rest in
      (v, w, later)

  all-Gives :
      (disk : F.State) (keys : List KeyConfig)
      → All IsSourced keys
      → All (IsPresent system F disk) keys
      → validate_key_materials crypto system F disk keys ≡ none
      → All (Gives (load_signer crypto codec system F generated) disk) keys
  all-Gives disk [] i p e = tt
  all-Gives disk (key ∷ keys) (i, is) (p, ps) e =
      let (v, w, later) = validated-cons disk key keys e in
      (load_signer-Gives disk key i p v w, all-Gives disk keys is ps later)

  resolved :
      (parse_duration : Text → Option ℤ) (to_lower : Text → Text) (disk : F.State)
      (input : Wire.Config) (r : ResolvedConfig)
      → resolve_config crypto system F parse_duration to_lower disk input ≡ ok r
      → (compile_config parse_duration to_lower input ≡ ok r)
        × (validate_key_materials crypto system F disk (effective_key_configs r.raw) ≡ none)
  unfolding resolve_config
  resolved parse_duration to_lower disk input r e =
      let (x, c, f) = >>=-ok (compile_config parse_duration to_lower input) _ r e in
      let (v, g) =
        >>-ok (validate_key_materials crypto system F disk (effective_key_configs x.raw)) _ r f in
      let same : x ≡ r = ground arith in
      (
        c ∙ ap (λ y. ok y) same,
        subst
            (λ y. validate_key_materials crypto system F disk (effective_key_configs y.raw) ≡ none)
            same v,
      )

  -- `New` succeeds for every configuration that is resolved, which it keeps, and leaves the disk as it is,
  -- if the material of each key is there, generated keys have their size, and trimming the issuer of the
  -- resolved configuration changes nothing more: no key is refused behind the validation, nor any client
  -- or key id.
  pub new-made :
      {Clock : Type 0} (system_clock : Clock) (parse_duration : Text → Option ℤ)
      (to_lower : Text → Text) (disk : F.State) (input : Wire.Config) (r : ResolvedConfig)
      → resolve_config crypto system F parse_duration to_lower disk input ≡ ok r
      → All (IsPresent system F disk) (effective_key_configs r.raw)
      → trim_right_slash (trim_space r.raw.issuer) ≡ r.raw.issuer
      → (app : Runtime Clock) × (new system_clock crypto codec system F generated parse_duration
            to_lower input disk
          ≡ (made app, disk))
        × (app.cfg ≡ r)
  unfolding new new_runtime start_server of_resolved made_of with_server
  new-made {Clock} system_clock parse_duration to_lower disk input r e p issuer =
      let load = load_signer crypto codec system F generated in
      let (c, v) = resolved parse_duration to_lower disk input r e in
      let i = compile_config-IsCompiled parse_duration to_lower input r c in
      let sourced : All IsSourced (effective_key_configs r.raw) =
        subst (All IsSourced) (sym i.keys_are) (
          all-IsSourced (effective_key_configs input)
            (ap validate_key_source_config (sym i.keys_are) ∙ i.sources_checked)) in
      let trimmed =
        ap trim_space i.active_is ∙ trim_space_idem input.active_kid ∙ sym i.active_is in
      let (l, seen, k) =
        load_signing_keys-loaded load disk r.raw trimmed i.signing_checked
          (all-Gives disk (effective_key_configs r.raw) sourced p v) in
      let (server, s) =
        start_server-started {Clock = Clock} system_clock load disk parse_duration to_lower input r
          l seen c (load_signer-IsNaming crypto codec lawful system F generated sizes) issuer
          (ap (λ x. x.0) k) in
      (
        record { cfg = r; auth = server; signers = l },
        ap (λ x. of_resolved system_clock x load disk) e
            ∙ ap (λ x. (made_of r x, (start_server system_clock load r disk).1)) s
            ∙ ap (λ x. (made (record { cfg = r; auth = server; signers = l }), x.1)) k,
        refl,
      )
