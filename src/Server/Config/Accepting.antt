-- ===== src/Server/Config/Accepting.antt =====
-- Which configurations a server is built from.
use orionis.Base.{
  ◌≡◌, ◌≢◌, ◌⊎◌, inl, inr, refl, sym, ap, subst, ◌∙◌, Bool, true, false, ◌||◌, Option, none, some,
  List, [], ◌∷◌, map, arith, Bool-cases, if◌then◌else◌, is_nil, is_some,
}
use orionis.Text.{Text, text_eq, trim_space, trim_right_slash, contains}
use orionis.Server.Client.{normalize}
use orionis.Server.Config.{
  Signer, Config, scanned, active_is, scan_signers, choose_active, check_clients, check_store,
  validate_config, choose_scanned, normalize_config, finish, server_of, Server, built, build_server,
}

-- The signers have key ids, none of which is in `seen` or stands twice.
abbrev pub IsApart : List Text → List Signer → Type 0
IsApart seen [] = Unit {0}
IsApart seen (s ∷ l) =
    (is_nil (trim_space s.key_id) ≡ false)
    × (contains seen (trim_space s.key_id) ≡ false)
    × IsApart (trim_space s.key_id ∷ seen) l

-- Whether one of the signers has the key id.
abbrev pub is_called : Text → List Signer → Bool
is_called kid [] = false
is_called kid (s ∷ l) = text_eq kid (trim_space s.key_id) || is_called kid l

-- The signer that the scan holds at its end.
last_called : Text → Option Signer → List Signer → Option Signer
last_called kid active [] = active
last_called kid active (s ∷ l) =
    last_called kid (if text_eq kid (trim_space s.key_id) then some s else active) l

scan-apart :
    (kid : Text) (seen : List Text) (active : Option Signer) (l : List Signer)
    → IsApart seen l
    → scan_signers kid seen active (map some l) ≡ scanned (last_called kid active l)
unfolding scan_signers last_called
scan-apart kid seen active [] a = refl
scan-apart kid seen active (s ∷ l) (n, u, a) =
    rw (n, u)
      (scan-apart kid (trim_space s.key_id ∷ seen)
        (if text_eq kid (trim_space s.key_id) then some s else active) l a)

last_called-kept :
    (kid : Text) (s : Signer) (l : List Signer)
    → (a : Signer) × (last_called kid (some s) l ≡ some a)
unfolding last_called
last_called-kept kid s [] = (s, refl)
last_called-kept kid s (t ∷ l) = elim (Bool-cases (text_eq kid (trim_space t.key_id))) [
  | inl e ↦ rw e (last_called-kept kid t l)
  | inr e ↦ rw e (last_called-kept kid s l)
]

last_called-some :
    (kid : Text) (o : Option Signer) (l : List Signer)
    → is_called kid l ≡ true
    → (a : Signer) × (last_called kid o l ≡ some a)
unfolding last_called
last_called-some kid o [] h = absurd (ground arith)
last_called-some kid o (t ∷ l) h = elim (Bool-cases (text_eq kid (trim_space t.key_id))) [
  | inl e ↦ rw e (last_called-kept kid t l)
  | inr e ↦ rw e (last_called-some kid o l (ground arith))
]

-- Without a key id to look for, none is found.
last_called-none :
    (seen : List Text) (o : Option Signer) (l : List Signer)
    → IsApart seen l
    → last_called [] o l ≡ o
unfolding last_called is_nil text_eq
last_called-none seen o [] a = refl
last_called-none seen o (s ∷ l) (n, u, a) =
    let other : text_eq [] (trim_space s.key_id) ≡ false = other_name (trim_space s.key_id) n in
    rw other (last_called-none (trim_space s.key_id ∷ seen) o l a)
  where
    other_name : (k : Text) → is_nil k ≡ false → text_eq [] k ≡ false
    other_name [] e = absurd (ground arith)
    other_name (c ∷ k) e = refl

abbrev pub IsActivatable : Text → List Signer → Type 0
IsActivatable kid l = (kid ≡ []) ⊎ (is_called kid l ≡ true)

chosen :
    (kid : Text) (l : List Signer)
    → l ≢ []
    → IsApart [] l
    → IsActivatable kid l
    → (a : Signer) × (choose_active kid (last_called kid none l) (map some l) ≡ active_is a)
unfolding choose_active is_nil
chosen kid [] n a h = absurd (n refl)
chosen kid (s ∷ l) n a (inl e) = (
  s,
  subst (λ k. choose_active k (last_called k none (s ∷ l)) (map some (s ∷ l)) ≡ active_is s) (sym e)
      (rw (last_called-none [] none (s ∷ l) a) refl),
)
chosen kid (s ∷ l) n a (inr h) = let (t, e) = last_called-some kid none (s ∷ l) h in (t, rw e refl)

map-some : (l : List Signer) → l ≢ [] → is_nil (map {A = Signer} {B = Option Signer} some l) ≡ false
unfolding is_nil
map-some [] n = absurd (n refl)
map-some (s ∷ l) n = refl

module _ {Clock : Type 0} where
  pub validate_config_complete :
      (cfg : Config Clock) (l : List Signer)
      → is_nil cfg.issuer ≡ false
      → cfg.signers ≡ map some l
      → l ≢ []
      → IsApart [] l
      → IsActivatable cfg.active_kid l
      → cfg.store ≡ none
      → is_nil cfg.clients ≡ false
      → check_clients [] cfg.clients ≡ none
      → (a : Signer) × (validate_config cfg ≡ active_is a)
  unfolding validate_config check_store is_some
  validate_config_complete cfg l i s n apart active none_given c checked =
      let (a, e) = chosen cfg.active_kid l n apart active in
      let kid = cfg.active_kid in
      let scan : choose_scanned kid cfg.signers (scan_signers kid [] none cfg.signers)
          ≡ active_is a =
        subst (λ x. choose_scanned kid x (scan_signers kid [] none x) ≡ active_is a) (sym s)
          (rw (scan-apart kid [] none l apart) e) in
      let some_signer : is_nil cfg.signers ≡ false = ap is_nil s ∙ map-some l n in
      let store : check_store cfg ≡ none = rw (none_given, c) checked in
      (a, ground (arith, i, some_signer, scan, store))

  -- A server is built from a configuration without a store whose issuer is not blank, whose signers
  -- have different key ids, with the active one among them if one is named, and whose clients pass the
  -- checks and have different ids.
  pub build_server_complete :
      (system_clock : Clock) (cfg : Config Clock) (l : List Signer)
      → is_nil (trim_right_slash (trim_space cfg.issuer)) ≡ false
      → cfg.signers ≡ map some l
      → l ≢ []
      → IsApart [] l
      → IsActivatable (trim_space cfg.active_kid) l
      → cfg.store ≡ none
      → is_nil (map normalize cfg.clients) ≡ false
      → check_clients [] (map normalize cfg.clients) ≡ none
      → (s : Server Clock) × (build_server system_clock cfg ≡ built s)
  unfolding build_server normalize_config finish
  build_server_complete system_clock cfg l i s n apart active none_given c checked =
      let normal = normalize_config system_clock cfg in
      let (a, e) = validate_config_complete normal l i s n apart active none_given c checked in
      (server_of system_clock normal a, rw e refl)
