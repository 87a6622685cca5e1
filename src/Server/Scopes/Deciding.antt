-- ===== src/Server/Scopes/Deciding.antt =====
-- Which requests are answered in full, and which are refused.

use orionis.Base.{
  ◌≡◌, inl, inr, refl, ap, ◌∙◌, false, none, some, List, [], ◌∷◌, ◌++◌, arith, Bool-cases,
  Option-cases, All, Has, append_assoc, append-nil,
}
use orionis.Text.{Text}
use orionis.Scopes.{normalize_scopes, contains_scope_wildcard, validate_scope_wildcard}
use orionis.Scopes.Granting.{Grants}
use orionis.Server.Scopes.{
  is_scope_allowed, contains_invalid_scope_wildcard, resolve_one, resolve_loop,
  resolve_requested_scopes,
}
use orionis.Server.Scopes.Resolving.{Grants-of_allowed, allowed_of_Grants}

-- A plain scope that is allowed.
abbrev IsPlainAllowed : List Text → Text → Type 0
IsPlainAllowed allowed s = (contains_scope_wildcard s ≡ false) × Grants allowed s

plain_valid :
    (allowed ss : List Text)
    → All (IsPlainAllowed allowed) ss
    → contains_invalid_scope_wildcard ss ≡ false
unfolding contains_invalid_scope_wildcard validate_scope_wildcard
plain_valid allowed [] h = refl
plain_valid allowed (s ∷ ss) (p, h) = rw p.0 (plain_valid allowed ss h)

resolve_one_plain :
    (s : Text) (allowed : List Text)
    → IsPlainAllowed allowed s
    → resolve_one s allowed ≡ some (s ∷ [])
unfolding resolve_one
resolve_one_plain s allowed (p, g) = rw (p, allowed_of_Grants s allowed g)

resolve_loop_plain :
    (allowed ss issued : List Text)
    → All (IsPlainAllowed allowed) ss
    → resolve_loop ss allowed issued ≡ some (issued ++ ss)
unfolding resolve_loop
resolve_loop_plain allowed [] issued h = rw append-nil
resolve_loop_plain allowed (s ∷ ss) issued (p, h) =
    rw (resolve_one_plain s allowed p, resolve_loop)
      (resolve_loop_plain allowed ss (issued ++ s ∷ []) h
        ∙ ap some (append_assoc issued (s ∷ []) ss))

-- A request of scopes without wildcard, each granted by an allowed scope, is issued as it stands, in
-- normal form.
pub resolve_complete :
    (requested allowed : List Text)
    → All (λ s. (contains_scope_wildcard s ≡ false) × Grants allowed s) requested
    → resolve_requested_scopes requested allowed ≡ some (normalize_scopes requested)
unfolding resolve_requested_scopes
resolve_complete requested allowed h =
    rw (plain_valid allowed requested h, resolve_loop_plain allowed requested [] h)

refused_loop :
    (s : Text) (allowed rest issued : List Text)
    → resolve_one s allowed ≡ none
    → Has s rest
    → resolve_loop rest allowed issued ≡ none
unfolding resolve_loop
refused_loop s allowed [] issued e m = absurd m
refused_loop s allowed (r ∷ rest) issued e (inl k) =
    rw (ap (λ u. resolve_one u allowed) k ∙ e, resolve_loop)
refused_loop s allowed (r ∷ rest) issued e (inr m) = elim (Option-cases (resolve_one r allowed)) [
  | inl k ↦ rw (k, resolve_loop)
  | inr (granted, k) ↦ rw (k, resolve_loop) (refused_loop s allowed rest (issued ++ granted) e m)
]

refused_one :
    (s : Text) (allowed : List Text)
    → contains_scope_wildcard s ≡ false
    → ¬ Grants allowed s
    → resolve_one s allowed ≡ none
unfolding resolve_one
refused_one s allowed p n = elim (Bool-cases (is_scope_allowed s allowed)) [
  | inl k ↦ absurd (n (Grants-of_allowed s allowed k))
  | inr k ↦ rw (p, k)
]

-- A request that names a scope without wildcard that no allowed scope grants is refused as a whole.
pub resolve_refuses :
    (requested allowed : List Text) (s : Text)
    → Has s requested
    → contains_scope_wildcard s ≡ false
    → ¬ Grants allowed s
    → resolve_requested_scopes requested allowed ≡ none
unfolding resolve_requested_scopes
resolve_refuses requested allowed s m p n =
    rw (refused_loop s allowed requested [] (refused_one s allowed p n) m) (ground arith)
