-- ===== src/Server/Scopes.antt =====
-- server/scopes.go: which of the requested scopes a client is given.
pub mod Resolving
pub mod Deciding
use orionis.Base.{
  ℕ, ◌≡◌, refl, Bool, true, false, not, ◌&&◌, ◌||◌, Option, none, some, List, [], ◌∷◌, ◌++◌,
  if◌then◌else◌, is_nil,
}
use mathlib.Core.Option
use orionis.Text.{Text, codes, trim_space, contains}
use orionis.Scopes.{
  normalize_scopes, scope_covers, contains_scope_wildcard, validate_scope_wildcard,
}

-- `contains` of the package: the needle is trimmed.
unfoldable pub contains_item : List Text → Text → Bool
contains_item items needle = contains items (trim_space needle)

unfoldable pub is_scope_allowed : Text → List Text → Bool
is_scope_allowed requested [] = false
is_scope_allowed requested (pattern' ∷ allowed) =
    scope_covers pattern' requested || is_scope_allowed requested allowed

-- The loop of `expandWildcardScopeRequest`.
pub expand_loop : Text → List Text → List Text
expand_loop requested [] = []
expand_loop requested (scope ∷ allowed) =
    if not (contains_scope_wildcard scope) && scope_covers requested scope
    then scope ∷ expand_loop requested allowed
    else expand_loop requested allowed

unfoldable pub expand_wildcard_scope_request : Text → List Text → List Text
unfolding expand_loop
expand_wildcard_scope_request requested allowed = normalize_scopes (expand_loop requested allowed)

unfoldable pub contains_invalid_scope_wildcard : List Text → Bool
contains_invalid_scope_wildcard [] = false
contains_invalid_scope_wildcard (scope ∷ scopes) =
    not (validate_scope_wildcard scope) || contains_invalid_scope_wildcard scopes

-- One round of the loop of `resolveRequestedScopes`: what is appended to `issued`, if the round does
-- not return false.
pub resolve_one : Text → List Text → Option (List Text)
resolve_one scope allowed =
    if contains_scope_wildcard scope
    then (if is_nil (expand_wildcard_scope_request scope allowed)
        then none
        else some (expand_wildcard_scope_request scope allowed))
    else if not (is_scope_allowed scope allowed)
    then none
    else some (scope ∷ [])

pub resolve_loop : List Text → List Text → List Text → Option (List Text)
resolve_loop [] allowed issued = some issued
resolve_loop (scope ∷ requested) allowed issued = elim (resolve_one scope allowed) [
  | none ↦ none
  | some granted ↦ resolve_loop requested allowed (issued ++ granted)
]

-- `none` is the result `nil, false`.
unfoldable pub resolve_requested_scopes : List Text → List Text → Option (List Text)
unfolding resolve_loop resolve_one
resolve_requested_scopes requested allowed =
    if contains_invalid_scope_wildcard requested
    then none
    else Option.map normalize_scopes (resolve_loop requested allowed [])
