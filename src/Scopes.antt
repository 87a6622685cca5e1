-- ===== src/Scopes.antt =====
-- scopes.go: OAuth scopes, and the wildcard patterns that cover them.
pub mod Pattern
pub mod Covering
pub mod Granting
use orionis.Base.{
  ℕ, ◌≡◌, refl, Bool, true, false, not, ◌&&◌, ◌||◌, Option, none, some, List, [], ◌∷◌, ◌++◌, ◌==◌,
  if◌then◌else◌, is_nil, is_some,
}
use orionis.Text.{
  Text, codes, text_eq, trim_space, count, contains_char, cut_prefix, cut_suffix, join,
}
use orionis.Stringset

abbrev pub star : ℕ
star = b'*'

abbrev pub dot : ℕ
dot = b'.'

abbrev pub single_suffix : Text
single_suffix = codes ".*"

abbrev pub recursive_suffix : Text
recursive_suffix = codes ".**"

unfoldable pub normalize_scopes : List Text → List Text
normalize_scopes scopes = Stringset.normalize scopes

unfoldable pub scope_string : List Text → Text
scope_string scopes = join (normalize_scopes scopes) (codes " ")

unfoldable pub contains_scope_wildcard : Text → Bool
contains_scope_wildcard scope = contains_char scope star

-- What the `switch` yields, unless the prefix is blank.
unless_blank : Text → Bool → Option (Text × Bool)
unless_blank prefix recursive =
    if is_nil (trim_space prefix) then none else some (prefix, recursive)

-- A case of the `switch`: the number of stars and the suffix are as given.
pattern_at : Text → ℕ → Text → Option Text
pattern_at scope stars suffix = if count scope star == stars then cut_suffix scope suffix else none

-- The prefix, and whether the wildcard is recursive; `none` is `ok == false`.
unfoldable pub wildcard_scope_parts : Text → Option (Text × Bool)
unfolding pattern_at unless_blank
wildcard_scope_parts scope = elim (pattern_at scope 1 single_suffix) [
  | some prefix ↦ unless_blank prefix false
  | none ↦ elim (pattern_at scope 2 recursive_suffix) [
    | some prefix ↦ unless_blank prefix true
    | none ↦ none
  ]
]

-- `ScopeCovers` behind the tests of equality and of the required wildcard.
suffix_covered : Option Text → Bool → Bool
suffix_covered none recursive = false
suffix_covered (some suffix) recursive =
    if is_nil suffix
    then false
    else if recursive
    then true
    else not (contains_char suffix dot) && not (contains_scope_wildcard suffix)

pattern_covers : Option (Text × Bool) → Text → Bool
pattern_covers none required = false
pattern_covers (some (prefix, recursive)) required =
    suffix_covered (cut_prefix required (prefix ++ dot ∷ [])) recursive

covers_trimmed : Text → Text → Bool
covers_trimmed owned required =
    if is_nil owned || is_nil required
    then false
    else if text_eq owned required
    then true
    else if contains_scope_wildcard required && not (is_some (wildcard_scope_parts required))
    then false
    else pattern_covers (wildcard_scope_parts owned) required

unfoldable pub scope_covers : Text → Text → Bool
unfolding covers_trimmed pattern_covers suffix_covered
scope_covers owned required = covers_trimmed (trim_space owned) (trim_space required)

-- The error's text is of no consequence: `true` is a nil error.
unfoldable pub validate_scope_wildcard : Text → Bool
validate_scope_wildcard scope =
    if not (contains_scope_wildcard scope) then true else is_some (wildcard_scope_parts scope)

unfoldable pub scope_set_covers : List Text → Text → Bool
scope_set_covers [] required = false
scope_set_covers (scope ∷ owned) required =
    scope_covers scope required || scope_set_covers owned required
