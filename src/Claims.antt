-- ===== src/Claims.antt =====
-- claims.go: the claims of a token, and the questions about their scopes.
pub mod Coverage
use orionis.Base.{
  ℕ, ◌≡◌, refl, Bool, true, false, ◌&&◌, ◌||◌, Option, none, some, List, [], ◌∷◌, if◌then◌else◌,
  is_nil,
}
use orionis.Base.Int.{ℤ}
use orionis.Text.{Text, codes, trim_space, fields}
use orionis.Scopes.{normalize_scopes, scope_set_covers}

-- The registered claims of the JWT library come first; a date is in nanoseconds.
pub record Claims : Type 0 where
  pub issuer : Text
  pub subject : Text
  pub audience : List Text
  pub expires_at : Option ℤ
  pub not_before : Option ℤ
  pub issued_at : Option ℤ
  pub id : Text
  pub client_id : Text
  pub scope : Text
  pub token_use : Text

-- `none` is a nil pointer, here and in the functions below.
unfoldable pub scopes : Option Claims → List Text
scopes none = []
scopes (some c) = if is_nil (trim_space c.scope) then [] else fields c.scope

unfoldable pub has_scope : Option Claims → Text → Bool
has_scope none scope = false
has_scope (some c) scope = scope_set_covers (scopes (some c)) scope

any_covered : List Text → List Text → Bool
any_covered owned [] = false
any_covered owned (scope ∷ required) = scope_set_covers owned scope || any_covered owned required

unfoldable pub has_any_scope : Option Claims → List Text → Bool
unfolding any_covered
has_any_scope c required = if is_nil (normalize_scopes required) then true else elim c [
  | none ↦ false
  | some d ↦ any_covered (scopes (some d)) (normalize_scopes required)
]

all_covered : List Text → List Text → Bool
all_covered owned [] = true
all_covered owned (scope ∷ required) = scope_set_covers owned scope && all_covered owned required

unfoldable pub has_all_scopes : Option Claims → List Text → Bool
unfolding all_covered
has_all_scopes c required = if is_nil (normalize_scopes required) then true else elim c [
  | none ↦ false
  | some d ↦ all_covered (scopes (some d)) (normalize_scopes required)
]
