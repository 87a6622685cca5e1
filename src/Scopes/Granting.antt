-- ===== src/Scopes/Granting.antt =====
-- Sets of scopes: what a set grants, and the text that carries a set.

use orionis.Base.{
  ◌≡◌, sym, subst, ◌∙◌, append-nil, Has, inl, inr, true, List, [], ◌∷◌, arith, Bool-cases, All, Any,
}
use orionis.Text.{Text, fields}
use orionis.Text.Fields.{fields-join}
use orionis.Stringset.Collect.{words}
use orionis.Stringset.Canonical.{normalize-IsWord, normalize_same, Has-normalize}
use orionis.Scopes.{normalize_scopes, scope_string, scope_set_covers, scope_covers}
use orionis.Scopes.Covering.{scope_covers_trans}

-- One of the owned scopes covers `s`.
abbrev pub Grants : List Text → Text → Type 0
Grants owned s = Any (λ o. scope_covers o s ≡ true) owned

pub Grants-of_covers :
    (owned : List Text) (s : Text) → scope_set_covers owned s ≡ true → Grants owned s
unfolding scope_set_covers
Grants-of_covers [] s e = absurd (ground arith)
Grants-of_covers (o ∷ owned) s e = elim (Bool-cases (scope_covers o s)) [
  | inl k ↦ inl k
  | inr k ↦ inr (Grants-of_covers owned s (ground arith))
]

pub covers_of_Grants :
    (owned : List Text) (s : Text) → Grants owned s → scope_set_covers owned s ≡ true
unfolding scope_set_covers
covers_of_Grants [] s h = absurd h
covers_of_Grants (o ∷ owned) s (inl e) = ground arith
covers_of_Grants (o ∷ owned) s (inr h) = ground (arith, covers_of_Grants owned s h)

one_Grants :
    (owned : List Text) (s t : Text) → Grants owned s → scope_covers s t ≡ true → Grants owned t
one_Grants [] s t h e = h
one_Grants (o ∷ owned) s t (inl k) e = inl (scope_covers_trans o s t k e)
one_Grants (o ∷ owned) s t (inr h) e = inr (one_Grants owned s t h e)

-- What is granted by granted scopes is granted.
pub Grants-trans :
    (owned held : List Text) (t : Text) → All (Grants owned) held → Grants held t → Grants owned t
Grants-trans owned [] t h k = absurd k
Grants-trans owned (s ∷ held) t (h, hs) (inl e) = one_Grants owned s t h e
Grants-trans owned (s ∷ held) t (h, hs) (inr k) = Grants-trans owned held t hs k

-- The scope claim reads back: the fields of the joined text are the normalised scopes.
pub fields-scope_string : (ss : List Text) → fields (scope_string ss) ≡ normalize_scopes ss
unfolding scope_string normalize_scopes
fields-scope_string ss = fields-join _ (normalize-IsWord ss)

-- What is written by `ScopeString` is normalised to the same scopes.
pub normalize_scopes-scope_string :
    (ss : List Text) → normalize_scopes (scope_string ss ∷ []) ≡ normalize_scopes ss
unfolding normalize_scopes words
normalize_scopes-scope_string ss = normalize_same (scope_string ss ∷ []) ss λ x.
    let same : words (scope_string ss ∷ []) ≡ normalize_scopes ss =
      append-nil (fields (scope_string ss)) ∙ fields-scope_string ss in
    let read = Has-normalize ss x in
    (λ h. read.0 (subst (Has x) same h), λ h. subst (Has x) (sym same) (read.1 h))
