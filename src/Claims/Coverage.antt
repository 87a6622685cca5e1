-- ===== src/Claims/Coverage.antt =====
-- What the scope questions answer, in terms of the words of the required scopes.
use mathlib.Core.Path.{subst, fun_ext}
use orionis.Base.{
  ◌≡◌, ◌↔◌, ◌⊎◌, inl, inr, refl, sym, ◌∙◌, true, false, Option, none, some, List, [], ◌∷◌, arith,
  Bool-cases, All, Any, Has, All_of_Has, All_at, Any_of_Has, is_nil, nil_of_is_nil, is_nil-false,
}
use orionis.Text.{Text, fields, IsWord}
use orionis.Text.Fields.{fields-nil_iff, fields-IsWord}
use orionis.Stringset.Collect.{words}
use orionis.Stringset.Canonical.{Has-normalize, words-words}
use orionis.Scopes.{normalize_scopes, scope_string, scope_set_covers}
use orionis.Scopes.Granting.{
  Grants, Grants-of_covers, covers_of_Grants, Grants-trans, fields-scope_string,
}
use orionis.Claims.{
  Claims, scopes, has_scope, any_covered, all_covered, has_any_scope, has_all_scopes,
}

-- The scopes of a token are the fields of its scope claim, also when that is blank.
pub scopes-fields : (c : Claims) → scopes (some c) ≡ fields c.scope
unfolding scopes is_nil
scopes-fields c = ground (arith, fields-nil_iff c.scope)

pub scopes-IsWord : (c : Claims) → All IsWord (scopes (some c))
scopes-IsWord c = subst (All IsWord) (sym (scopes-fields c)) (fields-IsWord c.scope)

-- The claim that is written by `ScopeString` holds the normalised scopes again.
pub scopes-scope_string :
    (c : Claims) (ss : List Text)
    → scopes (some (record c { scope = scope_string ss })) ≡ normalize_scopes ss
scopes-scope_string c ss =
    scopes-fields (record c { scope = scope_string ss }) ∙ fields-scope_string ss

-- `owned` covers `s`, as a test.
abbrev Granted : List Text → Text → Type 0
Granted owned s = scope_set_covers owned s ≡ true

all_covered→All :
    (owned required : List Text) → all_covered owned required ≡ true → All (Granted owned) required
unfolding all_covered
all_covered→All owned [] e = tt
all_covered→All owned (s ∷ ss) e = (ground arith, all_covered→All owned ss (ground arith))

All→all_covered :
    (owned required : List Text) → All (Granted owned) required → all_covered owned required ≡ true
unfolding all_covered
All→all_covered owned [] h = refl
All→all_covered owned (s ∷ ss) (e, h) = rw e (All→all_covered owned ss h)

any_covered→Any :
    (owned required : List Text) → any_covered owned required ≡ true → Any (Granted owned) required
unfolding any_covered
any_covered→Any owned [] e = absurd (ground arith)
any_covered→Any owned (s ∷ ss) e = elim (Bool-cases (scope_set_covers owned s)) [
  | inl k ↦ inl k
  | inr k ↦ inr (any_covered→Any owned ss (ground arith))
]

Any→any_covered :
    (owned required : List Text) → Any (Granted owned) required → any_covered owned required ≡ true
unfolding any_covered
Any→any_covered owned [] h = absurd h
Any→any_covered owned (s ∷ ss) (inl e) = rw e
Any→any_covered owned (s ∷ ss) (inr h) = ground (arith, Any→any_covered owned ss h)

-- Two lists with the same members have the same properties.
All-members :
    (P : Text → Type 0) (xs ys : List Text)
    → ((x : Text) → Has x ys → Has x xs)
    → All P xs
    → All P ys
All-members P xs ys f h = All_of_Has P ys (λ x k. All_at P xs x h (f x k))

Any-member : (P : Text → Type 0) (xs : List Text) → Any P xs → (x : Text) × Has x xs × P x
Any-member P [] h = absurd h
Any-member P (x ∷ xs) (inl p) = (x, inl refl, p)
Any-member P (x ∷ xs) (inr h) = let (y, m, p) = Any-member P xs h in (y, inr m, p)

Any-members :
    (P : Text → Type 0) (xs ys : List Text)
    → ((x : Text) → Has x xs → Has x ys)
    → Any P xs
    → Any P ys
Any-members P xs ys f h = let (x, m, p) = Any-member P xs h in Any_of_Has P ys x (f x m) p

module _ (required : List Text) where
  to_normal : (x : Text) → Has x (words required) → Has x (normalize_scopes required)
  unfolding normalize_scopes
  to_normal x = (Has-normalize required x).1

  of_normal : (x : Text) → Has x (normalize_scopes required) → Has x (words required)
  unfolding normalize_scopes
  of_normal x = (Has-normalize required x).0

nil_of_none : (ws : List Text) → ((x : Text) → Has x ws → ⊥) → ws ≡ []
nil_of_none [] f = refl
nil_of_none (w ∷ ws) f = absurd (f w (inl refl))

no_word : (required : List Text) → normalize_scopes required ≡ [] → words required ≡ []
no_word required e =
    nil_of_none (words required) (λ x h. subst (λ l. Has x l) e (to_normal required x h))

-- No claims grant nothing; some grant what their scopes cover.
abbrev owned_by : Option Claims → List Text
owned_by none = []
owned_by (some c) = scopes (some c)

has_scope-owned : (c : Option Claims) (s : Text) → has_scope c s ≡ scope_set_covers (owned_by c) s
unfolding has_scope scope_set_covers
has_scope-owned none s = refl
has_scope-owned (some c) s = refl

all_covered-nil : (required : List Text) → is_nil required ≡ false → all_covered [] required ≡ false
unfolding all_covered scope_set_covers is_nil
all_covered-nil [] e = cc
all_covered-nil (s ∷ ss) e = refl

any_covered-nil : (required : List Text) → any_covered [] required ≡ false
unfolding any_covered scope_set_covers
any_covered-nil [] = refl
any_covered-nil (s ∷ ss) = any_covered-nil ss

has_all-owned :
    (c : Option Claims) (required : List Text)
    → has_all_scopes c required ≡ all_covered (owned_by c) (normalize_scopes required)
unfolding has_all_scopes
has_all-owned c required = elim (Bool-cases (is_nil (normalize_scopes required))) [
  | inl e ↦
      rw (e, has_all_scopes)
        (rw (nil_of_is_nil (normalize_scopes required) e) (unfold all_covered in refl))
  | inr e ↦ rw (e, has_all_scopes) (by_cases c e)
]
  where
    by_cases :
        (c : Option Claims)
        → is_nil (normalize_scopes required) ≡ false
        → (elim c [
          | none ↦ false
          | some d ↦ all_covered (scopes (some d)) (normalize_scopes required)
        ])
          ≡ all_covered (owned_by c) (normalize_scopes required)
    by_cases none e = sym (all_covered-nil (normalize_scopes required) e)
    by_cases (some d) e = refl

-- `HasAllScopes` answers true exactly when every word of the required scopes is a scope that the
-- claims have; claims that are nil have none.
pub has_all_scopes_iff :
    (c : Option Claims) (required : List Text)
    → (has_all_scopes c required ≡ true) ↔ All (λ s. has_scope c s ≡ true) (words required)
has_all_scopes_iff c required =
    rw (fun_ext (has_scope-owned c), has_all-owned c required)
      (
        λ e.
            All-members (Granted (owned_by c)) _ _ (to_normal required)
              (all_covered→All (owned_by c) (normalize_scopes required) e),
        λ h.
            All→all_covered (owned_by c) (normalize_scopes required)
              (All-members (Granted (owned_by c)) _ _ (of_normal required) h),
      )

nil_of_words : (required : List Text) → words required ≡ [] → normalize_scopes required ≡ []
nil_of_words required e =
    nil_of_none (normalize_scopes required) (λ x h. subst (λ l. Has x l) e (of_normal required x h))

has_any-owned :
    (c : Option Claims) (required : List Text)
    → is_nil (normalize_scopes required) ≡ false
    → has_any_scope c required ≡ any_covered (owned_by c) (normalize_scopes required)
unfolding has_any_scope
has_any-owned none required e = rw (e, any_covered-nil (normalize_scopes required))
has_any-owned (some d) required e = rw e

-- `HasAnyScope` answers true exactly when there is no word in the required scopes, or one of the words
-- is a scope that the claims have; claims that are nil have none.
pub has_any_scope_iff :
    (c : Option Claims) (required : List Text)
    → (has_any_scope c required ≡ true)
      ↔ ((words required ≡ []) ⊎ Any (λ s. has_scope c s ≡ true) (words required))
has_any_scope_iff c required = elim (Bool-cases (is_nil (normalize_scopes required))) [
  | inl e ↦ (λ k. inl (no_word required (nil_of_is_nil _ e)), λ k. unfold has_any_scope in rw e)
  | inr e ↦
      rw (fun_ext (has_scope-owned c), has_any-owned c required e)
        (
          λ k. inr (
              Any-members (Granted (owned_by c)) _ _ (of_normal required)
                (any_covered→Any (owned_by c) (normalize_scopes required) k)),
          λ k. elim k [
            | inl f ↦ absurd (is_nil-false _ e (nil_of_words required f))
            | inr h ↦
                Any→any_covered (owned_by c) (normalize_scopes required)
                  (Any-members (Granted (owned_by c)) _ _ (to_normal required) h)
          ],
        )
]

All-map : (P Q : Text → Type 0) (xs : List Text) → ((x : Text) → P x → Q x) → All P xs → All Q xs
All-map P Q [] f h = tt
All-map P Q (x ∷ xs) f (p, h) = (f x p, All-map P Q xs f h)

-- Claims that have all the scopes of other claims have whatever these have.
pub has_all_scopes_trans :
    (c d : Claims) (required : List Text)
    → has_all_scopes (some c) (scopes (some d)) ≡ true
    → has_all_scopes (some d) required ≡ true
    → has_all_scopes (some c) required ≡ true
has_all_scopes_trans c d required h k = (has_all_scopes_iff (some c) required).1 (
    All-map (λ s. has_scope (some d) s ≡ true) (λ s. has_scope (some c) s ≡ true) (words required)
      (λ s e. step s e) ((has_all_scopes_iff (some d) required).0 k))
  where
    held : All (Grants (scopes (some c))) (scopes (some d))
    held =
        All-map (λ s. has_scope (some c) s ≡ true) (Grants (scopes (some c))) (scopes (some d))
          (λ s e. Grants-of_covers (scopes (some c)) s (sym (has_scope-owned (some c) s) ∙ e))
          (subst (λ l. All (λ s. has_scope (some c) s ≡ true) l)
            (words-words (scopes (some d)) (scopes-IsWord d))
            ((has_all_scopes_iff (some c) (scopes (some d))).0 h))

    step : (s : Text) → has_scope (some d) s ≡ true → has_scope (some c) s ≡ true
    step s e =
        has_scope-owned (some c) s
        ∙ covers_of_Grants (scopes (some c)) s (
            Grants-trans (scopes (some c)) (scopes (some d)) s held
              (Grants-of_covers (scopes (some d)) s (sym (has_scope-owned (some d) s) ∙ e)))
