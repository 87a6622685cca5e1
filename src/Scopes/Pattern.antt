-- ===== src/Scopes/Pattern.antt =====
-- What `wildcardScopeParts` accepts: a prefix that is not blank and holds no star, and ".*" or ".**".
use orionis.Base.{
  ℕ, ◌≡◌, ◌≢◌, inl, inr, refl, ap, ◌∙◌, Bool, true, false, some, [], ◌∷◌, ◌++◌, arith, Bool-cases,
  Option-cases, is_nil, length, length-append,
}
use mathlib.Core.Path.{ap₂, subst}
use orionis.Text.{Text, text_eq, trim_space, count, contains_char, cut_suffix}
use orionis.Text.Order.{text_eq_iff, text_eq_refl}
use orionis.Text.Search.{
  append_of_cut_suffix, count-append, count_of_not_contains, not_contains_of_count,
}
use orionis.Scopes.{
  star, single_suffix, recursive_suffix, wildcard_scope_parts, unless_blank, pattern_at,
}

abbrev pub suffix_of : Bool → Text
suffix_of false = single_suffix
suffix_of true = recursive_suffix

-- `scope` is the pattern with this prefix.
pub record IsPattern (scope prefix : Text) (recursive : Bool) : Type 0 where
  pub shape : scope ≡ prefix ++ suffix_of recursive
  pub starless : contains_char prefix star ≡ false
  pub not_blank : trim_space prefix ≢ []

longer_ne : (c : ℕ) (p t : Text) → text_eq (c ∷ (p ++ t)) t ≡ false
longer_ne c p t = elim (Bool-cases (text_eq (c ∷ (p ++ t)) t)) [
  | inl e ↦
      absurd (omega (arith, ap length ((text_eq_iff (c ∷ (p ++ t)) t).0 e), length-append p t))
  | inr e ↦ e
]

pub cut_suffix-append : (p t : Text) → cut_suffix (p ++ t) t ≡ some p
unfolding cut_suffix
cut_suffix-append [] [] = refl
cut_suffix-append [] (d ∷ t) = rw (text_eq_refl (d ∷ t))
cut_suffix-append (c ∷ p) t = rw (longer_ne c p t, cut_suffix-append p t)

pattern_at_inv :
    (s : Text) (n : ℕ) (t p : Text)
    → pattern_at s n t ≡ some p
    → count t star ≡ n
    → (s ≡ p ++ t) × (contains_char p star ≡ false)
unfolding pattern_at
pattern_at_inv s n t p h k =
    let e : s ≡ p ++ t = append_of_cut_suffix s t p (ground arith) in
    let c : count s star ≡ n = ground arith in
    (
      e,
      not_contains_of_count p star (omega (arith, count-append p t star, ap (λ u. count u star) e)),
    )

unless_blank_inv :
    (p q : Text) (b r : Bool)
    → unless_blank p b ≡ some (q, r)
    → (p ≡ q) × (b ≡ r) × (trim_space p ≢ [])
unfolding unless_blank is_nil
unless_blank_inv p q b r h = ground arith

count_single : count single_suffix star ≡ 1
unfolding count
count_single = refl

count_recursive : count recursive_suffix star ≡ 2
unfolding count
count_recursive = refl

found-IsPattern :
    (s p q : Text) (b r : Bool)
    → (s ≡ p ++ suffix_of b) × (contains_char p star ≡ false)
    → unless_blank p b ≡ some (q, r)
    → IsPattern s q r
found-IsPattern s p q b r (shape, starless) h =
    let (e, f, nb) = unless_blank_inv p q b r h in
    record {
      shape = shape ∙ ap₂ (λ u v. u ++ suffix_of v) e f;
      starless = subst (λ u. contains_char u star ≡ false) e starless;
      not_blank = subst (λ u. trim_space u ≢ []) e nb;
    }

pub parts-IsPattern :
    (s p : Text) (r : Bool) → wildcard_scope_parts s ≡ some (p, r) → IsPattern s p r
unfolding wildcard_scope_parts
parts-IsPattern s p r h = elim (Option-cases (pattern_at s 1 single_suffix)) [
  | inr (q, e) ↦
      found-IsPattern s q p false r (pattern_at_inv s 1 single_suffix q e count_single)
        (rw (e, wildcard_scope_parts) at h)
  | inl e ↦ elim (Option-cases (pattern_at s 2 recursive_suffix)) [
    | inr (q, f) ↦
        found-IsPattern s q p true r (pattern_at_inv s 2 recursive_suffix q f count_recursive)
          (rw (e, f, wildcard_scope_parts) at h)
    | inl f ↦ ground arith
  ]
]

pub IsPattern-parts :
    (s p : Text) (r : Bool) → IsPattern s p r → wildcard_scope_parts s ≡ some (p, r)
unfolding wildcard_scope_parts is_nil
IsPattern-parts s p false v = ground (
  arith,
  cut_suffix-append p single_suffix,
  count-append p single_suffix star,
  count_single,
  count_of_not_contains p star v.starless,
)
IsPattern-parts s p true v = ground (
  arith,
  cut_suffix-append p recursive_suffix,
  count-append p recursive_suffix star,
  count_recursive,
  count_of_not_contains p star v.starless,
)
