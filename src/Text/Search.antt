-- ===== src/Text/Search.antt =====
-- Prefixes, suffixes and the characters of a text.
use orionis.Base.{
  ℕ, ◌+◌, ◌≡◌, inl, inr, refl, false, some, [], ◌∷◌, ◌++◌, arith, Option-cases, ◌||◌,
}
use orionis.Text.{Text, cut_prefix, cut_suffix, count, contains_char}
use orionis.Text.Order.{text_eq_iff}

pub cut_prefix-append : (p s : Text) → cut_prefix (p ++ s) p ≡ some s
unfolding cut_prefix
cut_prefix-append [] [] = refl
cut_prefix-append [] (c ∷ s) = refl
cut_prefix-append (c ∷ p) s = ground (arith, cut_prefix-append p s)

pub append_of_cut_prefix : (s p : Text) (r : Text) → cut_prefix s p ≡ some r → s ≡ p ++ r
unfolding cut_prefix
append_of_cut_prefix [] [] r h = ground arith
append_of_cut_prefix (c ∷ s) [] r h = ground arith
append_of_cut_prefix [] (d ∷ p) r h = cc
append_of_cut_prefix (c ∷ s) (d ∷ p) r h = ground (arith, append_of_cut_prefix s p r)

pub append_of_cut_suffix : (s t : Text) (p : Text) → cut_suffix s t ≡ some p → s ≡ p ++ t
unfolding cut_suffix
append_of_cut_suffix [] t p h = ground (arith, text_eq_iff [] t)
append_of_cut_suffix (c ∷ s) t p h = elim (Option-cases (cut_suffix s t)) [
  | inl e ↦ ground (arith, text_eq_iff (c ∷ s) t)
  | inr (q, e) ↦ ground (arith, text_eq_iff (c ∷ s) t, append_of_cut_suffix s t q e)
]

pub count-append : (s t : Text) (d : ℕ) → count (s ++ t) d ≡ count s d + count t d
unfolding count
count-append [] t d = omega arith
count-append (c ∷ s) t d = ground (arith, count-append s t d)

pub count_of_not_contains : (s : Text) (d : ℕ) → contains_char s d ≡ false → count s d ≡ 0
unfolding count contains_char
count_of_not_contains [] d h = refl
count_of_not_contains (c ∷ s) d h = ground (arith, count_of_not_contains s d)

pub not_contains_of_count : (s : Text) (d : ℕ) → count s d ≡ 0 → contains_char s d ≡ false
unfolding count contains_char
not_contains_of_count [] d h = refl
not_contains_of_count (c ∷ s) d h = ground (arith, not_contains_of_count s d)

pub contains_char-append :
    (s t : Text) (d : ℕ) → contains_char (s ++ t) d ≡ (contains_char s d || contains_char t d)
unfolding contains_char
contains_char-append [] t d = refl
contains_char-append (c ∷ s) t d = ground (arith, contains_char-append s t d)
