-- ===== src/Text/Trim.antt =====
-- `strings.TrimSpace`: it has no effect on what is already trimmed.
use orionis.Base.{
  ℕ, ◌≡◌, inl, inr, refl, ap, ◌∙◌, Bool, false, [], ◌∷◌, arith, Bool-cases, All, ◌≢◌, true,
}
use orionis.Text.{Text, is_space, trim_left_by, trim_right_by, trim_space, keep_unless, IsSolid}

module _ (p : ℕ → Bool) where
  -- The first character, if there is one, is kept.
  abbrev StartsKept : Text → Type 0
  StartsKept [] = Unit {0}
  StartsKept (c ∷ s) = p c ≡ false

  trim_left-StartsKept : (s : Text) → StartsKept (trim_left_by p s)
  unfolding trim_left_by
  trim_left-StartsKept [] = tt
  trim_left-StartsKept (c ∷ s) = elim (Bool-cases (p c)) [
    | inl e ↦ rw (e, trim_left_by) (trim_left-StartsKept s)
    | inr e ↦ rw (e, trim_left_by) e
  ]

  trim_left_kept : (s : Text) → StartsKept s → trim_left_by p s ≡ s
  unfolding trim_left_by
  trim_left_kept [] h = refl
  trim_left_kept (c ∷ s) h = rw (h, trim_left_by)

  keep_unless_kept : (c : ℕ) (s : Text) → p c ≡ false → keep_unless p c s ≡ c ∷ s
  unfolding keep_unless
  keep_unless_kept c [] h = rw h
  keep_unless_kept c (d ∷ s) h = refl

  trim_right-StartsKept : (s : Text) → StartsKept s → StartsKept (trim_right_by p s)
  unfolding trim_right_by
  trim_right-StartsKept [] h = tt
  trim_right-StartsKept (c ∷ s) h = rw (keep_unless_kept c (trim_right_by p s) h) h

  trim_right-keep_unless :
      (c : ℕ) (s : Text)
      → trim_right_by p s ≡ s
      → trim_right_by p (keep_unless p c s) ≡ keep_unless p c s
  unfolding trim_right_by
  trim_right-keep_unless c [] h = ground arith
  trim_right-keep_unless c (d ∷ s) h = rw h

  pub trim_right_idem : (s : Text) → trim_right_by p (trim_right_by p s) ≡ trim_right_by p s
  unfolding trim_right_by
  trim_right_idem [] = refl
  trim_right_idem (c ∷ s) = trim_right-keep_unless c (trim_right_by p s) (trim_right_idem s)

  trim_right_none : (s : Text) → All (λ c. p c ≡ false) s → trim_right_by p s ≡ s
  unfolding trim_right_by
  trim_right_none [] h = refl
  trim_right_none (c ∷ s) (h, hs) =
      ap (keep_unless p c) (trim_right_none s hs) ∙ keep_unless_kept c s h

-- Trimming twice is trimming once.
pub trim_space_idem : (s : Text) → trim_space (trim_space s) ≡ trim_space s
unfolding trim_space
trim_space_idem s =
    let kept =
      trim_right-StartsKept is_space (trim_left_by is_space s) (trim_left-StartsKept is_space s) in
    rw (trim_left_kept is_space _ kept) (trim_right_idem is_space (trim_left_by is_space s))

pub trim_space_solid : (s : Text) → IsSolid s → trim_space s ≡ s
unfolding trim_space
trim_space_solid [] h = refl
trim_space_solid (c ∷ s) h =
    rw (trim_left_kept is_space (c ∷ s) h.0) (trim_right_none is_space (c ∷ s) h)

module _ (p : ℕ → Bool) where
  keep_unless_ne_nil : (c d : ℕ) (s : Text) → keep_unless p c (d ∷ s) ≢ []
  unfolding keep_unless
  keep_unless_ne_nil c d s = λ e. cc

  trim_right_kept-nil : (s : Text) → StartsKept p s → trim_right_by p s ≡ [] → s ≡ []
  unfolding trim_right_by
  trim_right_kept-nil [] h e = refl
  trim_right_kept-nil (c ∷ s) h e = cc (keep_unless_kept p c (trim_right_by p s) h)

  trim_left-nil : (s : Text) → trim_left_by p s ≡ [] → All (λ c. p c ≡ true) s
  unfolding trim_left_by
  trim_left-nil [] e = tt
  trim_left-nil (c ∷ s) e = elim (Bool-cases (p c)) [
    | inl k ↦ (k, trim_left-nil s (rw (k, trim_left_by) at e))
    | inr k ↦ ground arith
  ]

  trim_left_all : (s : Text) → All (λ c. p c ≡ true) s → trim_left_by p s ≡ []
  unfolding trim_left_by
  trim_left_all [] h = refl
  trim_left_all (c ∷ s) (k, h) = rw (k, trim_left_by) (trim_left_all s h)

-- A text is trimmed to nothing exactly when it is white space.
pub trim_space-nil : (s : Text) → trim_space s ≡ [] → All (λ c. is_space c ≡ true) s
unfolding trim_space
trim_space-nil s e =
    trim_left-nil is_space s
      (trim_right_kept-nil is_space (trim_left_by is_space s) (trim_left-StartsKept is_space s) e)

pub trim_space_blank : (s : Text) → All (λ c. is_space c ≡ true) s → trim_space s ≡ []
unfolding trim_space
trim_space_blank s h = rw (trim_left_all is_space s h) (unfold trim_right_by in refl)

keep_unless-head :
    (p : ℕ → Bool) (a : ℕ) (r : Text) (c : ℕ) (t : Text) → keep_unless p a r ≡ c ∷ t → c ≡ a
unfolding keep_unless
keep_unless-head p a [] c t e = ground arith
keep_unless-head p a (d ∷ r) c t e = ground arith

-- What is left of a text that is trimmed on the right starts as the text does.
pub trim_right-head :
    (p : ℕ → Bool) (a : ℕ) (s : Text) (c : ℕ) (t : Text) → trim_right_by p (a ∷ s) ≡ c ∷ t → c ≡ a
unfolding trim_right_by
trim_right-head p a s c t e = keep_unless-head p a (trim_right_by p s) c t e
