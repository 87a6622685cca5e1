-- ===== src/Base/Lists.antt =====
-- Lists measured by native numbers, and the predicates on lists, by recursion so that the tactics
-- read them.
use Prim.Native.Nat.{ℕ, suc, ◌+◌}
use mathlib.Core.Path.{◌≡◌, refl, sym, subst}
use mathlib.Core.Logic.{◌⊎◌, inl, inr, ◌≢◌}
use mathlib.Core.Bool.{Bool, true, false}
use mathlib.Core.List.{List, [], ◌∷◌, ◌++◌}
use native.Mathlib.Omega.{arith}

module _ {ℓ} {A : Type ℓ} where
  abbrev pub length : List A → ℕ
  length [] = 0
  length (x ∷ xs) = suc (length xs)

  pub length-append : (xs ys : List A) → length (xs ++ ys) ≡ length xs + length ys
  length-append [] ys = omega arith
  length-append (x ∷ xs) ys = omega (arith, length-append xs ys)

  unfoldable pub is_nil : List A → Bool
  is_nil [] = true
  is_nil (x ∷ xs) = false

  pub nil_of_is_nil : (xs : List A) → is_nil xs ≡ true → xs ≡ []
  unfolding is_nil
  nil_of_is_nil [] h = refl
  nil_of_is_nil (x ∷ xs) h = cc

  pub is_nil-false : (xs : List A) → is_nil xs ≡ false → xs ≢ []
  unfolding is_nil
  is_nil-false [] h e = cc
  is_nil-false (x ∷ xs) h e = cc

  pub is_nil_of_ne_nil : (xs : List A) → xs ≢ [] → is_nil xs ≡ false
  unfolding is_nil
  is_nil_of_ne_nil [] h = absurd (h refl)
  is_nil_of_ne_nil (x ∷ xs) h = refl

-- Every element has the property.
abbrev pub All {ℓ κ} : {A : Type ℓ} → (A → Type κ) → List A → Type κ
All P [] = Unit
All P (x ∷ xs) = P x × All P xs

-- Some element has the property.
abbrev pub Any {ℓ} : {A : Type ℓ} → (A → Type 0) → List A → Type 0
Any P [] = ⊥
Any P (x ∷ xs) = P x ⊎ Any P xs

-- `x` is an element.
abbrev pub Has : {A : Type 0} → A → List A → Type 0
Has x = Any (λ y. y ≡ x)

module _ {ℓ κ} {A : Type ℓ} (P : A → Type κ) where
  pub All-append : (xs ys : List A) → All P xs → All P ys → All P (xs ++ ys)
  All-append [] ys _ hy = hy
  All-append (x ∷ xs) ys (px, hx) hy = (px, All-append xs ys hx hy)

  pub All_of : (xs : List A) → ((a : A) → P a) → All P xs
  All_of [] f = tt
  All_of (x ∷ xs) f = (f x, All_of xs f)

module _ {ℓ} {A : Type ℓ} (P : A → Type 0) where
  pub Any-append : (xs ys : List A) → Any P xs ⊎ Any P ys → Any P (xs ++ ys)
  Any-append [] ys (inl h) = absurd h
  Any-append [] ys (inr h) = h
  Any-append (x ∷ xs) ys (inl (inl p)) = inl p
  Any-append (x ∷ xs) ys (inl (inr h)) = inr (Any-append xs ys (inl h))
  Any-append (x ∷ xs) ys (inr h) = inr (Any-append xs ys (inr h))

  pub Any_of_append : (xs ys : List A) → Any P (xs ++ ys) → Any P xs ⊎ Any P ys
  Any_of_append [] ys h = inr h
  Any_of_append (x ∷ xs) ys (inl p) = inl (inl p)
  Any_of_append (x ∷ xs) ys (inr h) = elim (Any_of_append xs ys h) [
    | inl a ↦ inl (inr a)
    | inr b ↦ inr b
  ]

module _ {A : Type 0} (P : A → Type 0) where
  -- A property of all elements, read at an element, and the other way round.
  pub All_at : (xs : List A) (a : A) → All P xs → Has a xs → P a
  All_at [] a _ h = absurd h
  All_at (x ∷ xs) a (p, _) (inl e) = subst P e p
  All_at (x ∷ xs) a (_, ps) (inr h) = All_at xs a ps h

  pub All_of_Has : (xs : List A) → ((a : A) → Has a xs → P a) → All P xs
  All_of_Has [] f = tt
  All_of_Has (x ∷ xs) f = (f x (inl refl), All_of_Has xs (λ a h. f a (inr h)))

  pub Any_of_Has : (xs : List A) (a : A) → Has a xs → P a → Any P xs
  Any_of_Has [] a h p = absurd h
  Any_of_Has (x ∷ xs) a (inl e) p = inl (subst P (sym e) p)
  Any_of_Has (x ∷ xs) a (inr h) p = inr (Any_of_Has xs a h p)
