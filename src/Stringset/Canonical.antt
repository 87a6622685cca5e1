-- ===== src/Stringset/Canonical.antt =====
-- `Normalize` gives the one increasing list of the fields of its values.
use orionis.Base.{
  ◌≡◌, ◌↔◌, ◌⊎◌, inl, inr, refl, sym, subst, ◌∙◌, true, List, [], ◌∷◌, arith, All, Has, All_of_Has,
  All_at, All-append,
}
use mathlib.Core.Path.{ap₂}
use orionis.Text.{Text, text_ltb, IsWord, fields}
use orionis.Text.Order.{text_ltb_irrefl, text_ltb_trans}
use orionis.Text.Fields.{fields-IsWord, fields_word}
use orionis.Stringset.{Collected, normalize}
use orionis.Stringset.Sorting.{IsIncreasing, sort-IsIncreasing, Has-sort, Has-of_sort}
use orionis.Stringset.Collect.{
  IsCollected, words, collect_values-IsCollected, Has-collect_values, Has-of_collect_values,
}

abbrev empty : Collected
empty = record { seen = []; result = [] }

empty-IsCollected : IsCollected empty
empty-IsCollected = record { same = λ x h. h; back = λ x h. h; distinct = tt }

-- The result of normalising is in strictly increasing order: sorted, and without duplicates.
pub normalize-IsIncreasing : (vs : List Text) → IsIncreasing (normalize vs)
unfolding normalize
normalize-IsIncreasing [] = tt
normalize-IsIncreasing (v ∷ vs) =
    sort-IsIncreasing _ (collect_values-IsCollected empty (v ∷ vs) empty-IsCollected).distinct

-- A text is in the result exactly when it is a field of one of the values.
pub Has-normalize : (vs : List Text) (x : Text) → Has x (normalize vs) ↔ Has x (words vs)
unfolding normalize words
Has-normalize [] x = ((λ h. h), (λ h. h))
Has-normalize (v ∷ vs) x = (
  λ h. elim (Has-of_collect_values empty (v ∷ vs) x (Has-of_sort x _ h)) [
    | inl a ↦ absurd a
    | inr b ↦ b
  ],
  λ h. Has-sort x _ (Has-collect_values empty (v ∷ vs) x empty-IsCollected (inr h)),
)

head_below :
    (x y : Text) (xs ys : List Text)
    → IsIncreasing (y ∷ ys)
    → Has x (y ∷ ys)
    → (y ≡ x) ⊎ (text_ltb y x ≡ true)
head_below x y xs ys inc (inl e) = inl e
head_below x y xs ys inc (inr h) = inr (All_at (λ z. text_ltb y z ≡ true) ys x inc.0 h)

not_both : (x y : Text) → text_ltb x y ≡ true → text_ltb y x ≡ true → ⊥
not_both x y h k = ground (arith, text_ltb_trans x y x h k, text_ltb_irrefl x)

irrefl_absurd : (x : Text) → text_ltb x x ≡ true → ⊥
irrefl_absurd x h = ground (arith, text_ltb_irrefl x)

heads_eq :
    (x y : Text) (xs ys : List Text)
    → IsIncreasing (x ∷ xs)
    → IsIncreasing (y ∷ ys)
    → Has x (y ∷ ys)
    → Has y (x ∷ xs)
    → x ≡ y
heads_eq x y xs ys p q h k = elim (head_below x y xs ys q h) [
  | inl e ↦ sym e
  | inr lt ↦ elim (head_below y x ys xs p k) [ inl e ↦ e | inr gt ↦ absurd (not_both x y gt lt) ]
]

-- A member of the tail is not the head, so it is found in the other tail.
drop_head :
    (x y z : Text) (xs ys : List Text)
    → x ≡ y
    → All (λ w. text_ltb x w ≡ true) xs
    → (Has z (x ∷ xs) → Has z (y ∷ ys))
    → Has z xs
    → Has z ys
drop_head x y z xs ys e above f k = elim (f (inr k)) [
  | inl e' ↦ absurd (
      irrefl_absurd x (
        subst (λ w. text_ltb x w ≡ true) (sym (e ∙ e'))
          (All_at (λ w. text_ltb x w ≡ true) xs z above k)))
  | inr m ↦ m
]

-- Strictly increasing lists with the same members are equal.
pub IsIncreasing-ext :
    (xs ys : List Text)
    → IsIncreasing xs
    → IsIncreasing ys
    → ((x : Text) → Has x xs ↔ Has x ys)
    → xs ≡ ys
IsIncreasing-ext [] [] p q h = refl
IsIncreasing-ext [] (y ∷ ys) p q h = absurd ((h y).1 (inl refl))
IsIncreasing-ext (x ∷ xs) [] p q h = absurd ((h x).0 (inl refl))
IsIncreasing-ext (x ∷ xs) (y ∷ ys) p q h =
    let e : x ≡ y = heads_eq x y xs ys p q ((h x).0 (inl refl)) ((h y).1 (inl refl)) in
    ap₂ (λ z zs. z ∷ zs) e
      (IsIncreasing-ext xs ys p.1 q.1
        λ z. (drop_head x y z xs ys e p.0 (h z).0, drop_head y x z ys xs (sym e) q.0 (h z).1))

-- Values with the same fields, in any order and any number, normalise to the same list.
pub normalize_same :
    (vs ws : List Text)
    → ((x : Text) → Has x (words vs) ↔ Has x (words ws))
    → normalize vs ≡ normalize ws
normalize_same vs ws h =
    IsIncreasing-ext (normalize vs) (normalize ws) (normalize-IsIncreasing vs)
      (normalize-IsIncreasing ws)
      λ x. (
        λ k. (Has-normalize ws x).1 ((h x).0 ((Has-normalize vs x).0 k)),
        λ k. (Has-normalize vs x).1 ((h x).1 ((Has-normalize ws x).0 k)),
      )

pub words-words : (ws : List Text) → All IsWord ws → words ws ≡ ws
unfolding words
words-words [] h = refl
words-words (w ∷ ws) (hw, h) = rw (fields_word w hw, words-words ws h)

words-IsWord : (vs : List Text) → All IsWord (words vs)
unfolding words
words-IsWord [] = tt
words-IsWord (v ∷ vs) = All-append IsWord (fields v) (words vs) (fields-IsWord v) (words-IsWord vs)

-- Each member of the result is a word: not empty, and without white space.
pub normalize-IsWord : (vs : List Text) → All IsWord (normalize vs)
normalize-IsWord vs =
    All_of_Has IsWord (normalize vs)
      λ x h. All_at IsWord (words vs) x (words-IsWord vs) ((Has-normalize vs x).0 h)

-- A list of words that is in order is its own normal form.
pub normalize_normal : (ws : List Text) → All IsWord ws → IsIncreasing ws → normalize ws ≡ ws
normalize_normal ws h inc = IsIncreasing-ext (normalize ws) ws (normalize-IsIncreasing ws) inc λ x.
    (
      λ k. subst (λ l. Has x l) (words-words ws h) ((Has-normalize ws x).0 k),
      λ k. (Has-normalize ws x).1 (subst (λ l. Has x l) (sym (words-words ws h)) k),
    )

-- Normalising twice is normalising once.
pub normalize_idem : (vs : List Text) → normalize (normalize vs) ≡ normalize vs
normalize_idem vs = normalize_normal _ (normalize-IsWord vs) (normalize-IsIncreasing vs)
