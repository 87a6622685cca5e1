-- ===== src/Stringset/Sorting.antt =====
-- The sort keeps the items and puts them in increasing order; the loop collects each field once.
use orionis.Base.{
  ◌≡◌, ◌⊎◌, inl, inr, subst, true, List, [], ◌∷◌, arith, Bool-cases, All, Has, All_of_Has, All_at,
}
use orionis.Text.{Text, text_ltb}
use orionis.Text.Order.{text_ltb_trans, text_ltb_antisymm}
use orionis.Stringset.{insert_sorted, sort}

-- Strictly increasing: sorted, and no text twice.
abbrev pub IsIncreasing : List Text → Type 0
IsIncreasing [] = Unit {0}
IsIncreasing (x ∷ xs) = All (λ y. text_ltb x y ≡ true) xs × IsIncreasing xs

Has-insert : (x y : Text) (ys : List Text) → (x ≡ y) ⊎ Has y ys → Has y (insert_sorted x ys)
unfolding insert_sorted
Has-insert x y [] h = h
Has-insert x y (z ∷ ys) h = ground (arith, Has-insert x y ys)

Has-of_insert : (x y : Text) (ys : List Text) → Has y (insert_sorted x ys) → (x ≡ y) ⊎ Has y ys
unfolding insert_sorted
Has-of_insert x y [] h = h
Has-of_insert x y (z ∷ ys) h = ground (arith, Has-of_insert x y ys)

pub Has-sort : (y : Text) (xs : List Text) → Has y xs → Has y (sort xs)
unfolding sort
Has-sort y [] h = h
Has-sort y (x ∷ xs) (inl e) = Has-insert x y (sort xs) (inl e)
Has-sort y (x ∷ xs) (inr h) = Has-insert x y (sort xs) (inr (Has-sort y xs h))

pub Has-of_sort : (y : Text) (xs : List Text) → Has y (sort xs) → Has y xs
unfolding sort
Has-of_sort y [] h = h
Has-of_sort y (x ∷ xs) h = elim (Has-of_insert x y (sort xs) h) [
  | inl e ↦ inl e
  | inr k ↦ inr (Has-of_sort y xs k)
]

-- No text twice, in any order.
abbrev pub IsDistinct : List Text → Type 0
IsDistinct [] = Unit {0}
IsDistinct (x ∷ xs) = (¬ Has x xs) × IsDistinct xs

insert-IsIncreasing :
    (x : Text) (ys : List Text) → ¬ Has x ys → IsIncreasing ys → IsIncreasing (insert_sorted x ys)
unfolding insert_sorted
insert-IsIncreasing x [] n h = (tt, tt)
insert-IsIncreasing x (y ∷ ys) n h = elim (Bool-cases (text_ltb y x)) [
  | inl lt ↦
      rw (lt, insert_sorted)
        (
          All_of_Has (λ z. text_ltb y z ≡ true) (insert_sorted x ys)
              (λ z k. elim (Has-of_insert x z ys k) [
                | inl e ↦ subst (λ w. text_ltb y w ≡ true) e lt
                | inr m ↦ All_at (λ z. text_ltb y z ≡ true) ys z h.0 m
              ]),
          insert-IsIncreasing x ys (λ m. n (inr m)) h.1,
        )
  | inr ge ↦
      let below : text_ltb x y ≡ true = elim (Bool-cases (text_ltb x y)) [
        | inl k ↦ k
        | inr k ↦ absurd (n (inl (text_ltb_antisymm y x ge k)))
      ] in
      rw (ge, insert_sorted)
        (
          (
            below,
            All_of_Has (λ z. text_ltb x z ≡ true) ys
                (λ z m. text_ltb_trans x y z below (All_at (λ z. text_ltb y z ≡ true) ys z h.0 m)),
          ),
          h,
        )
]

pub sort-IsIncreasing : (xs : List Text) → IsDistinct xs → IsIncreasing (sort xs)
unfolding sort
sort-IsIncreasing [] h = tt
sort-IsIncreasing (x ∷ xs) (n, h) =
    insert-IsIncreasing x (sort xs) (λ m. n (Has-of_sort x xs m)) (sort-IsIncreasing xs h)
