-- ===== src/Stringset/Collect.antt =====
-- The loop of `Normalize` collects each field of the values once.
use orionis.Base.{
  ◌≡◌, ◌⊎◌, inl, inr, sym, subst, List, [], ◌∷◌, ◌++◌, arith, Bool-cases, Has, Any-append,
  Any_of_append,
}
use orionis.Text.{Text, contains, fields}
use orionis.Text.Order.{contains_of_Has, Has-of_contains}
use orionis.Stringset.{Collected, collect_item, collect_items, collect_values}
use orionis.Stringset.Sorting.{IsDistinct}

IsDistinct-concat :
    (xs : List Text) (x : Text) → ¬ Has x xs → IsDistinct xs → IsDistinct (xs ++ x ∷ [])
IsDistinct-concat [] x n h = ((λ k. k), tt)
IsDistinct-concat (y ∷ xs) x n (m, h) = (
  λ k. elim (Any_of_append (λ z. z ≡ y) xs (x ∷ []) k) [
    | inl a ↦ m a
    | inr b ↦ elim b [ inl e ↦ n (inl (sym e)) | inr c ↦ c ]
  ],
  IsDistinct-concat xs x (λ k. n (inr k)) h,
)

-- The map and the result hold the same items, and the result holds each once.
pub record IsCollected (st : Collected) : Type 0 where
  pub same : (x : Text) → Has x st.result → Has x st.seen
  pub back : (x : Text) → Has x st.seen → Has x st.result
  pub distinct : IsDistinct st.result

collect_item-IsCollected :
    (st : Collected) (x : Text) → IsCollected st → IsCollected (collect_item st x)
unfolding collect_item
collect_item-IsCollected st x v = elim (Bool-cases (contains st.seen x)) [
  | inl old ↦ rw (old, collect_item) v
  | inr new ↦
      rw (new, collect_item)
        (record {
          same = λ y h. elim (Any_of_append (λ z. z ≡ y) st.result (x ∷ []) h) [
            | inl a ↦ inr (v.same y a)
            | inr b ↦ elim b [ inl e ↦ inl e | inr c ↦ absurd c ]
          ];
          back = λ y h. elim h [
            | inl e ↦ Any-append (λ z. z ≡ y) st.result (x ∷ []) (inr (inl e))
            | inr k ↦ Any-append (λ z. z ≡ y) st.result (x ∷ []) (inl (v.back y k))
          ];
          distinct =
              IsDistinct-concat st.result x
                (λ h. ground (arith, contains_of_Has st.seen x (v.same x h))) v.distinct;
        })
]

-- The result gains the item, and nothing else.
Has-collect_item :
    (st : Collected) (x y : Text)
    → IsCollected st
    → Has y st.result ⊎ (x ≡ y)
    → Has y (collect_item st x).result
unfolding collect_item
Has-collect_item st x y v h = elim (Bool-cases (contains st.seen x)) [
  | inl old ↦
      rw (old, collect_item)
        (elim h [
          | inl a ↦ a
          | inr e ↦ subst (λ z. Has z st.result) e (v.back x (Has-of_contains st.seen x old))
        ])
  | inr new ↦
      rw (new, collect_item)
        (elim h [
          | inl a ↦ Any-append (λ z. z ≡ y) st.result (x ∷ []) (inl a)
          | inr e ↦ Any-append (λ z. z ≡ y) st.result (x ∷ []) (inr (inl e))
        ])
]

Has-of_collect_item :
    (st : Collected) (x y : Text) → Has y (collect_item st x).result → Has y st.result ⊎ (x ≡ y)
unfolding collect_item
Has-of_collect_item st x y h = elim (Bool-cases (contains st.seen x)) [
  | inl old ↦ inl (rw (old, collect_item) at h)
  | inr new ↦ elim (Any_of_append (λ z. z ≡ y) st.result (x ∷ []) (rw (new, collect_item) at h)) [
    | inl a ↦ inl a
    | inr b ↦ elim b [ inl e ↦ inr e | inr c ↦ absurd c ]
  ]
]

collect_items-IsCollected :
    (st : Collected) (xs : List Text) → IsCollected st → IsCollected (collect_items st xs)
unfolding collect_items
collect_items-IsCollected st [] v = v
collect_items-IsCollected st (x ∷ xs) v =
    collect_items-IsCollected (collect_item st x) xs (collect_item-IsCollected st x v)

Has-collect_items :
    (st : Collected) (xs : List Text) (y : Text)
    → IsCollected st
    → Has y st.result ⊎ Has y xs
    → Has y (collect_items st xs).result
unfolding collect_items
Has-collect_items st [] y v (inl h) = h
Has-collect_items st [] y v (inr h) = absurd h
Has-collect_items st (x ∷ xs) y v h =
    Has-collect_items (collect_item st x) xs y (collect_item-IsCollected st x v) (elim h [
      | inl a ↦ inl (Has-collect_item st x y v (inl a))
      | inr b ↦ elim b [ inl e ↦ inl (Has-collect_item st x y v (inr e)) | inr k ↦ inr k ]
    ])

Has-of_collect_items :
    (st : Collected) (xs : List Text) (y : Text)
    → Has y (collect_items st xs).result
    → Has y st.result ⊎ Has y xs
unfolding collect_items
Has-of_collect_items st [] y h = inl h
Has-of_collect_items st (x ∷ xs) y h = elim (Has-of_collect_items (collect_item st x) xs y h) [
  | inl a ↦ elim (Has-of_collect_item st x y a) [ inl b ↦ inl b | inr e ↦ inr (inl e) ]
  | inr k ↦ inr (inr k)
]

-- The fields of all values, in order.
unfoldable pub words : List Text → List Text
words [] = []
words (v ∷ vs) = fields v ++ words vs

pub collect_values-IsCollected :
    (st : Collected) (vs : List Text) → IsCollected st → IsCollected (collect_values st vs)
unfolding collect_values
collect_values-IsCollected st [] v = v
collect_values-IsCollected st (x ∷ xs) v =
    collect_values-IsCollected (collect_items st (fields x)) xs
      (collect_items-IsCollected st (fields x) v)

pub Has-collect_values :
    (st : Collected) (vs : List Text) (y : Text)
    → IsCollected st
    → Has y st.result ⊎ Has y (words vs)
    → Has y (collect_values st vs).result
unfolding collect_values words
Has-collect_values st [] y v (inl h) = h
Has-collect_values st [] y v (inr h) = absurd h
Has-collect_values st (x ∷ xs) y v h =
    Has-collect_values (collect_items st (fields x)) xs y
      (collect_items-IsCollected st (fields x) v)
      (elim h [
        | inl a ↦ inl (Has-collect_items st (fields x) y v (inl a))
        | inr b ↦ elim (Any_of_append (λ z. z ≡ y) (fields x) (words xs) b) [
          | inl c ↦ inl (Has-collect_items st (fields x) y v (inr c))
          | inr c ↦ inr c
        ]
      ])

pub Has-of_collect_values :
    (st : Collected) (vs : List Text) (y : Text)
    → Has y (collect_values st vs).result
    → Has y st.result ⊎ Has y (words vs)
unfolding collect_values words
Has-of_collect_values st [] y h = inl h
Has-of_collect_values st (x ∷ xs) y h =
    elim (Has-of_collect_values (collect_items st (fields x)) xs y h) [
      | inl a ↦ elim (Has-of_collect_items st (fields x) y a) [
        | inl b ↦ inl b
        | inr c ↦ inr (Any-append (λ z. z ≡ y) (fields x) (words xs) (inl c))
      ]
      | inr k ↦ inr (Any-append (λ z. z ≡ y) (fields x) (words xs) (inr k))
    ]
