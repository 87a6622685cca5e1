-- ===== src/Text/Entries.antt =====
-- Maps without two entries for a key: `insert` and `filter_values` keep them so.
use mathlib.Core.Path.{subst}
use orionis.Base.{
  ◌≡◌, ◌⊎◌, inl, inr, refl, sym, ap, ◌∙◌, Bool, Option, none, some, List, [], ◌∷◌, map, arith,
  Bool-cases, Has, if◌then◌else◌,
}
use orionis.Text.{Text, text_eq}
use orionis.Text.Order.{text_eq_iff}
use orionis.Text.Dict.{lookup, insert, filter_values}

module _ {ℓ} {V : Type ℓ} where
  abbrev pub keys_of : List (Text × V) → List Text
  keys_of m = map (λ e. e.0) m

  -- No key has two entries.
  abbrev pub IsMap : List (Text × V) → Type 0
  IsMap [] = Unit {0}
  IsMap ((k, v) ∷ m) = (¬ Has k (keys_of m)) × IsMap m

  Has-insert :
      (k j : Text) (v : V) (m : List (Text × V))
      → Has j (keys_of (insert k v m))
      → (k ≡ j) ⊎ Has j (keys_of m)
  unfolding insert
  Has-insert k j v [] (inl e) = inl e
  Has-insert k j v [] (inr h) = absurd h
  Has-insert k j v ((i, w) ∷ m) h = elim (Bool-cases (text_eq i k)) [
    | inl e ↦ elim (rw (e, insert) at h) [ inl x ↦ inl x | inr x ↦ inr (inr x) ]
    | inr e ↦ elim (rw (e, insert) at h) [
      | inl x ↦ inr (inl x)
      | inr x ↦ elim (Has-insert k j v m x) [ inl y ↦ inl y | inr y ↦ inr (inr y) ]
    ]
  ]

  pub insert-IsMap : (k : Text) (v : V) (m : List (Text × V)) → IsMap m → IsMap (insert k v m)
  unfolding insert
  insert-IsMap k v [] h = ((λ x. x), tt)
  insert-IsMap k v ((i, w) ∷ m) (n, h) = elim (Bool-cases (text_eq i k)) [
    | inl e ↦
        let same = (text_eq_iff i k).0 e in
        rw (e, insert) ((λ x. n (subst (λ t. Has t (keys_of m)) (sym same) x)), h)
    | inr e ↦
        rw (e, insert)
          (
            λ x. elim (Has-insert k i v m x) [
              | inl y ↦ ground (arith, text_eq_iff i k)
              | inr y ↦ n y
            ],
            insert-IsMap k v m h,
          )
  ]

  Has-filter_values :
      (p : V → Bool) (m : List (Text × V)) (j : Text)
      → Has j (keys_of (filter_values p m))
      → Has j (keys_of m)
  unfolding filter_values
  Has-filter_values p [] j h = h
  Has-filter_values p ((i, w) ∷ m) j h = elim (Bool-cases (p w)) [
    | inl e ↦ elim (rw (e, filter_values) at h) [
      | inl x ↦ inl x
      | inr x ↦ inr (Has-filter_values p m j x)
    ]
    | inr e ↦ inr (Has-filter_values p m j (rw (e, filter_values) at h))
  ]

  pub filter_values-IsMap :
      (p : V → Bool) (m : List (Text × V)) → IsMap m → IsMap (filter_values p m)
  unfolding filter_values
  filter_values-IsMap p [] h = tt
  filter_values-IsMap p ((i, w) ∷ m) (n, h) = elim (Bool-cases (p w)) [
    | inl e ↦
        rw (e, filter_values) ((λ x. n (Has-filter_values p m i x)), filter_values-IsMap p m h)
    | inr e ↦ rw (e, filter_values) (filter_values-IsMap p m h)
  ]

  -- A value that passes the test, if there is one.
  unfoldable pub passing : (V → Bool) → Option V → Option V
  passing p none = none
  passing p (some v) = if p v then some v else none

  lookup_absent : (j : Text) (m : List (Text × V)) → ¬ Has j (keys_of m) → lookup j m ≡ none
  unfolding lookup
  lookup_absent j [] n = refl
  lookup_absent j ((i, w) ∷ m) n = elim (Bool-cases (text_eq i j)) [
    | inl e ↦ absurd (n (inl ((text_eq_iff i j).0 e)))
    | inr e ↦ rw e (lookup_absent j m (λ h. n (inr h)))
  ]

  pub lookup-filter_values :
      (p : V → Bool) (m : List (Text × V)) (j : Text)
      → IsMap m
      → lookup j (filter_values p m) ≡ passing p (lookup j m)
  unfolding filter_values lookup passing
  lookup-filter_values p [] j h = refl
  lookup-filter_values p ((i, w) ∷ m) j (n, h) = elim (Bool-cases (text_eq i j)) [
    | inr e ↦ elim (Bool-cases (p w)) [
      | inl f ↦ rw (f, e) (lookup-filter_values p m j h)
      | inr f ↦ rw (f, e) (lookup-filter_values p m j h)
    ]
    | inl e ↦
        let same = (text_eq_iff i j).0 e in
        let gone = lookup_absent j m (λ x. n (subst (λ t. Has t (keys_of m)) (sym same) x)) in
        elim (Bool-cases (p w)) [
          | inl f ↦ rw (f, e) (ground arith)
          | inr f ↦ rw (f, e) (ground (arith, lookup-filter_values p m j h ∙ ap (passing p) gone))
        ]
  ]
