-- ===== src/Text/Order.antt =====
-- Equality and order of texts.
use orionis.Base.{◌≡◌, ◌↔◌, refl, true, false, List, [], ◌∷◌, arith, Has}
use orionis.Text.{Text, text_eq, text_ltb, contains}

pub text_eq_refl : (s : Text) → text_eq s s ≡ true
unfolding text_eq
text_eq_refl [] = refl
text_eq_refl (c ∷ s) = ground (arith, text_eq_refl s)

pub eq_of_text_eq : (s t : Text) → text_eq s t ≡ true → s ≡ t
unfolding text_eq
eq_of_text_eq [] [] h = refl
eq_of_text_eq [] (d ∷ t) h = cc
eq_of_text_eq (c ∷ s) [] h = cc
eq_of_text_eq (c ∷ s) (d ∷ t) h = ground (arith, eq_of_text_eq s t)

pub text_eq_iff : (s t : Text) → (text_eq s t ≡ true) ↔ (s ≡ t)
text_eq_iff s t = (eq_of_text_eq s t, λ e. rw e (text_eq_refl t))

pub text_ltb_irrefl : (s : Text) → text_ltb s s ≡ false
unfolding text_ltb
text_ltb_irrefl [] = refl
text_ltb_irrefl (c ∷ s) = ground (arith, text_ltb_irrefl s)

pub text_ltb_trans :
    (s t u : Text) → text_ltb s t ≡ true → text_ltb t u ≡ true → text_ltb s u ≡ true
unfolding text_ltb
text_ltb_trans [] [] u h k = k
text_ltb_trans [] (d ∷ t) [] h k = k
text_ltb_trans [] (d ∷ t) (e ∷ u) h k = refl
text_ltb_trans (c ∷ s) [] u h k = cc
text_ltb_trans (c ∷ s) (d ∷ t) [] h k = cc
text_ltb_trans (c ∷ s) (d ∷ t) (e ∷ u) h k = ground (arith, text_ltb_trans s t u)

pub text_ltb_antisymm : (s t : Text) → text_ltb s t ≡ false → text_ltb t s ≡ false → s ≡ t
unfolding text_ltb
text_ltb_antisymm [] [] h k = refl
text_ltb_antisymm [] (d ∷ t) h k = cc
text_ltb_antisymm (c ∷ s) [] h k = cc
text_ltb_antisymm (c ∷ s) (d ∷ t) h k = ground (arith, text_ltb_antisymm s t)

pub Has-of_contains : (xs : List Text) (x : Text) → contains xs x ≡ true → Has x xs
unfolding contains
Has-of_contains [] x h = cc
Has-of_contains (y ∷ ys) x h = ground (arith, text_eq_iff y x, Has-of_contains ys x)

pub contains_of_Has : (xs : List Text) (x : Text) → Has x xs → contains xs x ≡ true
unfolding contains
contains_of_Has [] x h = absurd h
contains_of_Has (y ∷ ys) x h = ground (arith, text_eq_iff y x, contains_of_Has ys x)
