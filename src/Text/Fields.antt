-- ===== src/Text/Fields.antt =====
-- `strings.Fields` and `strings.Join`: the fields are words, and words joined by a space are read back.
use orionis.Base.{
  ◌≡◌, ◌≢◌, inl, inr, refl, sym, ap, ◌∙◌, false, List, [], ◌∷◌, ◌++◌, append-nil, append_assoc,
  Bool-cases, All, All-append, true, arith, ◌↔◌,
}
use mathlib.Core.List.{concat-ne-nil}
use orionis.Text.Trim.{trim_space-nil, trim_space_blank}
use orionis.Text.{trim_space}
use orionis.Text.{
  Text, codes, is_space, fields, fields_from, flush, join, join_rest, IsSolid, IsWord,
}

flush-IsWord : (w : Text) → IsSolid w → All IsWord (flush w)
unfolding flush
flush-IsWord [] h = tt
flush-IsWord (c ∷ w) h = (((λ e. cc), h), tt)

fields_from-IsWord : (w s : Text) → IsSolid w → All IsWord (fields_from w s)
unfolding fields_from
fields_from-IsWord w [] h = flush-IsWord w h
fields_from-IsWord w (c ∷ s) h = elim (Bool-cases (is_space c)) [
  | inl e ↦
      rw (e, fields_from)
        (All-append IsWord (flush w) (fields_from [] s) (flush-IsWord w h)
          (fields_from-IsWord [] s tt))
  | inr e ↦
      rw (e, fields_from)
        (fields_from-IsWord (w ++ c ∷ []) s
          (All-append (λ d. is_space d ≡ false) w (c ∷ []) h (e, tt)))
]

-- Each field is a word: not empty, and without white space.
pub fields-IsWord : (s : Text) → All IsWord (fields s)
unfolding fields
fields-IsWord s = fields_from-IsWord [] s tt

fields_from-append : (w v s : Text) → IsSolid v → fields_from w (v ++ s) ≡ fields_from (w ++ v) s
unfolding fields_from
fields_from-append w [] s h = rw append-nil
fields_from-append w (c ∷ v) s (e, h) =
    rw (e, fields_from)
      (fields_from-append (w ++ c ∷ []) v s h
        ∙ ap (λ u. fields_from u s) (append_assoc w (c ∷ []) v))

flush-word : (w : Text) → w ≢ [] → flush w ≡ w ∷ []
unfolding flush
flush-word [] h = absurd (h refl)
flush-word (c ∷ w) h = refl

pub fields_word : (w : Text) → IsWord w → fields w ≡ w ∷ []
unfolding fields
fields_word w (ne, h) =
    ap (fields_from []) (sym (append-nil w))
    ∙ fields_from-append [] w [] h
    ∙ unfold fields_from in flush-word w ne

fields_from-space : (w s : Text) → w ≢ [] → fields_from w (codes " " ++ s) ≡ w ∷ fields_from [] s
unfolding fields_from is_space
fields_from-space w s h = rw (flush-word w h)

fields_from-join_rest :
    (w : Text) (ws : List Text)
    → w ≢ []
    → All IsWord ws
    → fields_from w (join_rest (codes " ") ws) ≡ w ∷ ws
unfolding join_rest
fields_from-join_rest w [] ne h = unfold fields_from in flush-word w ne
fields_from-join_rest w (v ∷ ws) ne (hv, h) =
    fields_from-space w (v ++ join_rest (codes " ") ws) ne
    ∙ ap (λ r. w ∷ r)
        (fields_from-append [] v (join_rest (codes " ") ws) hv.1
          ∙ fields_from-join_rest v ws hv.0 h)

-- Words that are joined by spaces are read back.
pub fields-join : (ws : List Text) → All IsWord ws → fields (join ws (codes " ")) ≡ ws
unfolding fields join
fields-join [] h = refl
fields-join (w ∷ ws) (hw, h) =
    fields_from-append [] w (join_rest (codes " ") ws) hw.1 ∙ fields_from-join_rest w ws hw.0 h

fields_from_blank : (s : Text) → All (λ c. is_space c ≡ true) s → fields_from [] s ≡ []
unfolding fields_from flush
fields_from_blank [] h = refl
fields_from_blank (c ∷ s) (e, h) = rw (e, fields_from) (fields_from_blank s h)

flush-nil : (w : Text) (l : List Text) → flush w ++ l ≡ [] → (w ≡ []) × (l ≡ [])
unfolding flush
flush-nil [] l e = (refl, e)
flush-nil (c ∷ w) l e = absurd (ground arith)

blank_of_fields_from :
    (w s : Text) → fields_from w s ≡ [] → (w ≡ []) × All (λ c. is_space c ≡ true) s
unfolding fields_from
blank_of_fields_from w [] e = ((flush-nil w [] (append-nil (flush w) ∙ e)).0, tt)
blank_of_fields_from w (c ∷ s) e = elim (Bool-cases (is_space c)) [
  | inl k ↦
      let (a, b) = flush-nil w (fields_from [] s) (rw (k, fields_from) at e) in
      (a, (k, (blank_of_fields_from [] s b).1))
  | inr k ↦
      let (a, b) = blank_of_fields_from (w ++ c ∷ []) s (rw (k, fields_from) at e) in
      absurd (concat-ne-nil c w a)
]

-- There is no field exactly when nothing is left by trimming.
pub fields-nil_iff : (s : Text) → (fields s ≡ []) ↔ (trim_space s ≡ [])
unfolding fields
fields-nil_iff s = (
  λ e. trim_space_blank s (blank_of_fields_from [] s e).1,
  λ e. fields_from_blank s (trim_space-nil s e),
)
