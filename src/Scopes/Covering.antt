-- ===== src/Scopes/Covering.antt =====
-- What `ScopeCovers` decides, described with no search: equal scopes, a child of "prefix.*", or
-- anything below "prefix.**". Covering is transitive.
use mathlib.Core.Path.{subst}
use orionis.Base.{
  ℕ, ◌≡◌, ◌≢◌, ◌↔◌, ◌⊎◌, inl, inr, refl, sym, ap, ◌∙◌, Bool, true, false, some, [], ◌∷◌, ◌++◌,
  arith, Bool-cases, Option-cases, ◌&&◌, not, is_nil, is_some, append_assoc,
}
use orionis.Text.{Text, codes, text_eq, trim_space, contains_char, cut_prefix}
use orionis.Text.Order.{text_eq_iff}
use orionis.Text.Search.{cut_prefix-append, append_of_cut_prefix, contains_char-append}
use orionis.Scopes.{
  star, dot, single_suffix, recursive_suffix, wildcard_scope_parts, contains_scope_wildcard,
  suffix_covered, pattern_covers, covers_trimmed, scope_covers,
}
use orionis.Scopes.Pattern.{suffix_of, IsPattern, parts-IsPattern, IsPattern-parts}

-- A scope without wildcard, or a pattern.
abbrev pub IsScope : Text → Type 0
IsScope s =
    (contains_char s star ≡ false)
    ⊎ ((prefix : Text) × (recursive : Bool) × IsPattern s prefix recursive)

-- `owned` grants `required`; both are trimmed.
pub data Covers (owned required : Text) : Type 0 where
  same : owned ≢ [] → owned ≡ required → Covers owned required
  child :
      (prefix suffix : Text)
      → IsPattern owned prefix false
      → required ≡ prefix ++ dot ∷ suffix
      → suffix ≢ []
      → contains_char suffix dot ≡ false
      → contains_char suffix star ≡ false
      → Covers owned required
  below :
      (prefix suffix : Text)
      → IsPattern owned prefix true
      → required ≡ prefix ++ dot ∷ suffix
      → suffix ≢ []
      → IsScope required
      → Covers owned required

is_nil-append : (p : Text) (c : ℕ) (s : Text) → is_nil (p ++ c ∷ s) ≡ false
unfolding is_nil
is_nil-append [] c s = refl
is_nil-append (d ∷ p) c s = refl

is_nil-false : (s : Text) → s ≢ [] → is_nil s ≡ false
unfolding is_nil
is_nil-false [] h = absurd (h refl)
is_nil-false (c ∷ s) h = refl

suffix_of-dot : (r : Bool) → (t : Text) × (suffix_of r ≡ dot ∷ t)
suffix_of-dot false = (codes "*", refl)
suffix_of-dot true = (codes "**", refl)

IsPattern-star : (s p : Text) (r : Bool) → IsPattern s p r → contains_char s star ≡ true
unfolding contains_char
IsPattern-star s p false v = ground (arith, contains_char-append p single_suffix star)
IsPattern-star s p true v = ground (arith, contains_char-append p recursive_suffix star)

-- No wildcard, or a well-formed one.
pub IsScope-valid :
    (s : Text)
    → IsScope s
    → (contains_scope_wildcard s && not (is_some (wildcard_scope_parts s))) ≡ false
unfolding contains_scope_wildcard is_some
IsScope-valid s (inl h) = rw h
IsScope-valid s (inr (p, r, v)) = ground (arith, IsPattern-parts s p r v)

pub valid-IsScope :
    (s : Text)
    → (contains_scope_wildcard s && not (is_some (wildcard_scope_parts s))) ≡ false
    → IsScope s
unfolding contains_scope_wildcard is_some
valid-IsScope s h = elim (Bool-cases (contains_char s star)) [
  | inr e ↦ inl e
  | inl e ↦ elim (Option-cases (wildcard_scope_parts s)) [
    | inl f ↦ ground arith
    | inr (q, f) ↦ inr (q.0, q.1, parts-IsPattern s q.0 q.1 f)
  ]
]

suffix_Covers :
    (owned required p suffix : Text) (r : Bool)
    → IsPattern owned p r
    → IsScope required
    → required ≡ p ++ dot ∷ suffix
    → suffix_covered (some suffix) r ≡ true
    → Covers owned required
unfolding suffix_covered contains_scope_wildcard is_nil
suffix_Covers owned required p [] r v w e h = ground arith
suffix_Covers owned required p (c ∷ suffix) true v w e h = below p (c ∷ suffix) v e (λ k. cc) w
suffix_Covers owned required p (c ∷ suffix) false v w e h =
    child p (c ∷ suffix) v e (λ k. cc) (ground arith) (ground arith)

pattern_Covers :
    (owned required p : Text) (r : Bool)
    → IsPattern owned p r
    → IsScope required
    → pattern_covers (some (p, r)) required ≡ true
    → Covers owned required
unfolding pattern_covers
pattern_Covers owned required p r v w h =
    elim (Option-cases (cut_prefix required (p ++ dot ∷ []))) [
      | inl e ↦ unfold suffix_covered in (cc (rw (e, pattern_covers) at h))
      | inr (s, e) ↦
          suffix_Covers owned required p s r v w
            (append_of_cut_prefix required (p ++ dot ∷ []) s e ∙ append_assoc p (dot ∷ []) s)
            (rw (e, pattern_covers) at h)
    ]

-- The tests that stand before the owned pattern is read.
covers_pattern :
    (owned required : Text)
    → covers_trimmed owned required ≡ true
    → text_eq owned required ≡ false
    → IsScope required × (pattern_covers (wildcard_scope_parts owned) required ≡ true)
unfolding covers_trimmed
covers_pattern owned required h ne =
    let invalid =
      contains_scope_wildcard required && not (is_some (wildcard_scope_parts required)) in
    elim (Bool-cases invalid) [
      | inl e ↦ absurd (ground arith)
      | inr e ↦ (valid-IsScope required e, ground arith)
    ]

covers_not_nil : (owned required : Text) → covers_trimmed owned required ≡ true → owned ≢ []
unfolding covers_trimmed is_nil
covers_not_nil owned required h e = ground arith

Covers-sound :
    (owned required : Text) → covers_trimmed owned required ≡ true → Covers owned required
Covers-sound owned required h = elim (Bool-cases (text_eq owned required)) [
  | inl e ↦ same (covers_not_nil owned required h) ((text_eq_iff owned required).0 e)
  | inr ne ↦
      let (w, k) = covers_pattern owned required h ne in
      elim (Option-cases (wildcard_scope_parts owned)) [
        | inl e ↦ unfold pattern_covers in cc (rw (e, pattern_covers) at k)
        | inr (q, e) ↦
            pattern_Covers owned required q.0 q.1 (parts-IsPattern owned q.0 q.1 e) w (rw e at k)
      ]
]

-- A text that is a pattern and what it grants pass the tests.
covers_of_suffix :
    (owned required p suffix : Text) (r : Bool)
    → IsPattern owned p r
    → IsScope required
    → required ≡ p ++ dot ∷ suffix
    → suffix_covered (some suffix) r ≡ true
    → covers_trimmed owned required ≡ true
unfolding covers_trimmed pattern_covers
covers_of_suffix owned required p suffix r v w e h =
    let (t, f) = suffix_of-dot r in
    let owned_eq : owned ≡ p ++ dot ∷ t = v.shape ∙ ap (λ u. p ++ u) f in
    let cut : cut_prefix required (p ++ dot ∷ []) ≡ some suffix =
      ap (λ u. cut_prefix u (p ++ dot ∷ [])) (e ∙ sym (append_assoc p (dot ∷ []) suffix))
      ∙ cut_prefix-append (p ++ dot ∷ []) suffix in
    let parts = IsPattern-parts owned p r v in
    let owned_not_nil : is_nil owned ≡ false = ap is_nil owned_eq ∙ is_nil-append p dot t in
    let required_not_nil : is_nil required ≡ false = ap is_nil e ∙ is_nil-append p dot suffix in
    let valid = IsScope-valid required w in ground arith

child_starless :
    (required p suffix : Text)
    → required ≡ p ++ dot ∷ suffix
    → contains_char p star ≡ false
    → contains_char suffix star ≡ false
    → contains_char required star ≡ false
unfolding contains_char
child_starless required p suffix e h k =
    ap (λ u. contains_char u star) e ∙ contains_char-append p (dot ∷ suffix) star ∙ ground arith

Covers-complete :
    (owned required : Text) → Covers owned required → covers_trimmed owned required ≡ true
unfolding covers_trimmed suffix_covered contains_scope_wildcard
Covers-complete owned required (same ne e) =
    ground (arith, text_eq_iff owned required, is_nil-false owned ne)
Covers-complete owned required (child p suffix v e ne nd ns) =
    covers_of_suffix owned required p suffix false v
      (inl (child_starless required p suffix e v.starless ns)) e
      (ground (arith, is_nil-false suffix ne))
Covers-complete owned required (below p suffix v e ne w) =
    covers_of_suffix owned required p suffix true v w e (ground (arith, is_nil-false suffix ne))

-- `ScopeCovers` answers true exactly when the trimmed owned scope grants the trimmed required one: the
-- two are equal and not empty; or the owned one is "prefix.*" and the required one is "prefix." and a
-- segment without dot and star; or the owned one is "prefix.**" and the required one is any scope or
-- well-formed pattern that starts with "prefix." and goes on.
pub scope_covers-Covers :
    (owned required : Text)
    → (scope_covers owned required ≡ true) ↔ Covers (trim_space owned) (trim_space required)
unfolding scope_covers
scope_covers-Covers owned required = (Covers-sound _ _, Covers-complete _ _)

-- What is before the last dot of "q.stars" starts with what is before a dot of the same text.
split_prefix :
    (p x q t : Text)
    → p ++ dot ∷ x ≡ q ++ dot ∷ t
    → contains_char t dot ≡ false
    → (w : Text) × (q ++ dot ∷ [] ≡ p ++ dot ∷ w)
unfolding contains_char
split_prefix [] x [] t e h = ([], refl)
split_prefix [] x (d ∷ q) t e h = (q ++ dot ∷ [], cc)
split_prefix (c ∷ p) x [] t e h = absurd (ground (arith, contains_char-append p (dot ∷ x) dot))
split_prefix (c ∷ p) x (d ∷ q) t e h = let (w, k) = split_prefix p x q t (cc) h in (w, cc)

suffix_dotless : (r : Bool) → (t : Text) × (suffix_of r ≡ dot ∷ t) × (contains_char t dot ≡ false)
unfolding contains_char
suffix_dotless false = (codes "*", refl, refl)
suffix_dotless true = (codes "**", refl, refl)

append_ne_nil : (w y : Text) → y ≢ [] → w ++ y ≢ []
append_ne_nil [] y h = h
append_ne_nil (c ∷ w) y h = λ e. cc

-- What a pattern below "p.**" grants is below "p.**".
nested_suffix :
    (b c p x q y : Text) (r : Bool)
    → b ≡ p ++ dot ∷ x
    → IsPattern b q r
    → c ≡ q ++ dot ∷ y
    → y ≢ []
    → (z : Text) × (c ≡ p ++ dot ∷ z) × (z ≢ [])
nested_suffix b c p x q y r e v f ne =
    let (t, g, nd) = suffix_dotless r in
    let (w, k) = split_prefix p x q t (sym e ∙ v.shape ∙ ap (λ u. q ++ u) g) nd in
    (
      w ++ y,
      f ∙ sym (append_assoc q (dot ∷ []) y) ∙ ap (λ u. u ++ y) k ∙ append_assoc p (dot ∷ w) y,
      append_ne_nil w y ne,
    )

not_pattern :
    {A : Type 0} (b q : Text) (r : Bool) → contains_char b star ≡ false → IsPattern b q r → A
not_pattern b q r h v = absurd (ground (arith, IsPattern-star b q r v))

Covers-trans : (a b c : Text) → Covers a b → Covers b c → Covers a c
Covers-trans a b c (same ne e) k = subst (λ u. Covers u c) (sym e) k
Covers-trans a b c h (same ne e) = subst (λ u. Covers a u) e h
Covers-trans a b c (child p x v e ne nd ns) (child q y w f _ _ _) =
    not_pattern b q false (child_starless b p x e v.starless ns) w
Covers-trans a b c (child p x v e ne nd ns) (below q y w f _ _) =
    not_pattern b q true (child_starless b p x e v.starless ns) w
Covers-trans a b c (below p x v e ne s) (child q y w f my nd ns) =
    let (z, g, nz) = nested_suffix b c p x q y false e w f my in
    below p z v g nz (inl (child_starless c q y f w.starless ns))
Covers-trans a b c (below p x v e ne s) (below q y w f my s') =
    let (z, g, nz) = nested_suffix b c p x q y true e w f my in below p z v g nz s'

-- Covering is transitive: a scope that is granted by a granted scope is granted.
pub scope_covers_trans :
    (a b c : Text) → scope_covers a b ≡ true → scope_covers b c ≡ true → scope_covers a c ≡ true
scope_covers_trans a b c h k = (scope_covers-Covers a c).1 (
    Covers-trans (trim_space a) (trim_space b) (trim_space c) ((scope_covers-Covers a b).0 h)
      ((scope_covers-Covers b c).0 k))
