-- ===== src/Authapp/Runtime/Again/BasePath.antt =====
-- A base path that was normalised is normalised to itself.
use orionis.Base.{
  ℕ, ◌≡◌, inl, inr, refl, sym, ap, subst, ◌∙◌, Bool, true, false, ◌||◌, [], ◌∷◌, arith, Bool-cases,
  is_nil, ◌==◌,
}
use orionis.Text.{
  Text, codes, text_eq, trim_space, trim_right_slash, contains_by, cut_prefix, IsSolid,
}
use orionis.Text.Trim.{trim_space_solid, trim_right_idem, trim_right-head}
use orionis.Text.Order.{text_eq_iff}
use orionis.Authapp.Runtime.{
  ok, has_empty_segment, with_slash, is_dynamic, static_path, normalize_base_path,
}

abbrev is_slash : ℕ → Bool
is_slash c = c == b'/'

IsSolid-static : (s : Text) → contains_by is_dynamic s ≡ false → IsSolid s
unfolding contains_by is_dynamic
IsSolid-static [] e = tt
IsSolid-static (c ∷ s) e = (ground arith, IsSolid-static s (ground arith))

static_path-ok :
    (p q : Text)
    → static_path p ≡ ok q
    → (p ≡ q) × (has_empty_segment p ≡ false) × (contains_by is_dynamic p ≡ false)
unfolding static_path
static_path-ok p q e = (ground arith, ground arith, ground arith)

-- A path as `normalizeBasePath` makes it.
data IsBase : Text → Type 0 where
  no_base : (p : Text) → p ≡ [] → IsBase p
  below : (p t : Text) → p ≡ b'/' ∷ t → IsBase p

trimmed-IsBase : (s p : Text) → trim_right_slash (b'/' ∷ s) ≡ p → IsBase p
unfolding trim_right_slash
trimmed-IsBase s [] e = no_base [] refl
trimmed-IsBase s (c ∷ p) e =
    below (c ∷ p) p (ap (λ x. x ∷ p) (trim_right-head is_slash b'/' s c p e))

with_slash-head : (s : Text) → (t : Text) × (with_slash s ≡ b'/' ∷ t)
unfolding with_slash cut_prefix
with_slash-head [] = ([], refl)
with_slash-head (c ∷ s) = elim (Bool-cases (c == b'/')) [
  | inl e ↦ (s, ground arith)
  | inr e ↦ (c ∷ s, ground arith)
]

with_slash_kept : (t : Text) → with_slash (b'/' ∷ t) ≡ b'/' ∷ t
unfolding with_slash cut_prefix
with_slash_kept t = refl

with_slash-trimmed : (s : Text) → IsBase (trim_right_slash (with_slash s))
with_slash-trimmed s =
    let (t, e) = with_slash-head s in
    trimmed-IsBase t (trim_right_slash (with_slash s)) (ap trim_right_slash (sym e))

not_root : (p : Text) → trim_right_slash p ≡ p → is_nil p ≡ false → text_eq p (codes "/") ≡ false
unfolding is_nil
not_root p t n = elim (Bool-cases (text_eq p (codes "/"))) [
  | inr e ↦ e
  | inl e ↦
      let root : p ≡ codes "/" = (text_eq_iff p (codes "/")).0 e in
      let nil : trim_right_slash (codes "/") ≡ [] = (unfold trim_right_slash in refl) in
      let z : is_nil p ≡ true = ap is_nil (sym t ∙ ap trim_right_slash root ∙ nil) in
      absurd (ground arith)
]

trim_right_slash_idem : (s : Text) → trim_right_slash (trim_right_slash s) ≡ trim_right_slash s
unfolding trim_right_slash
trim_right_slash_idem s = trim_right_idem is_slash s

no_base_again : normalize_base_path [] ≡ ok []
unfolding normalize_base_path trim_space is_nil
no_base_again = refl

base_again :
    (p : Text)
    → IsBase p
    → trim_right_slash p ≡ p
    → static_path p ≡ ok p
    → normalize_base_path p ≡ ok p
unfolding normalize_base_path is_nil trim_space
base_again p (no_base _ z) t e = subst (λ x. normalize_base_path x ≡ ok x) (sym z) no_base_again
base_again p (below _ q z) t e =
    let (same, a, b) = static_path-ok p p e in
    let solid = trim_space_solid p (IsSolid-static p b) in
    let n : is_nil p ≡ false = ap is_nil z in
    let w : with_slash p ≡ p = ap with_slash z ∙ with_slash_kept q ∙ sym z in
    rw (solid, n, not_root p t n, w, t) e

-- A base path that was normalised is normalised to itself.
pub normalize_base_path-again :
    (value path : Text) → normalize_base_path value ≡ ok path → normalize_base_path path ≡ ok path
unfolding normalize_base_path
normalize_base_path-again value path e =
    elim (Bool-cases (is_nil (trim_space value) || text_eq (trim_space value) (codes "/"))) [
      | inl k ↦
          let z : [] ≡ path = ground arith in
          subst (λ x. normalize_base_path x ≡ ok x) z no_base_again
      | inr k ↦
          let e' : static_path (trim_right_slash (with_slash (trim_space value))) ≡ ok path =
            rw (k, normalize_base_path) at e in
          let (same, a, b) =
            static_path-ok (trim_right_slash (with_slash (trim_space value))) path e' in
          base_again path (subst IsBase same (with_slash-trimmed (trim_space value)))
            (subst (λ x. trim_right_slash x ≡ x) same
              (trim_right_slash_idem (with_slash (trim_space value))))
            (subst (λ x. static_path x ≡ ok path) same e')
    ]

pub trim_space-base_path :
    (value path : Text) → normalize_base_path value ≡ ok path → trim_space path ≡ path
unfolding normalize_base_path
trim_space-base_path value path e =
    elim (Bool-cases (is_nil (trim_space value) || text_eq (trim_space value) (codes "/"))) [
      | inl k ↦
          let z : [] ≡ path = ground arith in
          subst (λ x. trim_space x ≡ x) z (trim_space_solid [] tt)
      | inr k ↦
          let e' : static_path (trim_right_slash (with_slash (trim_space value))) ≡ ok path =
            rw (k, normalize_base_path) at e in
          let (same, a, b) =
            static_path-ok (trim_right_slash (with_slash (trim_space value))) path e' in
          subst (λ x. trim_space x ≡ x) same (trim_space_solid _ (IsSolid-static _ b))
    ]
