-- ===== src/Text.antt =====
-- Go's `string` as the code points of its text, and the functions of the package `strings` that the
-- program calls. A text is valid UTF-8, so that an order or a search by bytes is the one by code
-- points. `is_space` is `unicode.IsSpace`.
pub mod Order
pub mod Trim
pub mod Fields
pub mod Search
pub mod Dict
pub mod Entries
use Prim.Native.Char.{code}
use Prim.Native.String.{String}
use orionis.Base.{
  ℕ, zero, suc, ◌+◌, ◌-◌, ◌≡◌, ◌≢◌, refl, Bool, true, false, not, ◌&&◌, ◌||◌, Option, none, some,
  List, [], ◌∷◌, ◌++◌, arith, ltb, leb, ◌==◌, if◌then◌else◌, All, is_nil, is_some,
}

abbrev pub Text : Type 0
Text = List ℕ

-- The code points of a literal.
abbrev pub codes : String → Text
codes String.[] = []
codes (String.◌∷◌ c s) = code c ∷ codes s

unfoldable pub text_eq : Text → Text → Bool
text_eq [] [] = true
text_eq [] (y ∷ ys) = false
text_eq (x ∷ xs) [] = false
text_eq (x ∷ xs) (y ∷ ys) = x == y && text_eq xs ys

-- The order of strings, as `slices.Sort` uses it.
unfoldable pub text_ltb : Text → Text → Bool
text_ltb [] [] = false
text_ltb [] (y ∷ ys) = true
text_ltb (x ∷ xs) [] = false
text_ltb (x ∷ xs) (y ∷ ys) = ltb x y || x == y && text_ltb xs ys

unfoldable pub is_space : ℕ → Bool
is_space c =
    leb 9 c && leb c 13
    || c == 0x20
    || c == 0x85
    || c == 0xa0
    || c == 0x1680
    || leb 0x2000 c && leb c 0x200a
    || c == 0x2028
    || c == 0x2029
    || c == 0x202f
    || c == 0x205f
    || c == 0x3000

-- `strings.TrimLeft` and `strings.TrimRight` by a test on characters.
unfoldable pub trim_left_by : (ℕ → Bool) → Text → Text
trim_left_by p [] = []
trim_left_by p (c ∷ s) = elim (p c) [ true ↦ trim_left_by p s | false ↦ c ∷ s ]

-- A character in front of what is left of the text behind it.
keep_unless : (ℕ → Bool) → ℕ → Text → Text
keep_unless p c [] = if p c then [] else c ∷ []
keep_unless p c (d ∷ s) = c ∷ d ∷ s

unfoldable pub trim_right_by : (ℕ → Bool) → Text → Text
unfolding keep_unless
trim_right_by p [] = []
trim_right_by p (c ∷ s) = keep_unless p c (trim_right_by p s)

-- `strings.TrimSpace`
unfoldable pub trim_space : Text → Text
unfolding trim_left_by trim_right_by is_space
trim_space s = trim_right_by is_space (trim_left_by is_space s)

-- `strings.TrimRight(s, "/")`
unfoldable pub trim_right_slash : Text → Text
unfolding trim_right_by
trim_right_slash = trim_right_by (λ c. c == b'/')

-- The word read so far, if there is one.
flush : Text → List Text
flush [] = []
flush (c ∷ w) = (c ∷ w) ∷ []

fields_from : Text → Text → List Text
fields_from w [] = flush w
fields_from w (c ∷ s) = elim (is_space c) [
  | true ↦ flush w ++ fields_from [] s
  | false ↦ fields_from (w ++ c ∷ []) s
]

-- `strings.Fields`
unfoldable pub fields : Text → List Text
unfolding fields_from flush is_space
fields s = fields_from [] s

join_rest : Text → List Text → Text
join_rest sep [] = []
join_rest sep (w ∷ ws) = sep ++ (w ++ join_rest sep ws)

-- `strings.Join`, its arguments in the order of the library's lists
unfoldable pub join : List Text → Text → Text
unfolding join_rest
join [] sep = []
join (w ∷ ws) sep = w ++ join_rest sep ws

-- `strings.HasPrefix` together with `strings.TrimPrefix`: the rest behind the prefix.
unfoldable pub cut_prefix : Text → Text → Option Text
cut_prefix s [] = some s
cut_prefix [] (p ∷ ps) = none
cut_prefix (c ∷ s) (p ∷ ps) = if c == p then cut_prefix s ps else none

-- `strings.HasSuffix` together with `strings.TrimSuffix`: the part before the suffix.
unfoldable pub cut_suffix : Text → Text → Option Text
unfolding text_eq
cut_suffix [] suffix = if text_eq [] suffix then some [] else none
cut_suffix (c ∷ s) suffix =
    let rest = cut_suffix s suffix in
    if text_eq (c ∷ s) suffix then some [] else elim rest [ none ↦ none | some p ↦ some (c ∷ p) ]

-- `strings.Count` and `strings.Contains` of a single character
unfoldable pub count : Text → ℕ → ℕ
count [] d = 0
count (c ∷ s) d = (if c == d then 1 else 0) + count s d

unfoldable pub contains_char : Text → ℕ → Bool
contains_char [] d = false
contains_char (c ∷ s) d = c == d || contains_char s d

-- `strings.IndexFunc(s, p) >= 0` and, for a test of membership in a set, `strings.ContainsAny`
unfoldable pub contains_by : (ℕ → Bool) → Text → Bool
contains_by p [] = false
contains_by p (c ∷ s) = p c || contains_by p s

-- `unicode.IsControl`
unfoldable pub is_control : ℕ → Bool
is_control c = ltb c 32 || (leb 127 c && ltb c 160)

-- `strings.Contains`
unfoldable pub contains_text : Text → Text → Bool
contains_text [] part = is_nil part
contains_text (c ∷ s) part = is_some (cut_prefix (c ∷ s) part) || contains_text s part

-- The simple case folding of one character, towards the ASCII letters: the capital letters, and the
-- long s and the Kelvin sign, which fold to an s and a k.
unfoldable pub fold_case : ℕ → ℕ
fold_case c =
    if leb b'A' c && leb c b'Z'
    then c + 32
    else if c == 0x17f
    then b's'
    else if c == 0x212a
    then b'k'
    else c

-- `strings.EqualFold(s, t)`, where `t` is ASCII
unfoldable pub equal_fold : Text → Text → Bool
unfolding fold_case
equal_fold [] [] = true
equal_fold [] (d ∷ t) = false
equal_fold (c ∷ s) [] = false
equal_fold (c ∷ s) (d ∷ t) = fold_case c == fold_case d && equal_fold s t

-- `slices.Contains`
unfoldable pub contains : List Text → Text → Bool
unfolding text_eq
contains [] x = false
contains (y ∷ ys) x = text_eq y x || contains ys x

-- A text with no white space.
abbrev pub IsSolid : Text → Type 0
IsSolid = All (λ c. is_space c ≡ false)

-- A word as `fields` returns it.
abbrev pub IsWord : Text → Type 0
IsWord w = (w ≢ []) × IsSolid w

fields_two : fields (codes " a\tbc ") ≡ codes "a" ∷ codes "bc" ∷ []
unfolding fields
fields_two = refl

trim_space_both : trim_space (codes " a b\n") ≡ codes "a b"
unfolding trim_space
trim_space_both = refl

cut_suffix_star : cut_suffix (codes "a.b.*") (codes ".*") ≡ some (codes "a.b")
unfolding cut_suffix
cut_suffix_star = refl
