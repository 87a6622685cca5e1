-- ===== src/Arguments/Reading.antt =====
-- What one argument of the command is read as.
use orionis.Base.{
  ℕ, ◌≡◌, ◌≢◌, inl, inr, refl, sym, ap, subst, ◌∙◌, Bool, true, false, ◌||◌, Option, none, some, [],
  ◌∷◌, ◌++◌, arith, if◌then◌else◌, is_nil, ◌==◌, Bool-cases,
}
use orionis.Text.{Text, codes, text_eq}
use orionis.Text.Order.{eq_of_text_eq}
use orionis.Arguments.{operand, config_flag, split_value, flag_of, read_flag, read_argument}

-- The flag, with one dash or two.
unfoldable pub flag_text : Bool → Text
flag_text two_dashes = if two_dashes then codes "--config" else codes "-config"

-- What stands behind the name of the flag.
unfoldable pub suffix : Option Text → Text
suffix none = []
suffix (some value) = codes "=" ++ value

-- An argument that ends the flags: it has no dash in front, is a dash, or two dashes.
pub data IsOperand : Text → Type 0 where
  blank : IsOperand []
  single : (c : ℕ) → IsOperand (c ∷ [])
  plain : (c d : ℕ) (s : Text) → (c == b'-') ≡ false → IsOperand (c ∷ d ∷ s)
  two_dashes : IsOperand (codes "--")

split_value-append : (s : Text) → s ≡ (split_value s).0 ++ suffix (split_value s).1
unfolding split_value suffix
split_value-append [] = refl
split_value-append (c ∷ s) = elim (Bool-cases (c == b'=')) [
  | inl k ↦ let same : c ≡ b'=' = ground arith in rw k (ap (λ d. d ∷ s) same)
  | inr k ↦ rw k (ap (λ t. c ∷ t) (split_value-append s))
]

flag_of-config :
    (name : Text) (value v : Option Text)
    → flag_of (name, value) ≡ config_flag v
    → name ++ suffix value ≡ codes "config" ++ suffix v
unfolding flag_of
flag_of-config name value v e = elim (Bool-cases (text_eq name (codes "config"))) [
  | inl k ↦
      let same : value ≡ v = ground (arith, k) in
      ap (λ n. n ++ suffix value) (eq_of_text_eq name (codes "config") k)
      ∙ ap (λ x. codes "config" ++ suffix x) same
  | inr k ↦ absurd (ground (arith, k))
]

read_flag-config :
    (s : Text) (v : Option Text) → read_flag s ≡ config_flag v → s ≡ codes "config" ++ suffix v
unfolding read_flag
read_flag-config [] v e = absurd (ground arith)
read_flag-config (c ∷ s) v e = elim (Bool-cases (c == b'-' || c == b'=')) [
  | inl k ↦ absurd (ground arith)
  | inr k ↦
      split_value-append (c ∷ s)
      ∙ flag_of-config (split_value (c ∷ s)).0 (split_value (c ∷ s)).1 v (rw (k, read_flag) at e)
]

one_dash :
    (c d : ℕ) (s : Text)
    → (c == b'-') ≡ true
    → (d == b'-') ≡ false
    → read_argument (c ∷ d ∷ s) ≡ read_flag (d ∷ s)
unfolding read_argument
one_dash c d s k l = ground (arith, k, l)

two :
    (c d : ℕ) (s : Text)
    → (c == b'-') ≡ true
    → (d == b'-') ≡ true
    → is_nil s ≡ false
    → read_argument (c ∷ d ∷ s) ≡ read_flag s
unfolding read_argument
two c d s k l m = rw (k, l, m) refl

pub read_argument-config :
    (arg : Text) (v : Option Text)
    → read_argument arg ≡ config_flag v
    → (b : Bool) × (arg ≡ flag_text b ++ suffix v)
unfolding read_argument flag_text
read_argument-config [] v e = absurd (ground arith)
read_argument-config (c ∷ []) v e = absurd (ground arith)
read_argument-config (c ∷ d ∷ s) v e = elim (Bool-cases (c == b'-')) [
  | inr k ↦ absurd (ground arith)
  | inl k ↦
      let first : c ≡ b'-' = ground arith in
      elim (Bool-cases (d == b'-')) [
        | inr l ↦ (
          false,
          ap (λ x. x ∷ d ∷ s) first
              ∙ ap (λ x. b'-' ∷ x) (read_flag-config (d ∷ s) v (sym (one_dash c d s k l) ∙ e)),
        )
        | inl l ↦
            let second : d ≡ b'-' = ground arith in
            elim (Bool-cases (is_nil s)) [
              | inl m ↦ absurd (ground arith)
              | inr m ↦ (
                true,
                ap (λ x. x ∷ d ∷ s) first
                    ∙ ap (λ x. b'-' ∷ x ∷ s) second
                    ∙ ap (λ x. b'-' ∷ b'-' ∷ x) (read_flag-config s v (sym (two c d s k l m) ∙ e)),
              )
            ]
      ]
]

flag_no_operand : (s : Text) → read_flag s ≢ operand
unfolding read_flag flag_of
flag_no_operand [] e = ground arith
flag_no_operand (c ∷ s) e = ground arith

pub read_argument-operand : (arg : Text) → read_argument arg ≡ operand → IsOperand arg
unfolding read_argument is_nil
read_argument-operand [] e = blank
read_argument-operand (c ∷ []) e = single c
read_argument-operand (c ∷ d ∷ []) e = elim (Bool-cases (c == b'-')) [
  | inr k ↦ plain c d [] k
  | inl k ↦ elim (Bool-cases (d == b'-')) [
    | inl l ↦
        let first : c ≡ b'-' = ground arith in
        let second : d ≡ b'-' = ground arith in
        subst IsOperand (sym (ap (λ x. x ∷ d ∷ []) first ∙ ap (λ x. b'-' ∷ x ∷ []) second))
          two_dashes
    | inr l ↦ absurd (ground (arith, flag_no_operand (d ∷ [])))
  ]
]
read_argument-operand (c ∷ d ∷ x ∷ s) e = elim (Bool-cases (c == b'-')) [
  | inr k ↦ plain c d (x ∷ s) k
  | inl k ↦ absurd (ground (arith, flag_no_operand (d ∷ x ∷ s), flag_no_operand (x ∷ s)))
]

pub read_operand : (arg : Text) → IsOperand arg → read_argument arg ≡ operand
unfolding read_argument is_nil
read_operand _ blank = refl
read_operand _ (single c) = refl
read_operand _ (plain c d s k) = rw k refl
read_operand _ two_dashes = refl

pub read_written :
    (b : Bool) (v : Option Text) → read_argument (flag_text b ++ suffix v) ≡ config_flag v
unfolding flag_text suffix read_argument read_flag split_value flag_of text_eq is_nil
read_written true none = refl
read_written true (some v) = refl
read_written false none = refl
read_written false (some v) = refl
