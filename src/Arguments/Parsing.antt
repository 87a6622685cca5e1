-- ===== src/Arguments/Parsing.antt =====
-- Which arguments the command takes, and which source of its configuration they name.
use orionis.Base.{
  ◌≡◌, ◌↔◌, refl, sym, ap, subst, ◌∙◌, Bool, true, false, none, some, List, [], ◌∷◌, ◌++◌,
  append-nil, arith,
}
use orionis.Text.{Text}
use orionis.Arguments.{
  operand, asks_help, bad_flag, config_flag, config_path, read_argument, parse_flags,
}
use orionis.Arguments.Reading.{
  flag_text, suffix, IsOperand, read_argument-config, read_argument-operand, read_operand,
  read_written,
}

-- The flag, with one dash or two, and its value, in one argument or in two.
pub data Setting : Type 0 where
  joined apart : Bool → Text → Setting

unfoldable pub written : List Setting → List Text
unfolding flag_text suffix
written [] = []
written (joined two_dashes value ∷ settings) =
    (flag_text two_dashes ++ suffix (some value)) ∷ written settings
written (apart two_dashes value ∷ settings) = flag_text two_dashes ∷ value ∷ written settings

unfoldable pub last_value : Text → List Setting → Text
last_value path [] = path
last_value path (joined two_dashes value ∷ settings) = last_value value settings
last_value path (apart two_dashes value ∷ settings) = last_value value settings

-- Behind the flags there is nothing, or an argument that ends them, and anything.
pub data IsEnd : List Text → Type 0 where
  nothing : IsEnd []
  operands : (arg : Text) (args : List Text) → IsOperand arg → IsEnd (arg ∷ args)

-- Arguments that name a source: settings of the flag, and what ends the flags.
abbrev pub IsLine : Text → List Text → Text → Type 0
IsLine path args source =
    (settings : List Setting) × (tail : List Text) × (args ≡ written settings ++ tail)
    × IsEnd tail
    × (source ≡ last_value path settings)

join-IsLine :
    (b : Bool) (value path : Text) (args : List Text) (source arg : Text)
    → arg ≡ flag_text b ++ suffix (some value)
    → IsLine value args source
    → IsLine path (arg ∷ args) source
unfolding written last_value suffix
join-IsLine b value path args source arg e (settings, tail, parts, end, last) = (
  joined b value ∷ settings,
  tail,
  ap (λ a. a ∷ args) e ∙ ap (λ x. (flag_text b ++ suffix (some value)) ∷ x) parts,
  end,
  last,
)

split-IsLine :
    (b : Bool) (value path : Text) (args : List Text) (source arg : Text)
    → arg ≡ flag_text b ++ suffix none
    → IsLine value args source
    → IsLine path (arg ∷ value ∷ args) source
unfolding written last_value suffix
split-IsLine b value path args source arg e (settings, tail, parts, end, last) = (
  apart b value ∷ settings,
  tail,
  ap (λ a. a ∷ value ∷ args) (e ∙ append-nil (flag_text b))
      ∙ ap (λ x. flag_text b ∷ value ∷ x) parts,
  end,
  last,
)

-- The same, where the next argument may be a value.
abbrev IsLineFrom : Bool → Text → List Text → Text → Type 0
IsLineFrom false path args source = IsLine path args source
IsLineFrom true path args source =
    (value : Text) × (rest : List Text) × (args ≡ value ∷ rest) × IsLine value rest source

parse_flags-IsLineFrom :
    (needs_value : Bool) (path : Text) (args : List Text) (source : Text)
    → parse_flags needs_value path args ≡ config_path source
    → IsLineFrom needs_value path args source
unfolding parse_flags written last_value
parse_flags-IsLineFrom false path [] source e = ([], [], refl, nothing, ground arith)
parse_flags-IsLineFrom true path [] source e = absurd (ground arith)
parse_flags-IsLineFrom true path (value ∷ args) source e =
    (value, args, refl, parse_flags-IsLineFrom false value args source e)
parse_flags-IsLineFrom false path (arg ∷ args) source e =
    (elim (read_argument arg) as (λ r. read_argument arg ≡ r → IsLine path (arg ∷ args) source) [
      | operand ↦ λ f.
          let ended = (rw (f, parse_flags) at e) in
          ([], arg ∷ args, refl, operands arg args (read_argument-operand arg f), ground arith)
      | asks_help ↦ λ f. let ended = (rw (f, parse_flags) at e) in absurd (ground arith)
      | bad_flag ↦ λ f. let ended = (rw (f, parse_flags) at e) in absurd (ground arith)
      | config_flag none ↦ λ f.
          let (b, flag) = read_argument-config arg none f in
          let (value, rest, same, line) =
            parse_flags-IsLineFrom true path args source (rw (f, parse_flags) at e) in
          subst (λ x. IsLine path (arg ∷ x) source) (sym same)
            (split-IsLine b value path rest source arg flag line)
      | config_flag (some value) ↦ λ f.
          let (b, flag) = read_argument-config arg (some value) f in
          join-IsLine b value path args source arg flag
            (parse_flags-IsLineFrom false value args source (rw (f, parse_flags) at e))
    ])
      refl

parse_end :
    (path : Text) (tail : List Text) → IsEnd tail → parse_flags false path tail ≡ config_path path
unfolding parse_flags
parse_end path _ nothing = refl
parse_end path _ (operands arg args i) = rw (read_operand arg i, parse_flags) refl

parse_written :
    (path : Text) (settings : List Setting) (tail : List Text)
    → IsEnd tail
    → parse_flags false path (written settings ++ tail) ≡ config_path (last_value path settings)
unfolding parse_flags written last_value suffix
parse_written path [] tail i = parse_end path tail i
parse_written path (joined b value ∷ settings) tail i =
    rw (read_written b (some value), parse_flags) (parse_written value settings tail i)
parse_written path (apart b value ∷ settings) tail i =
    rw (ap read_argument (sym (append-nil (flag_text b))) ∙ read_written b none, parse_flags)
      (parse_written value settings tail i)

-- The arguments name a source of the configuration just if they begin with settings of -config, each
-- with one dash or two and its value in the same argument or the next, and these are all, or the
-- next argument has no dash in front, is a dash or is two dashes; and then the source is the last value
-- that is set, or the default for none.
pub parse_flags_iff :
    (path : Text) (args : List Text) (source : Text)
    → (parse_flags false path args ≡ config_path source) ↔ IsLine path args source
parse_flags_iff path args source = (
  parse_flags-IsLineFrom false path args source,
  λ (settings, tail, parts, end, last).
      ap (parse_flags false path) parts
      ∙ parse_written path settings tail end
      ∙ ap config_path (sym last),
)
