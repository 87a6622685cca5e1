-- ===== src/Arguments.antt =====
-- cmd/orionis-auth/main.go: the arguments of the command, as the package flag parses them for the one
-- flag that `run` defines, -config.
pub mod Reading
pub mod Parsing
use orionis.Base.{
  ℕ, Bool, true, false, not, ◌||◌, Option, none, some, List, [], ◌∷◌, if◌then◌else◌, is_nil, ◌==◌,
}
use orionis.Text.{Text, codes, text_eq}

-- What one argument is: no flag, so that the flags end with it, the flag -config with a value behind
-- `=` or none, a question for help, or a flag that is malformed or not defined.
pub data Argument : Type 0 where
  operand asks_help bad_flag : Argument
  config_flag : Option Text → Argument

-- What the parsing of all arguments ends with. `help` is flag.ErrHelp.
pub data Arguments : Type 0 where
  config_path : Text → Arguments
  help bad_flags : Arguments

-- The name in front of the first `=`, and the value behind it.
split_value : Text → Text × Option Text
split_value [] = ([], none)
split_value (c ∷ s) = let r = split_value s in if c == b'=' then ([], some s) else (c ∷ r.0, r.1)

flag_of : Text × Option Text → Argument
flag_of (name, value) =
    if text_eq name (codes "config")
    then config_flag value
    else if text_eq name (codes "help") || text_eq name (codes "h")
    then asks_help
    else bad_flag

-- A flag behind its dashes.
read_flag : Text → Argument
unfolding split_value flag_of
read_flag [] = bad_flag
read_flag (c ∷ s) = if c == b'-' || c == b'=' then bad_flag else flag_of (split_value (c ∷ s))

pub read_argument : Text → Argument
unfolding read_flag
read_argument [] = operand
read_argument (c ∷ []) = operand
read_argument (c ∷ d ∷ s) =
    if not (c == b'-')
    then operand
    else if not (d == b'-')
    then read_flag (d ∷ s)
    else if is_nil s
    then operand
    else read_flag s

-- The loop of `Parse`. While `needs_value`, the next argument is the value of -config.
unfoldable pub parse_flags : Bool → Text → List Text → Arguments
unfolding read_argument
parse_flags false path [] = config_path path
parse_flags true path [] = bad_flags
parse_flags true path (value ∷ args) = parse_flags false value args
parse_flags false path (arg ∷ args) = elim (read_argument arg) [
  | operand ↦ config_path path
  | asks_help ↦ help
  | bad_flag ↦ bad_flags
  | config_flag (some value) ↦ parse_flags false value args
  | config_flag none ↦ parse_flags true path args
]
