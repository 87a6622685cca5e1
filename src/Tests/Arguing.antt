-- ===== src/Tests/Arguing.antt =====
-- Arguments of the command: the flag in three spellings, and an argument behind it.
use orionis.Base.{◌≡◌, ◌↔◌, refl, true, false, List, [], ◌∷◌}
use orionis.Text.{Text, codes}
use orionis.Arguments.{config_path, parse_flags}
use orionis.Arguments.Parsing.{
  joined, apart, written, last_value, IsLine, operands, parse_flags_iff,
}
use orionis.Arguments.Reading.{plain}

abbrev pub args : List Text
args = codes "-config" ∷ codes "other" ∷ codes "--config=config" ∷ codes "now" ∷ codes "-x" ∷ []

args-IsLine : (path : Text) → IsLine path args (codes "config")
unfolding written last_value
args-IsLine path = (
  apart false (codes "other") ∷ joined true (codes "config") ∷ [],
  codes "now" ∷ codes "-x" ∷ [],
  refl,
  operands (codes "now") (codes "-x" ∷ []) (plain b'n' b'o' (codes "w") refl),
  refl,
)

parse_flags_iff_example :
    (parse_flags false (codes "default") args ≡ config_path (codes "config"))
    ↔ IsLine (codes "default") args (codes "config")
parse_flags_iff_example = parse_flags_iff (codes "default") args (codes "config")

pub args_named : (path : Text) → parse_flags false path args ≡ config_path (codes "config")
args_named path = (parse_flags_iff path args (codes "config")).1 (args-IsLine path)
