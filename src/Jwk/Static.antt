-- ===== src/Jwk/Static.antt =====
-- jwk/static.go: a builder for a fixed set of keys, and its provider. A builder that may be nil is an
-- `Option`; `Must` panics where `build` fails.
pub mod Serving
use orionis.Base.{Option, none, some, List, [], ◌∷◌, ◌++◌}
use orionis.Text.{Text}
use orionis.Text.Dict.{lookup}
use orionis.Jwk.Key.{Key, PublicKey, DecodedKey, Codec, for_algorithm}
use orionis.Jwk.Set.{DecodeError, decoded, decode_failed, decode_set}

pub record StaticBuilder : Type 0 where
  pub set : List Key

unfoldable pub add_keys : Option StaticBuilder → List Key → Option StaticBuilder
add_keys none keys = none
add_keys (some b) keys = some (record b { set = b.set ++ keys })

unfoldable pub add_key : Option StaticBuilder → Key → Option StaticBuilder
add_key none key = none
add_key (some b) key = some (record b { set = b.set ++ key ∷ [] })

unfoldable pub set_set : Option StaticBuilder → List Key → Option StaticBuilder
set_set none set = none
set_set (some b) set = some (record b { set = set })

unfoldable pub static_builder : List Key → Option StaticBuilder
unfolding add_keys
static_builder keys = add_keys (some (record { set = [] })) keys

pub record StaticProvider : Type 0 where
  pub keys : List (Text × DecodedKey)

-- `nil_builder` is the error for a nil builder.
pub data StaticResult : Type 0 where
  provider : StaticProvider → StaticResult
  static_failed : DecodeError → StaticResult
  nil_builder : StaticResult

unfoldable pub new_static_provider : Codec → List Key → StaticResult
new_static_provider codec set = elim (decode_set codec set) [
  | decoded keys ↦ provider (record { keys = keys })
  | decode_failed e ↦ static_failed e
]

unfoldable pub build : Codec → Option StaticBuilder → StaticResult
unfolding new_static_provider
build codec none = nil_builder
build codec (some b) = new_static_provider codec b.set

-- What a provider answers for a kid and an algorithm.
pub data KeyAnswer : Type 0 where
  answer : PublicKey → KeyAnswer
  key_not_found : KeyAnswer
  wrong_algorithm : KeyAnswer

unfoldable pub answer_for : Option DecodedKey → Text → KeyAnswer
answer_for none alg = key_not_found
answer_for (some k) alg = elim (for_algorithm k alg) [
  | none ↦ wrong_algorithm
  | some key ↦ answer key
]

unfoldable pub static_key : StaticProvider → Text → Text → KeyAnswer
unfolding answer_for
static_key p kid alg = answer_for (lookup kid p.keys) alg
