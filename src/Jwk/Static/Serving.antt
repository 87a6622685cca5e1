-- ===== src/Jwk/Static/Serving.antt =====
-- What `Key` of the static provider answers.
use orionis.Base.{
  ◌≡◌, ◌⊎◌, ◌∙◌, ap, subst, is_nil, nil_of_is_nil, Bool-cases, inl, inr, refl, Option, none, some,
  List, [], ◌∷◌, arith, Option-cases, Any,
}
use orionis.Text.{Text, text_eq}
use orionis.Text.Order.{text_eq_iff}
use orionis.Jwk.Decode.{decode_public_key}
use orionis.Text.Dict.{lookup}
use orionis.Jwk.Key.{Key, DecodedKey, PublicKey, Codec, for_algorithm}
use orionis.Jwk.Set.{DecodeResult, decoded, decode_failed, decode_set}
use orionis.Jwk.Set.Decoding.{IsDecoded, decode_set_finds}
use orionis.Jwk.Static.{
  StaticProvider, provider, new_static_provider, answer, answer_for, static_key,
}

-- The published key `x` has this kid, passes the tests of a set, and is decoded to the key `k`; and it
-- names the algorithm that is asked for, unless it names none or none is asked for.
pub record IsPublished (codec : Codec) (kid alg : Text) (k : PublicKey) (x : Key) : Type 0 where
  pub kid_is : x.kid ≡ kid
  pub decoded_key : DecodedKey
  pub decodes : IsDecoded codec x decoded_key
  pub key_is : decode_public_key codec x ≡ some k
  pub fits : (x.alg ≡ []) ⊎ (alg ≡ []) ⊎ (x.alg ≡ alg)

-- A key that is decoded is given for each algorithm but another one than it names.
pub for_algorithm-some :
    (d : DecodedKey) (alg : Text) (k : PublicKey)
    → for_algorithm d alg ≡ some k
    → (d.public_key ≡ k) × ((d.declared_alg ≡ []) ⊎ (alg ≡ []) ⊎ (d.declared_alg ≡ alg))
unfolding for_algorithm
for_algorithm-some d alg k e = elim (Bool-cases (is_nil d.declared_alg)) [
  | inl n ↦ (ground arith, inl (nil_of_is_nil d.declared_alg n))
  | inr n ↦ elim (Bool-cases (is_nil alg)) [
    | inl m ↦ (ground arith, inr (inl (nil_of_is_nil alg m)))
    | inr m ↦ elim (Bool-cases (text_eq d.declared_alg alg)) [
      | inl s ↦ (ground arith, inr (inr ((text_eq_iff d.declared_alg alg).0 s)))
      | inr s ↦ absurd (ground arith)
    ]
  ]
]

answered_fits :
    (o : Option DecodedKey) (alg : Text) (k : PublicKey)
    → answer_for o alg ≡ answer k
    → (d : DecodedKey) × (o ≡ some d) × (for_algorithm d alg ≡ some k)
unfolding answer_for
answered_fits none alg k e = absurd (ground arith)
answered_fits (some d) alg k e = elim (Option-cases (for_algorithm d alg)) [
  | inl x ↦ absurd (ground arith)
  | inr (y, x) ↦ (d, refl, ground arith)
]

provided_set :
    (codec : Codec) (set : List Key) (p : StaticProvider) (r : DecodeResult)
    → decode_set codec set ≡ r
    → new_static_provider codec set ≡ provider p
    → decode_set codec set ≡ decoded p.keys
unfolding new_static_provider
provided_set codec set p (decoded m) k e = ground arith
provided_set codec set p (decode_failed x) k e = absurd (ground arith)

published :
    (codec : Codec) (kid alg : Text) (k : PublicKey) (d : DecodedKey) (ks : List Key)
    → for_algorithm d alg ≡ some k
    → Any (λ x. (x.kid ≡ kid) × IsDecoded codec x d) ks
    → Any (IsPublished codec kid alg k) ks
published codec kid alg k d [] f h = absurd h
published codec kid alg k d (x ∷ ks) f (inl (i, v)) =
    let (same, named) = for_algorithm-some d alg k f in
    inl (record {
      kid_is = i;
      decoded_key = d;
      decodes = v;
      key_is = v.key_is ∙ ap (λ y. some y) same;
      fits = subst (λ a. (a ≡ []) ⊎ (alg ≡ []) ⊎ (a ≡ alg)) v.alg_is named;
    })
published codec kid alg k d (x ∷ ks) f (inr h) = inr (published codec kid alg k d ks f h)

-- A key that a static provider answers is decoded from a key of its set that has the kid, that passes
-- the tests of the set, and that names the algorithm that is asked for, unless it names none or none is
-- asked for.
pub static_key_sound :
    (codec : Codec) (set : List Key) (p : StaticProvider) (kid alg : Text) (k : PublicKey)
    → new_static_provider codec set ≡ provider p
    → static_key p kid alg ≡ answer k
    → Any (IsPublished codec kid alg k) set
unfolding static_key
static_key_sound codec set p kid alg k e a =
    let (d, held, fits) = answered_fits (lookup kid p.keys) alg k a in
    published codec kid alg k d set fits
      (decode_set_finds codec set p.keys kid d (provided_set codec set p _ refl e) held)
