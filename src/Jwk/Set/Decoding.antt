-- ===== src/Jwk/Set/Decoding.antt =====
-- A decoded set holds exactly the keys of the published one, each under its own kid.
use mathlib.Core.Path.{subst}
use orionis.Base.{
  ◌≡◌, ◌≢◌, ◌⊎◌, inl, inr, refl, sym, true, false, not, ◌&&◌, none, some, List, [], ◌∷◌, arith,
  Bool-cases, Option-cases, All, Any, is_nil, is_nil-false, is_some,
}
use orionis.Text.{Text, text_eq, trim_space}
use orionis.Text.Order.{text_eq_iff, text_eq_refl}
use orionis.Text.Dict.{lookup, insert, lookup-insert}
use orionis.Jwk.Key.{Key, PublicKey, DecodedKey, Codec, use_sig}
use orionis.Jwk.Decode.{decode_public_key, validate_declared_algorithm}
use orionis.Jwk.Set.{
  DecodeError, decoded, ItemResult, item, item_failed, decode_item, decode_loop, decode_set,
}

-- A key that passes the tests and is decoded to `d`.
pub record IsDecoded (codec : Codec) (k : Key) (d : DecodedKey) : Type 0 where
  pub has_kid : trim_space k.kid ≢ []
  pub for_signatures : (k.use_ ≡ []) ⊎ (k.use_ ≡ use_sig)
  pub compatible : validate_declared_algorithm k ≡ true
  pub key_is : decode_public_key codec k ≡ some d.public_key
  pub alg_is : d.declared_alg ≡ k.alg

decode_item-IsDecoded :
    (codec : Codec) (keys : List (Text × DecodedKey)) (k : Key) (d : DecodedKey)
    → decode_item codec keys k ≡ item d
    → (lookup k.kid keys ≡ none) × IsDecoded codec k d
unfolding decode_item is_nil is_some
decode_item-IsDecoded codec keys k d e = elim (Option-cases (decode_public_key codec k)) [
  | inl f ↦ absurd (ground arith)
  | inr (key, f) ↦ (
    ground arith,
    record {
      has_kid = ground arith;
      for_signatures = ground (arith, text_eq_iff k.use_ use_sig);
      compatible = ground arith;
      key_is = ground arith;
      alg_is = ground arith;
    },
  )
]

-- The kids of a list differ from one another.
abbrev pub HasDistinctKids : List Key → Type 0
HasDistinctKids [] = Unit {0}
HasDistinctKids (k ∷ ks) = All (λ j. j.kid ≢ k.kid) ks × HasDistinctKids ks

-- `m` holds the decoded key under its kid.
abbrev pub IsHeld : Codec → List (Text × DecodedKey) → Key → Type 0
IsHeld codec m k = (d : DecodedKey) × (lookup k.kid m ≡ some d) × IsDecoded codec k d

-- What the loop makes of the keys that are left, from the map that it has.
record IsLoop (codec : Codec) (acc : List (Text × DecodedKey)) (ks : List Key)
    (m : List (Text × DecodedKey)) : Type 0 where
  kept : (kid : Text) (d : DecodedKey) → lookup kid acc ≡ some d → lookup kid m ≡ some d
  held : All (IsHeld codec m) ks
  fresh : All (λ k. lookup k.kid acc ≡ none) ks
  distinct : HasDistinctKids ks
  from :
      (kid : Text) (d : DecodedKey)
      → lookup kid m ≡ some d
      → (lookup kid acc ≡ some d) ⊎ Any (λ k. (k.kid ≡ kid) × IsDecoded codec k d) ks

fresh_before :
    (kid : Text) (d : DecodedKey) (acc : List (Text × DecodedKey)) (ks : List Key)
    → All (λ k. lookup k.kid (insert kid d acc) ≡ none) ks
    → All (λ k. lookup k.kid acc ≡ none) ks × All (λ k. k.kid ≢ kid) ks
fresh_before kid d acc [] h = (tt, tt)
fresh_before kid d acc (k ∷ ks) (e, h) =
    let (a, b) = fresh_before kid d acc ks h in
    (
      (ground (arith, lookup-insert kid k.kid d acc), a),
      ((λ f. ground (arith, lookup-insert kid k.kid d acc, text_eq_iff kid k.kid)), b),
    )

Item-cases :
    (r : ItemResult) → ((x : DecodeError) × (r ≡ item_failed x)) ⊎ ((d : DecodedKey) × (r ≡ item d))
Item-cases (item_failed x) = inl (x, refl)
Item-cases (item d) = inr (d, refl)

lookup-insert_self :
    (kid : Text) (d : DecodedKey) (acc : List (Text × DecodedKey))
    → lookup kid (insert kid d acc) ≡ some d
lookup-insert_self kid d acc = ground (arith, lookup-insert kid kid d acc, text_eq_refl kid)

IsLoop-step :
    (codec : Codec) (acc : List (Text × DecodedKey)) (k : Key) (ks : List Key)
    (m : List (Text × DecodedKey)) (d : DecodedKey)
    → (lookup k.kid acc ≡ none) × IsDecoded codec k d
    → IsLoop codec (insert k.kid d acc) ks m
    → IsLoop codec acc (k ∷ ks) m
IsLoop-step codec acc k ks m d (unseen, good) l =
    let (before, others) = fresh_before k.kid d acc ks l.fresh in
    record {
      kept = λ kid x h.
          l.kept kid x (ground (arith, lookup-insert k.kid kid d acc, text_eq_iff k.kid kid));
      held = ((d, l.kept k.kid d (lookup-insert_self k.kid d acc), good), l.held);
      fresh = (unseen, before);
      distinct = (others, l.distinct);
      from = λ kid x h. elim (l.from kid x h) [
        | inr a ↦ inr (inr a)
        | inl a ↦ elim (Bool-cases (text_eq k.kid kid)) [
          | inl same ↦
              let x_eq : d ≡ x = ground (arith, lookup-insert k.kid kid d acc) in
              inr (inl ((text_eq_iff k.kid kid).0 same, subst (IsDecoded codec k) x_eq good))
          | inr other ↦ inl (ground (arith, lookup-insert k.kid kid d acc))
        ]
      ];
    }

decode_loop-IsLoop :
    (codec : Codec) (acc : List (Text × DecodedKey)) (ks : List Key) (m : List (Text × DecodedKey))
    → decode_loop codec acc ks ≡ decoded m
    → IsLoop codec acc ks m
unfolding decode_loop
decode_loop-IsLoop codec acc [] m e =
    let same : acc ≡ m = ground arith in
    record {
      kept = λ kid d h. subst (λ n. lookup kid n ≡ some d) same h;
      held = tt;
      fresh = tt;
      distinct = tt;
      from = λ kid d h. inl (subst (λ n. lookup kid n ≡ some d) (sym same) h);
    }
decode_loop-IsLoop codec acc (k ∷ ks) m e = elim (Item-cases (decode_item codec acc k)) [
  | inl (x, f) ↦ absurd (ground arith)
  | inr (d, f) ↦
      IsLoop-step codec acc k ks m d (decode_item-IsDecoded codec acc k d f)
        (decode_loop-IsLoop codec (insert k.kid d acc) ks m (rw (f, decode_loop) at e))
]

-- Every key of a set that is decoded has a kid that is not blank and no other key has; it is meant for
-- signatures, its algorithm fits it, and it is found decoded under its kid. The set is not empty.
pub decode_set_sound :
    (codec : Codec) (ks : List Key) (m : List (Text × DecodedKey))
    → decode_set codec ks ≡ decoded m
    → (ks ≢ []) × All (IsHeld codec m) ks × HasDistinctKids ks
unfolding decode_set
decode_set_sound codec ks m e = elim (Bool-cases (is_nil ks)) [
  | inl f ↦ absurd (ground arith)
  | inr f ↦
      let l = decode_loop-IsLoop codec [] ks m (rw (f, decode_set) at e) in
      (is_nil-false ks f, l.held, l.distinct)
]

-- What is found in a decoded set is a key of the set with that kid, decoded.
pub decode_set_finds :
    (codec : Codec) (ks : List Key) (m : List (Text × DecodedKey)) (kid : Text) (d : DecodedKey)
    → decode_set codec ks ≡ decoded m
    → lookup kid m ≡ some d
    → Any (λ k. (k.kid ≡ kid) × IsDecoded codec k d) ks
unfolding decode_set lookup
decode_set_finds codec ks m kid d e h = elim (Bool-cases (is_nil ks)) [
  | inl f ↦ absurd (ground arith)
  | inr f ↦ elim ((decode_loop-IsLoop codec [] ks m (rw (f, decode_set) at e)).from kid d h) [
    | inl a ↦ absurd (ground arith)
    | inr a ↦ a
  ]
]

decode_item-one :
    (codec : Codec) (k : Key) (p : PublicKey)
    → is_nil (trim_space k.kid) ≡ false
    → (not (is_nil k.use_) && not (text_eq k.use_ use_sig)) ≡ false
    → validate_declared_algorithm k ≡ true
    → decode_public_key codec k ≡ some p
    → decode_item codec [] k ≡ item (record { public_key = p; declared_alg = k.alg })
unfolding decode_item lookup is_some
decode_item-one codec k p n u v d = rw (n, u, v, d) refl

-- A set of one key that passes the tests is decoded to that key.
pub decode_set-one :
    (codec : Codec) (k : Key) (p : PublicKey)
    → is_nil (trim_space k.kid) ≡ false
    → (not (is_nil k.use_) && not (text_eq k.use_ use_sig)) ≡ false
    → validate_declared_algorithm k ≡ true
    → decode_public_key codec k ≡ some p
    → decode_set codec (k ∷ [])
      ≡ decoded ((k.kid, record { public_key = p; declared_alg = k.alg }) ∷ [])
unfolding decode_set decode_loop insert is_nil
decode_set-one codec k p n u v d = ground (arith, decode_item-one codec k p n u v d)
