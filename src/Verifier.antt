-- ===== src/Verifier.antt =====
-- verifier.go: the setup of a verifier, and `Verify`. A pointer that may be nil is an `Option`. The JWT
-- library is the parameter `parse`; its documented behaviour is the record `IsParser`.
pub mod Soundness
pub mod Accepting
use orionis.Base.{
  ◌≢◌, ℕ, ◌≡◌, refl, Bool, true, false, not, ◌&&◌, ◌||◌, Option, none, some, List, [], ◌∷◌,
  if◌then◌else◌, is_nil, is_some, Has,
}
use mathlib.Core.Option
use orionis.Base.Int.{ℤ, pos, ltb_ℤ, ◌+ℤ◌, ◌≤ℤ◌, ◌<ℤ◌}
use orionis.Text.{Text, codes, text_eq, trim_space, trim_right_slash}
use orionis.Stringset
use orionis.Claims.{Claims}
use orionis.Token.{token_use_access}

-- What a key provider answers: the key, or an error.
pub data KeyResult (K : Type 0) : Type 0 where
  found : K → KeyResult K
  failed : KeyResult K

-- `Key(ctx, kid, alg)`
abbrev pub KeyProvider : Type 0 → Type 0
KeyProvider K = Text → Text → KeyResult K

pub record Verifier (K : Type 0) : Type 0 where
  pub issuer : Text
  pub audience : Text
  pub provider : Option (KeyProvider K)
  pub leeway : ℤ
  pub valid_algs : List Text
  pub require_use : Text

unfoldable pub default_algorithms : List Text
default_algorithms = codes "EdDSA" ∷ codes "RS256" ∷ codes "PS256" ∷ codes "ES256" ∷ []

abbrev pub default_leeway : ℤ
default_leeway = pos 30_000_000_000

-- The options that `Verify` hands to the JWT parser.
pub record ParserOptions : Type 0 where
  pub expiration_required : Bool
  pub check_issued_at : Bool
  pub valid_methods : List Text
  pub issuer : Option Text
  pub audience : Option Text
  pub leeway : Option ℤ

-- The header of a token; `kid` is `none` if it is absent or no string.
pub record TokenHeader : Type 0 where
  pub kid : Option Text
  pub alg : Text

-- The leeway of a parser.
unfoldable pub leeway_of : Option ℤ → ℤ
leeway_of none = pos 0
leeway_of (some leeway) = leeway

-- What the JWT library reads of a text, if it is a token: the header, the claims, and whether the
-- signature fits a key; and the time at which it does.
pub record Jwt (K : Type 0) : Type 0 where
  pub read_header : Text → Option TokenHeader
  pub read_claims : Text → Option Claims
  pub signature_valid : Text → K → Bool
  pub now : ℤ

-- A parsed token with its flag `Valid`, or an error.
pub data Parsed : Type 0 where
  parsed : Bool → Claims → Parsed
  rejected : Parsed

pub data VerifyError : Type 0 where
  missing_token nil_verifier nil_provider parse_failed not_valid unexpected_use no_identity :
      VerifyError

pub record VerifiedToken : Type 0 where
  pub raw : Text
  pub claims : Claims

pub data Verified : Type 0 where
  verified : VerifiedToken → Verified
  refused : VerifyError → Verified

-- A text that is not empty.
given : Text → Option Text
given s = if is_nil s then none else some s

-- The checks behind the parser.
check_claims : Text → Text → Parsed → Verified
check_claims require_use raw rejected = refused parse_failed
check_claims require_use raw (parsed valid claims) =
    if not valid
    then refused not_valid
    else if not (is_nil require_use) && not (text_eq claims.token_use require_use)
    then refused unexpected_use
    else if is_nil claims.subject || is_nil claims.client_id
    then refused no_identity
    else verified (record { raw = raw; claims = claims })

module _ {K : Type 0} where
  unfoldable pub new_verifier : Verifier K
  new_verifier = record {
    issuer = [];
    audience = [];
    provider = none;
    leeway = default_leeway;
    valid_algs = default_algorithms;
    require_use = token_use_access;
  }

  unfoldable pub set_issuer : Option (Verifier K) → Text → Option (Verifier K)
  set_issuer none issuer = none
  set_issuer (some v) issuer = some (record v { issuer = trim_right_slash (trim_space issuer) })

  unfoldable pub set_audience : Option (Verifier K) → Text → Option (Verifier K)
  set_audience none audience = none
  set_audience (some v) audience = some (record v { audience = trim_space audience })

  unfoldable pub set_key_provider :
      Option (Verifier K) → Option (KeyProvider K) → Option (Verifier K)
  set_key_provider none provider = none
  set_key_provider (some v) provider = some (record v { provider = provider })

  unfoldable pub set_leeway : Option (Verifier K) → ℤ → Option (Verifier K)
  set_leeway none leeway = none
  set_leeway (some v) leeway = some (record v { leeway = leeway })

  unfoldable pub set_algorithms : Option (Verifier K) → List Text → Option (Verifier K)
  set_algorithms none algs = none
  set_algorithms (some v) algs = some (record v { valid_algs = Stringset.normalize algs })

  unfoldable pub set_token_use : Option (Verifier K) → Text → Option (Verifier K)
  set_token_use none token_use = none
  set_token_use (some v) token_use = some (record v { require_use = trim_space token_use })

  unfoldable pub without_token_use_check : Option (Verifier K) → Option (Verifier K)
  unfolding set_token_use
  without_token_use_check v = set_token_use v []

  unfoldable pub verifier_for : Text → Text → Option (KeyProvider K) → Option (Verifier K)
  unfolding new_verifier set_issuer set_audience set_key_provider
  verifier_for issuer audience provider =
      set_key_provider (set_audience (set_issuer (some new_verifier) issuer) audience) provider

  pub effective_algs : Verifier K → List Text
  effective_algs v = if is_nil v.valid_algs then default_algorithms else v.valid_algs

  pub parser_options : Verifier K → ParserOptions
  unfolding effective_algs given
  parser_options v = record {
    expiration_required = true;
    check_issued_at = true;
    valid_methods = effective_algs v;
    issuer = given v.issuer;
    audience = given v.audience;
    leeway = if ltb_ℤ (pos 0) v.leeway then some v.leeway else none;
  }

  -- The function that finds the key of a token; `none` is the zero value of the header's kid.
  pub key_func : KeyProvider K → TokenHeader → KeyResult K
  key_func provider header =
      if is_nil (trim_space (Option.get_or header.kid []))
      then failed
      else provider (Option.get_or header.kid []) header.alg

  unfoldable pub verify :
      (ParserOptions → Text → (TokenHeader → KeyResult K) → Parsed)
      → Option (Verifier K)
      → Text
      → Verified
  unfolding parser_options key_func check_claims
  verify parse v raw = if is_nil (trim_space raw) then refused missing_token else elim v [
    | none ↦ refused nil_verifier
    | some w ↦ elim w.provider [
      | none ↦ refused nil_provider
      | some provider ↦
          check_claims w.require_use raw (parse (parser_options w) raw (key_func provider))
    ]
  ]

  -- What the JWT library documents of a token that it calls valid: the text has its header and its
  -- claims, its key was found by the given function from the header, the algorithm is allowed and the
  -- signature fits the key; the issuer and the audience are as asked, where they are not empty; and, but for the leeway, the token
  -- is not over, which is asked for only by an option where it has no end, it has begun, and it was not
  -- issued in the future, which is asked for by an option.
  pub record IsParser (jwt : Jwt K)
      (parse : ParserOptions → Text → (TokenHeader → KeyResult K) → Parsed) : Type 0 where
    pub claims_read :
        (o : ParserOptions) (raw : Text) (keys : TokenHeader → KeyResult K) (c : Claims)
        → parse o raw keys ≡ parsed true c
        → jwt.read_claims raw ≡ some c
    pub key_used :
        (o : ParserOptions) (raw : Text) (keys : TokenHeader → KeyResult K) (c : Claims)
        → parse o raw keys ≡ parsed true c
        → (h : TokenHeader) × (k : K) × (jwt.read_header raw ≡ some h)
          × (keys h ≡ found k)
          × (jwt.signature_valid raw k ≡ true)
          × Has h.alg o.valid_methods
    pub issuer_checked :
        (o : ParserOptions) (raw : Text) (keys : TokenHeader → KeyResult K) (c : Claims) (i : Text)
        → parse o raw keys ≡ parsed true c
        → o.issuer ≡ some i
        → i ≢ []
        → c.issuer ≡ i
    pub audience_checked :
        (o : ParserOptions) (raw : Text) (keys : TokenHeader → KeyResult K) (c : Claims) (a : Text)
        → parse o raw keys ≡ parsed true c
        → o.audience ≡ some a
        → a ≢ []
        → Has a c.audience
    pub has_end :
        (o : ParserOptions) (raw : Text) (keys : TokenHeader → KeyResult K) (c : Claims)
        → parse o raw keys ≡ parsed true c
        → o.expiration_required ≡ true
        → (e : ℤ) × (c.expires_at ≡ some e)
    pub not_over :
        (o : ParserOptions) (raw : Text) (keys : TokenHeader → KeyResult K) (c : Claims) (e : ℤ)
        → parse o raw keys ≡ parsed true c
        → c.expires_at ≡ some e
        → jwt.now <ℤ (e +ℤ leeway_of o.leeway)
    pub begun :
        (o : ParserOptions) (raw : Text) (keys : TokenHeader → KeyResult K) (c : Claims) (b : ℤ)
        → parse o raw keys ≡ parsed true c
        → c.not_before ≡ some b
        → b ≤ℤ (jwt.now +ℤ leeway_of o.leeway)
    pub issued_before :
        (o : ParserOptions) (raw : Text) (keys : TokenHeader → KeyResult K) (c : Claims) (b : ℤ)
        → parse o raw keys ≡ parsed true c
        → o.check_issued_at ≡ true
        → c.issued_at ≡ some b
        → b ≤ℤ (jwt.now +ℤ leeway_of o.leeway)
