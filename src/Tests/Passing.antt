-- ===== src/Tests/Passing.antt =====
-- A token that is signed by the key of Tests/Disks, and the verifier of a service that has this key. The
-- signature of claims is their code (Tests/Encoding).
use orionis.Base.{
  subst, ◌*◌, ◌/◌, ◌∙◌, map, ℕ, ◌≡◌, refl, sym, ap, true, false, none, some, List, [], ◌∷◌, arith,
  is_nil, Option,
}
use orionis.Base.Int.{pos_part, ℤ, pos, ◌+ℤ◌}
use orionis.Text.{Text, codes, trim_space}
use orionis.Claims.{Claims}
use orionis.Jwk.Key.{PublicKey}
use orionis.Jwk.Static.{StaticProvider, provider, new_static_provider}
use orionis.Jwk.Ed25519.{Crypto, sign, public_jwk}
use orionis.Jwk.Ed25519.Creating.{IsCrypto}
use orionis.Verifier.{
  KeyResult, ParserOptions, TokenHeader, Parsed, parsed, rejected, verified, verifier_for, verify,
}
use orionis.Tokens.{keys_of, IsReader, IsDate, IsInTime}
use orionis.Tokens.Passing.{memory-HasIds}
use orionis.Jwk.Key.{Key, new_ed25519_key}
use orionis.Jwk.Decode.{decode_public_key, validate_declared_algorithm}
use orionis.Jwk.Set.{decode_set}
use orionis.Server.Client.{normalize}
use orionis.Server.Config.{Signer, Config, Server}
use orionis.Server.Http.{Forms, Request, token_request, write_json, key_cache, keys_body}
use orionis.Authapp.Materials.{as_signer}
use orionis.Tokens.Serving.{served-verify}
use orionis.Tests.Serving
use orionis.Tests.Encoding.{
  encode_claims, decode_claims, decode_claims-encode_claims, encode_claims_given,
}
use orionis.Server.TokenService.{Environment}
use orionis.Token.{TokenResponse}
use orionis.Jwk.Ed25519.Keeping.{IsSigner}
use orionis.Tests.Disks.{crypto, codec, crypto-IsCrypto, codec-IsBase64, stored, stored-IsSigner}
use orionis.Tests.Issuing.{digest, environment, answer, shop}

abbrev token : Claims
token = record {
  issuer = codes "https://auth";
  subject = codes "shop";
  audience = codes "api" ∷ [];
  expires_at = some (pos 1_900_000_000_000);
  not_before = some (pos 1_000_000_000_000);
  issued_at = some (pos 1_000_000_000_000);
  id = codes "id1";
  client_id = codes "shop";
  scope = codes "o.r";
  token_use = codes "access";
}

abbrev signing : Crypto
signing = record crypto { signed_string = λ alg kid c k. some (encode_claims c) }

signing-IsCrypto : IsCrypto signing
signing-IsCrypto = record {
  decode-encode = crypto-IsCrypto.decode-encode;
  parse-marshal = crypto-IsCrypto.parse-marshal;
  made_size = crypto-IsCrypto.made_size;
  parsed_whole = crypto-IsCrypto.parsed_whole;
  public_size = crypto-IsCrypto.public_size;
}

signing-IsSigner : IsSigner signing (codes "k1") stored
signing-IsSigner = record {
  kid_is = stored-IsSigner.kid_is;
  whole = stored-IsSigner.whole;
  size = stored-IsSigner.size;
}

abbrev parsed_of : Option Claims → Parsed
parsed_of none = rejected
parsed_of (some c) = parsed true c

abbrev parse : ParserOptions → Text → (TokenHeader → KeyResult PublicKey) → Parsed
parse o raw keys = parsed_of (decode_claims raw)

-- A date that is kept has whole seconds, and is none before 1970.
kept_date :
    (d : Option ℤ) (t : ℤ) (k : IsDate t) → d ≡ some t → d ≡ some (pos (k.0 * 1_000_000_000))
kept_date d t (n, small, is) e = e ∙ ap (λ x. some x) is

in_time-decode_claims :
    (leeway now : ℤ) (c : Claims) → IsInTime leeway now c → decode_claims (encode_claims c) ≡ some c
in_time-decode_claims leeway now c t =
    decode_claims-encode_claims c _ _ _
      (kept_date c.expires_at t.expires t.expires_kept t.expires_is)
      (kept_date c.not_before t.begins t.begins_kept t.not_before_is)
      (kept_date c.issued_at t.begins t.begins_kept t.issued_at_is)

some_text : (a b : Text) → some a ≡ some b → a ≡ b
some_text a b e = ground arith

parse-IsReader : IsReader signing parse (pos 1_500_000_000_000)
parse-IsReader = record {
  signed_given = λ kid c k raw e.
      subst (λ x. is_nil (trim_space x) ≡ false) (some_text (encode_claims c) raw e)
        (encode_claims_given c);
  reads = λ o kid c k raw keys whole e key alg issuer audience time.
      ap (λ x. parsed_of (decode_claims x)) (sym (some_text (encode_claims c) raw e))
      ∙ ap parsed_of (in_time-decode_claims _ _ c time);
}

abbrev key_signer : Signer
key_signer = as_signer signing codec stored

-- A clock and a lifetime of whole seconds.
abbrev dated : Environment
dated = record environment {
  now = pos 1_000_000_000_000;
  numeric_date = λ t. pos (pos_part t / 1_000_000_000 * 1_000_000_000);
  whole_seconds = λ t. pos (pos_part t / 1_000_000_000);
  sign = key_signer.sign;
}

abbrev token_answer : TokenResponse
token_answer = record answer { access_token = encode_claims token }

-- The same by HTTP: a server whose signer has the key, and its two endpoints.
abbrev key_config : Config ℕ
key_config = record Serving.config {
  signers = some key_signer ∷ [];
  access_token_ttl = pos 900_000_000_000;
}

abbrev key_server : Server ℕ
key_server = record Serving.server {
  signers = some key_signer ∷ [];
  active_signer = key_signer;
  tokens = record Serving.server.tokens { access_token_ttl = pos 900_000_000_000 };
}

abbrev keys_request : Request
keys_request = record Serving.request { method = codes "GET" }

abbrev published : List Key
published = public_jwk signing codec (some stored) ∷ []

audience_asked :
    (f : Forms)
    → Serving.request.parse_form key_server.max_token_request_body ≡ some f
    → trim_space (codes " api") ≡ (token_request Serving.request.basic_auth f).audience
unfolding Serving.serve
audience_asked f e =
    let same : Serving.forms ≡ f = ground arith in
    ap (λ x. (token_request Serving.request.basic_auth x).audience) same

published_provider : (p : StaticProvider) × (new_static_provider codec published ≡ provider p)
unfolding Serving.serve new_static_provider decode_set public_jwk new_ed25519_key
    validate_declared_algorithm decode_public_key
published_provider = (_, refl)

served-verify_example :
    (claims : Claims) × (verify parse
        (verifier_for (codes "https://auth/") (codes " api") (some (keys_of published_provider.0)))
        token_answer.access_token
      ≡ verified (record { raw = token_answer.access_token; claims = claims }))
    × (claims.scope ≡ token_answer.scope)
unfolding Serving.serve sign encode_claims ◌+ℤ◌ as_signer
served-verify_example =
    served-verify signing signing-IsCrypto codec codec-IsBase64 parse (pos 1_500_000_000_000)
      parse-IsReader digest (codes "k1") stored signing-IsSigner 0 key_config key_server refl refl
      dated Serving.request keys_request token_answer
      (write_json (key_cache ∷ []) 200 (keys_body published)) published published_provider.0
      (codes "https://auth/") (codes " api")
      (memory-HasIds (codes "https://auth") (map normalize (shop ∷ [])) (pos 900_000_000_000)) refl
      refl refl refl published_provider.1 refl audience_asked (1000, omega arith, refl)
      (1900, omega arith, refl) (omega arith) (omega arith)
