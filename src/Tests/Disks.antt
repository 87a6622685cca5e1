-- ===== src/Tests/Disks.antt =====
-- A disk that is a list of files, and keys that are coded as they are.
use orionis.Base.{
  inl, inr, Bool-cases, ℕ, suc, zero, ◌≡◌, refl, subst, ap, sym, ◌∙◌, true, if◌then◌else◌, Option,
  none, some, List, [], ◌∷◌, arith, is_nil, length, ◌==◌,
}
use orionis.Text.{Text, codes, trim_space, trim_right_slash, text_eq, cut_prefix}
use orionis.Text.Dict.{lookup, insert, lookup-insert}
use orionis.Text.Order.{eq_of_text_eq, text_eq_iff, text_eq_refl}
use orionis.Jwk.Key.{Codec}
use orionis.Jwk.Static.{static_key}
use orionis.Jwk.Ed25519.{
  ReadResult, read, not_exist, Files, ed25519_key, parse_error, Crypto, Ed25519Signer, signer_ok,
  default_kid, generate_ed25519_signer, signer_from_pkcs8, signer_of_pkcs8, load_ed25519_signer_pem,
  load_or_create, static_provider,
}
use orionis.Jwk.Ed25519.Creating.{IsCrypto, IsFiles, IsGenerated, IsWhole}
use orionis.Jwk.Ed25519.Keeping.{IsSigner}
use orionis.Jwk.Ed25519.Preserving.{load_or_create_keeps}
use orionis.Jwk.Ed25519.Publishing.{IsBase64}
use orionis.Authapp.Runtime
use orionis.Authapp.Runtime.{ok, ◌>>=◌, ◌>>◌}
use orionis.Authapp.Materials.{expand_path, validate_key_materials, resolve_config}

abbrev zeros : ℕ → List ℕ
zeros zero = []
zeros (suc n) = 0 ∷ zeros n

abbrev pub private_key : List ℕ
private_key = zeros 64

abbrev pub found : Option (List ℕ) → ReadResult
found none = not_exist
found (some raw) = read raw

abbrev pub files : Files
files = record {
  State = List (Text × List ℕ);
  read_file = λ d p. found (lookup p d);
  mkdir_all = λ d p. (d, true);
  write_file = λ d p raw. (insert p raw d, true);
  dir = λ p. p;
}

abbrev pub crypto : Crypto
crypto = record {
  decode_pem = λ raw. some raw;
  encode_to_memory = λ t raw. raw;
  parse_pkcs8 = λ der. if text_eq der private_key then ed25519_key der else parse_error;
  marshal_pkcs8 = λ k. some k;
  new_key_from_seed = λ seed. if length seed == 32 then zeros 64 else [];
  public_key = λ k. zeros 32;
  signed_string = λ alg kid claims k. some (codes "signed");
}

abbrev pub codec : Codec
codec = record { decode_string = λ s. some s; encode_to_string = λ raw. raw; on_p256 = λ raw. true }

made_zeros :
    (seed : List ℕ) → length seed ≡ 32 → (if length seed == 32 then zeros 64 else []) ≡ zeros 64
made_zeros seed e = ground arith

whole_zeros : (k : List ℕ) → IsWhole crypto k → private_key ≡ k
whole_zeros k (seed, e, m) = sym (made_zeros seed e) ∙ m

parse_marshaled :
    (k der : List ℕ)
    → IsWhole crypto k
    → ◌≡◌ {A = Option (List ℕ)} (some k) (some der)
    → crypto.parse_pkcs8 der ≡ ed25519_key k
parse_marshaled k der w m =
    let same : k ≡ der = ground arith in
    subst (λ x. crypto.parse_pkcs8 x ≡ ed25519_key k) same
      (subst (λ x. crypto.parse_pkcs8 x ≡ ed25519_key x) (whole_zeros k w)
        (rw (text_eq_refl private_key) refl))

parsed-IsWhole : (der k : List ℕ) → crypto.parse_pkcs8 der ≡ ed25519_key k → IsWhole crypto k
parsed-IsWhole der k e = elim (Bool-cases (text_eq der private_key)) [
  | inr n ↦ absurd (ground arith)
  | inl n ↦
      let at_der : ed25519_key der ≡ ed25519_key k = rw n at e in
      let same : der ≡ k = ground arith in
      subst (IsWhole crypto) same
        (subst (IsWhole crypto) (sym (eq_of_text_eq der private_key n)) (zeros 32, refl, refl))
]

pub crypto-IsCrypto : IsCrypto crypto
crypto-IsCrypto = record {
  decode-encode = λ der. refl;
  parse-marshal = λ k der w m. parse_marshaled k der w m;
  made_size = λ seed e. ap length (made_zeros seed e);
  parsed_whole = parsed-IsWhole;
  public_size = λ k e. refl;
}

pub codec-IsBase64 : IsBase64 codec
codec-IsBase64 = record { decode-encode = λ raw. refl; encode_given = λ raw g. g }

pub files-IsFiles : IsFiles files
files-IsFiles = record {
  read-write = λ d d' p raw n e. ground (arith, lookup-insert p p raw d, text_eq_refl p);
  write_keeps = λ d p raw q x n h. ground (arith, lookup-insert p q raw d, text_eq_iff p q);
  mkdir_keeps = λ d p q x h. h;
}

pub some_key-IsGenerated : IsGenerated crypto (some private_key)
some_key-IsGenerated k e =
    let same : private_key ≡ k = ground arith in subst (IsWhole crypto) same (zeros 32, refl, refl)

-- What the calls compute with.
unfoldable pub calls : ℕ → ℕ
unfolding load_or_create default_kid trim_space text_eq lookup insert static_provider static_key
    is_nil generate_ed25519_signer resolve_config validate_key_materials expand_path cut_prefix
    load_ed25519_signer_pem signer_from_pkcs8 signer_of_pkcs8 trim_right_slash
    Runtime.effective_key_configs
calls n = n

abbrev pub stored : Ed25519Signer
stored = record { kid = codes "k1"; private_key = private_key }

abbrev pub disk : List (Text × List ℕ)
disk = (codes "other", 1 ∷ []) ∷ []

abbrev pub full_disk : List (Text × List ℕ)
full_disk = (codes "other", 1 ∷ []) ∷ (codes "key.pem", private_key) ∷ []

created :
    load_or_create crypto files (some private_key) disk (codes " key.pem") (codes "k1")
    ≡ (signer_ok stored, full_disk)
unfolding calls
created = refl

load_or_create_keeps_example :
    found (
      lookup
        (codes "other")
        (load_or_create crypto files (some private_key) disk (codes "key.pem") (codes "k1")).1)
    ≡ read (1 ∷ [])
unfolding calls
load_or_create_keeps_example =
    load_or_create_keeps crypto files files-IsFiles (some private_key) disk (codes "key.pem")
      (codes "k1") (codes "other") (1 ∷ []) refl

pub stored-IsSigner : IsSigner crypto (codes "k1") stored
unfolding calls
stored-IsSigner = record { kid_is = refl; whole = (zeros 32, refl, refl); size = refl }
