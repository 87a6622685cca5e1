-- ===== src/Server/Client/Validation.antt =====
-- `Normalize` and `Validate`: what a client that passes is known to be.
use orionis.Base.{
  ◌≡◌, ◌≢◌, ◌↔◌, ◌⊎◌, inl, inr, refl, sym, ap, ◌∙◌, Bool, true, false, not, Option, none, some,
  List, [], ◌∷◌, arith, Bool-cases, Option-cases, All, Any, ℕ, is_nil, first_error,
}
use orionis.Text.{Text, contains_char}
use orionis.Text.Trim.{trim_space_idem}
use orionis.Stringset.Canonical.{normalize_idem}
use orionis.Scopes.Covering.{IsScope, IsScope-valid, valid-IsScope}
use orionis.Scopes.{star, normalize_scopes, contains_scope_wildcard, validate_scope_wildcard}
use orionis.Scopes.Granting.{Grants}
use orionis.Server.Scopes.Resolving.{Grants-of_allowed, allowed_of_Grants}
use orionis.Server.Client.Digests.{IsDigest, decode_digest_iff}
use orionis.Server.Client.{
  Client, ClientError, normalize, normalize_hashes, decode_digest, has_secret, has_credentials,
  check_digests, check_wildcards, check_plain, check_allowed, scope_policy, validate_scope_policy,
  require, checks, validate, id_required, secret_required, audience_required,
}

-- What `Validate` asks of a client.
pub record IsValidClient (c : Client) : Type 0 where
  pub has_id : c.id ≢ []
  pub credentials : Any (λ s. s ≢ []) c.secrets ⊎ (c.secret_sha256_hex ≢ [])
  pub digests : All (λ h. (d : List ℕ) × IsDigest d h) c.secret_sha256_hex
  pub audiences : c.allowed_audiences ≢ []
  pub wildcards : All IsScope c.allowed_scopes
  pub plain : All (λ s. contains_char s star ≡ false) c.default_scopes
  pub defaults : All (Grants c.allowed_scopes) c.default_scopes

hashes_idem : (hs : List Text) → normalize_hashes (normalize_hashes hs) ≡ normalize_hashes hs
unfolding normalize_hashes
hashes_idem [] = refl
hashes_idem (h ∷ hs) = cc (trim_space_idem h, hashes_idem hs)

-- Normalising a client twice is normalising it once.
pub normalize_client_idem : (c : Client) → normalize (normalize c) ≡ normalize c
unfolding normalize normalize_scopes
normalize_client_idem c = λ i. record c {
  id = trim_space_idem c.id i;
  secret_sha256_hex = hashes_idem c.secret_sha256_hex i;
  allowed_audiences = normalize_idem c.allowed_audiences i;
  allowed_scopes = normalize_idem c.allowed_scopes i;
  default_scopes = normalize_idem c.default_scopes i;
}

first_error-none :
    {E : Type 0} (a b : Option E) → (first_error a b ≡ none) ↔ ((a ≡ none) × (b ≡ none))
first_error-none none b = ((λ e. (refl, e)), (λ h. h.1))
first_error-none (some e) b = ((λ k. absurd (ground arith)), (λ h. absurd (ground arith)))

require-none : (b : Bool) (e : ClientError) → (require b e ≡ none) ↔ (b ≡ true)
unfolding require
require-none true e = ((λ k. refl), (λ k. refl))
require-none false e = ((λ k. absurd (ground arith)), (λ k. cc))

check_digests-none :
    (hs : List Text) → (check_digests hs ≡ none) ↔ All (λ h. (d : List ℕ) × IsDigest d h) hs
unfolding check_digests
check_digests-none [] = ((λ e. tt), (λ h. refl))
check_digests-none (h ∷ hs) = elim (Option-cases (decode_digest h)) [
  | inl k ↦ (
    λ e. absurd (ground arith),
    λ ((d, p), _). absurd (ground (arith, (decode_digest_iff h d).1 p)),
  )
  | inr (d, k) ↦ (
    λ e. ((d, (decode_digest_iff h d).0 k), (check_digests-none hs).0 (rw (k, check_digests) at e)),
    λ p. rw (k, check_digests) ((check_digests-none hs).1 p.1),
  )
]

validate-IsScope : (s : Text) → (validate_scope_wildcard s ≡ true) ↔ IsScope s
unfolding validate_scope_wildcard
validate-IsScope s =
    (λ e. valid-IsScope s (ground arith), λ h. let k = IsScope-valid s h in ground arith)

check_wildcards-none : (ss : List Text) → (check_wildcards ss ≡ none) ↔ All IsScope ss
unfolding check_wildcards
check_wildcards-none [] = ((λ e. tt), (λ h. refl))
check_wildcards-none (s ∷ ss) =
    let ih = check_wildcards-none ss in
    (
      λ e. ((validate-IsScope s).0 (ground arith), ih.0 (ground arith)),
      λ h. rw ((validate-IsScope s).1 h.0) (ih.1 h.1),
    )

check_plain-none :
    (ss : List Text) → (check_plain ss ≡ none) ↔ All (λ s. contains_char s star ≡ false) ss
unfolding check_plain contains_scope_wildcard
check_plain-none [] = ((λ e. tt), (λ h. refl))
check_plain-none (s ∷ ss) =
    let ih = check_plain-none ss in
    (λ e. (ground arith, ih.0 (ground arith)), λ h. rw h.0 (ih.1 h.1))

check_allowed-none :
    (ss allowed : List Text) → (check_allowed ss allowed ≡ none) ↔ All (Grants allowed) ss
unfolding check_allowed
check_allowed-none [] allowed = ((λ e. tt), (λ h. refl))
check_allowed-none (s ∷ ss) allowed =
    let ih = check_allowed-none ss allowed in
    (
      λ e. (Grants-of_allowed s allowed (ground arith), ih.0 (ground arith)),
      λ h. rw (allowed_of_Grants s allowed h.0) (ih.1 h.1),
    )

Any_of_has_secret : (ss : List Text) → has_secret ss ≡ true → Any (λ s. s ≢ []) ss
unfolding has_secret is_nil
Any_of_has_secret [] e = absurd (ground arith)
Any_of_has_secret ([] ∷ ss) e = inr (Any_of_has_secret ss e)
Any_of_has_secret ((c ∷ s) ∷ ss) e = inl (λ k. cc)

has_secret_of_Any : (ss : List Text) → Any (λ s. s ≢ []) ss → has_secret ss ≡ true
unfolding has_secret is_nil
has_secret_of_Any [] h = absurd h
has_secret_of_Any ([] ∷ ss) (inl n) = absurd (n refl)
has_secret_of_Any ([] ∷ ss) (inr h) = has_secret_of_Any ss h
has_secret_of_Any ((c ∷ s) ∷ ss) h = refl

-- A list that is not empty, as a test.
not_nil : {A : Type 0} (xs : List A) → (not (is_nil xs) ≡ true) ↔ (xs ≢ [])
unfolding is_nil
not_nil [] = ((λ e. absurd (ground arith)), (λ n. absurd (n refl)))
not_nil (x ∷ xs) = ((λ e k. cc), (λ n. refl))

has_credentials_iff :
    (c : Client)
    → (has_credentials c ≡ true) ↔ (Any (λ s. s ≢ []) c.secrets ⊎ (c.secret_sha256_hex ≢ []))
unfolding has_credentials
has_credentials_iff c = (
  λ e. elim (Bool-cases (has_secret c.secrets)) [
    | inl k ↦ inl (Any_of_has_secret c.secrets k)
    | inr k ↦ inr ((not_nil c.secret_sha256_hex).0 (ground arith))
  ],
  λ h. elim h [
    | inl k ↦ rw (has_secret_of_Any c.secrets k)
    | inr k ↦ ground (arith, (not_nil c.secret_sha256_hex).1 k)
  ],
)

checks-IsValid : (c : Client) → normalize c ≡ c → checks c ≡ none → IsValidClient c
unfolding checks validate_scope_policy scope_policy
checks-IsValid c n e =
    let (e1, r1) = (first_error-none _ _).0 e in
    let (e2, r2) = (first_error-none _ _).0 r1 in
    let (e3, r3) = (first_error-none _ _).0 r2 in
    let (e4, r4) = (first_error-none _ _).0 r3 in
    let (e5, e6) = (first_error-none _ _).0 r4 in
    let (w, p) = (first_error-none _ _).0 (ap scope_policy (sym n) ∙ e5) in
    record {
      has_id = (not_nil c.id).0 ((require-none _ _).0 e1);
      credentials = (has_credentials_iff c).0 ((require-none _ _).0 e2);
      digests = (check_digests-none _).0 e3;
      audiences = (not_nil c.allowed_audiences).0 ((require-none _ _).0 e4);
      wildcards = (check_wildcards-none _).0 w;
      plain = (check_plain-none _).0 p;
      defaults = (check_allowed-none _ _).0 e6;
    }

IsValid-checks : (c : Client) → normalize c ≡ c → IsValidClient c → checks c ≡ none
unfolding checks validate_scope_policy scope_policy
IsValid-checks c n v =
    let policy =
      (first_error-none _ _).1
        ((check_wildcards-none _).1 v.wildcards, (check_plain-none _).1 v.plain) in
    (first_error-none _ _).1 (
      (require-none _ id_required).1 ((not_nil c.id).1 v.has_id),
      (first_error-none _ _).1 (
        (require-none _ secret_required).1 ((has_credentials_iff c).1 v.credentials),
        (first_error-none _ _).1 (
          (check_digests-none _).1 v.digests,
          (first_error-none _ _).1 (
            (require-none _ audience_required).1 ((not_nil c.allowed_audiences).1 v.audiences),
            (first_error-none _ _).1
                (ap scope_policy n ∙ policy, (check_allowed-none _ _).1 v.defaults),
          ),
        ),
      ),
    )

-- `Validate` reports no error exactly when the normalised client is valid: it has an id, a credential
-- and an audience, its digests are 32 bytes in hexadecimal, its allowed scopes are without '*' or are
-- patterns with a prefix and ".*" or ".**", and its default scopes are without '*' and granted by the
-- allowed ones.
pub validate_iff : (c : Client) → (validate c ≡ none) ↔ IsValidClient (normalize c)
unfolding validate
validate_iff c = (
  checks-IsValid (normalize c) (normalize_client_idem c),
  IsValid-checks (normalize c) (normalize_client_idem c),
)
