-- ===== src/Tests/Issuing.antt =====
-- A store of two clients, and the token service on it.
use orionis.Base.{
  ◌≡◌, ◌≢◌, ◌↔◌, ◌⊎◌, inl, inr, refl, ℕ, true, false, some, none, List, [], ◌∷◌, All, arith, is_nil,
}
use orionis.Base.Int.{pos}
use orionis.Text.{
  Text, codes, IsWord, is_space, join, trim_space, fields, contains_char, count, cut_prefix,
  cut_suffix, text_eq, text_ltb, contains,
}
use orionis.Text.Dict.{lookup, insert}
use orionis.Stringset
use orionis.Scopes.{
  contains_scope_wildcard, normalize_scopes, scope_covers, wildcard_scope_parts, scope_string,
  validate_scope_wildcard,
}
use orionis.Scopes.Granting.{Grants}
use orionis.Claims.{Claims, has_all_scopes}
use orionis.Token.{TokenResponse}
use orionis.Server.Scopes.{
  resolve_requested_scopes, is_scope_allowed, contains_item, contains_invalid_scope_wildcard,
}
use orionis.Server.Scopes.Resolving.{IsIssuable, resolve_sound}
use orionis.Server.Client.{Client, normalize, verify_secret, validate}
use orionis.Server.Client.Validation.{IsValidClient, validate_iff}
use orionis.Server.Client.Secrets.{IsStored, IsDigested, verify_secret_iff}
use orionis.Server.Store.{MemoryClientStore, upsert, new_memory_client_store, find_client}
use orionis.Server.TokenService.{
  TokenRequest, Environment, TokenService, oauth_error, invalid_client, issue, authenticate,
  issue_scopes, token_claims, response, requested_scopes,
}
use orionis.Server.TokenService.Grant.{IsClientOf, IsTokenOf, issue_sound}
use orionis.Server.TokenService.Errors.{IsUnknown, issue_invalid_client_iff, issued_has_all_scopes}

-- The characters of a text as its digest.
abbrev pub digest : Text → List ℕ
digest t = t

abbrev pub shop : Client
shop = record {
  id = codes " shop";
  secrets = codes "pw" ∷ [];
  secret_sha256_hex = [];
  allowed_audiences = codes "api" ∷ [];
  allowed_scopes = codes "o.*" ∷ codes "o.r" ∷ [];
  default_scopes = codes "o.r" ∷ [];
  disabled = false;
}

abbrev pub old : Client
old = record shop { id = codes "old"; disabled = true }

-- What a run of the server computes with.
unfoldable pub run : Text → Text
unfolding scope_covers contains_scope_wildcard wildcard_scope_parts contains_char count cut_prefix
    cut_suffix text_eq trim_space is_nil fields normalize_scopes Stringset.normalize text_ltb
    contains lookup insert resolve_requested_scopes is_scope_allowed normalize verify_secret upsert
    new_memory_client_store find_client issue scope_string join has_all_scopes contains_item
    contains_invalid_scope_wildcard validate_scope_wildcard authenticate issue_scopes token_claims
    response requested_scopes
run s = s

pub o_r-IsWord : IsWord (codes "o.r")
unfolding is_space
o_r-IsWord = ((λ e. cc), (refl, (refl, (refl, tt))))

abbrev pub asked : List Text
asked = codes "o.r" ∷ []

resolve_sound_example : All (IsIssuable asked asked) asked
unfolding run
resolve_sound_example = resolve_sound asked asked asked (o_r-IsWord, tt) (o_r-IsWord, tt) refl

o_r-plain : All (λ s. (contains_scope_wildcard s ≡ false) × Grants asked s) asked
unfolding run
o_r-plain = ((refl, inl refl), tt)

not_granted : ¬ Grants asked (codes "p")
unfolding run
not_granted (inl e) = absurd (ground arith)
not_granted (inr x) = absurd x

p-plain : contains_scope_wildcard (codes "p") ≡ false
unfolding run
p-plain = refl

validate_iff_example : (validate shop ≡ none) ↔ IsValidClient (normalize shop)
validate_iff_example = validate_iff shop

verify_secret_iff_example : (verify_secret digest shop (codes "pw") ≡ true) ↔ (
    (codes "pw" ≢ [])
    × (IsStored digest (codes "pw") shop.secrets
        ⊎ IsDigested digest (codes "pw") shop.secret_sha256_hex))
verify_secret_iff_example = verify_secret_iff digest shop (codes "pw")

abbrev stored : MemoryClientStore
stored = record { clients = [] }

abbrev pub environment : Environment
environment = record {
  now = pos 1000;
  random_id = some (codes "id1");
  numeric_date = λ t. t;
  whole_seconds = λ t. t;
  sign = λ c. some (codes "signed");
}

abbrev pub service : TokenService
service = record {
  issuer = codes "https://auth";
  store = find_client (new_memory_client_store (old ∷ shop ∷ []));
  access_token_ttl = pos 900;
}

abbrev pub request : TokenRequest
request = record {
  grant_type = codes "client_credentials";
  client_id = codes "shop";
  client_secret = codes "pw";
  audience = codes "api";
  scopes = asked;
}

abbrev pub answer : TokenResponse
answer = record {
  access_token = codes "signed";
  token_type = codes "Bearer";
  expires_in = pos 900;
  scope = codes "o.r";
}

issue_sound_example :
    (c : Client) × IsClientOf digest service request c
    × IsTokenOf environment service request c answer
unfolding run
issue_sound_example = issue_sound digest environment service request answer (o_r-IsWord, tt) refl

issue_invalid_client_iff_example :
    (issue digest environment service request ≡ oauth_error invalid_client)
    ↔ ((request.grant_type ≡ codes "client_credentials") × IsUnknown digest service request)
issue_invalid_client_iff_example = issue_invalid_client_iff digest environment service request

issued_has_all_scopes_example :
    (c : Claims) × (environment.sign c ≡ some answer.access_token)
    × (has_all_scopes (some c) request.scopes ≡ true)
unfolding run
issued_has_all_scopes_example =
    issued_has_all_scopes digest environment service request answer (λ e. cc) (o_r-IsWord, tt)
      (refl, tt) refl
