-- ===== src/Tests/Serving.antt =====
-- A server that is built from one client and one signer, and its endpoints.
use orionis.Base.{if◌then◌else◌, refl, ℕ, some, none, [], ◌∷◌, map, is_some}
use orionis.Base.Int.{pos}
use orionis.Text.{Text, codes, text_eq, trim_right_slash}
use orionis.Jwk.Key.{Key}
use orionis.Server.Client.{
  normalize, validate, validate_scope_policy, has_secret, has_credentials, normalize_hashes,
}
use orionis.Server.Store.{find_client, new_memory_client_store}
use orionis.Server.Config.{Signer, Config, Server, build_server, validate_config, normalize_config}
use orionis.Server.Config.Building.{IsBuilt, build_server-IsBuilt}
use orionis.Server.Http.{
  Forms, Request, token_http, write_json, write_oauth_error, write_issued, token_request,
  first_non_empty, environment_of, jwks_http,
}
use orionis.Server.Http.Token.{IsServed, IsAnswer, token_http_sound, token_http-IsAnswer}
use orionis.Tests.Issuing.{digest, shop, environment, answer, run}

abbrev public_key : Key
public_key = record {
  kty = codes "OKP";
  use_ = codes "sig";
  kid = codes "k1";
  alg = codes "EdDSA";
  crv = codes "Ed25519";
  x = codes "x";
  y = [];
  n = [];
  e = [];
}

abbrev pub signer : Signer
signer = record {
  key_id = codes "k1 ";
  algorithm = codes "EdDSA";
  sign = λ c. some (codes "signed");
  public_jwk = public_key;
}

abbrev pub config : Config ℕ
config = record {
  issuer = codes "https://auth/";
  store = none;
  signers = some signer ∷ [];
  active_kid = codes "k1";
  access_token_ttl = pos 900;
  max_token_request_body = pos 0;
  now = none;
  clients = shop ∷ [];
}

abbrev pub server : Server ℕ
server = record {
  issuer = codes "https://auth";
  max_token_request_body = pos 1_048_576;
  signers = some signer ∷ [];
  active_signer = signer;
  now = 0;
  tokens = record {
    issuer = codes "https://auth";
    store = find_client (new_memory_client_store (map normalize (shop ∷ [])));
    access_token_ttl = pos 900;
  };
}

-- What building and serving compute with.
unfoldable pub serve : Text → Text
unfolding run build_server validate_config normalize_config trim_right_slash validate
    validate_scope_policy has_secret has_credentials normalize_hashes is_some token_http write_json
    write_oauth_error write_issued token_request first_non_empty environment_of jwks_http
serve s = s

build_server-IsBuilt_example : IsBuilt config server
unfolding serve
build_server-IsBuilt_example = build_server-IsBuilt 0 config server refl

abbrev field : Text → Text
field k =
    if text_eq k (codes "grant_type")
    then codes "client_credentials"
    else if text_eq k (codes "resource")
    then codes "api"
    else if text_eq k (codes "scope")
    then codes "o.r"
    else []

abbrev pub forms : Forms
forms = record { form = field; post_form = λ k. [] }

abbrev pub request : Request
request = record {
  method = codes "POST";
  parse_form = λ limit. some forms;
  basic_auth = some (codes "shop", codes "pw");
}

token_http_sound_example : IsServed digest environment server request answer
unfolding serve
token_http_sound_example = token_http_sound digest environment server request answer refl

token_http-IsAnswer_example : IsAnswer (token_http digest environment server request)
token_http-IsAnswer_example = token_http-IsAnswer digest environment server request

abbrev key_request : Request
key_request = record request { method = codes "GET" }
