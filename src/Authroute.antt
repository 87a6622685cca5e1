-- ===== src/Authroute.antt =====
-- internal/authroute/authroute.go: the paths of the endpoints.
use orionis.Text.{Text, codes}

abbrev pub token : Text
token = codes "/oauth/token"

abbrev pub jwks : Text
jwks = codes "/.well-known/jwks.json"

abbrev pub discovery : Text
discovery = codes "/.well-known/openid-configuration"

abbrev pub health : Text
health = codes "/healthz"

abbrev pub ready : Text
ready = codes "/readyz"
