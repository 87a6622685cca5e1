-- ===== src/Tests/Guarding.antt =====
-- A guard that requires one scope, and a request that a client has authorized.
use orionis.Base.{ℕ, ◌≡◌, refl, true, some, [], All}
use orionis.Text.{Text, codes, equal_fold}
use orionis.Text.Dict.{insert}
use orionis.Scopes.{normalize_scopes}
use orionis.Claims.{has_scope}
use orionis.Token as Bearer
use orionis.Verifier.{VerifiedToken, Verifier, verify, verified}
use orionis.Verifier.Soundness.{IsTrusted, IsKeyed, IsCurrent}
use orionis.Client.Provider
use orionis.Client.Provider.{HttpRequest, authorize_request, get_header}
use orionis.Ginorion.Guard.{
  ErrorHandler, default_error_handler, default_claims_key, Guard, Context, next, new_guard,
  run_guard, require, claims_of, first_scopes, set_value,
}
use orionis.Ginorion.Guard.Passing.{require_sound, run_guard-authorize_request}
use orionis.Tests.Scopes.{billing, required, abc-IsWord}
use orionis.Tests.Scopes as Scoping
use orionis.Tests.Verifying
use orionis.Tests.Verifying.{parse, jwt, parse-IsParser, checker, seen}
use orionis.Tests.Requesting.{provider, respond, plain, signed}

abbrev handler : ErrorHandler ℕ
handler = default_error_handler

abbrev guard : Guard ℕ ℕ
guard = record {
  verifier = some checker;
  claims_key = codes "claims";
  error_handler = handler;
  required_scopes = normalize_scopes required;
}

abbrev incoming : Context
incoming = record { authorization = codes "Bearer abc"; values = [] }

abbrev admitted : Context
admitted = set_value default_claims_key billing (set_value (codes "claims") billing incoming)

require_sound_example :
    (value : Text) × (v : Verifier ℕ) × (t : VerifiedToken) × (Bearer.bearer_token
        incoming.authorization
      ≡ Bearer.token value)
    × (guard.verifier ≡ some v)
    × (verify parse (some v) value ≡ verified t)
    × IsTrusted v.issuer v.audience v.require_use value t
    × IsKeyed jwt v value t
    × IsCurrent jwt.now v.leeway t.claims
    × All
        (λ s. has_scope (some t.claims) s ≡ true)
        (normalize_scopes (first_scopes [] guard.required_scopes))
    × (claims_of admitted ≡ some t.claims)
unfolding Scoping.run Verifying.run Bearer.bearer_token require run_guard equal_fold new_guard
    first_scopes
require_sound_example = require_sound parse jwt guard [] incoming admitted parse-IsParser refl

run_guard-authorize_request_example :
    (d : Context) × (run_guard parse guard
        (record { authorization = get_header (codes "Authorization") signed; values = [] })
      ≡ next d)
    × (claims_of d ≡ some billing)
unfolding Scoping.run Verifying.run authorize_request Provider.token Provider.token_response
    Provider.target insert
run_guard-authorize_request_example =
    run_guard-authorize_request parse respond (some provider) plain signed (codes "orders") []
      (codes "abc") guard checker seen [] refl refl abc-IsWord refl refl refl
