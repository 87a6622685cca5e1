-- ===== src/Tokens/Serving.antt =====
-- A token of the token endpoint is accepted by a verifier that has read the endpoint of the keys.
use orionis.Base.{ℕ, ◌≡◌, sym, ap, subst, ◌∙◌, some, List, arith, Has}
use orionis.Base.Int.{ℤ, ◌+ℤ◌, ◌≤ℤ◌, ◌<ℤ◌}
use orionis.Text.{Text, trim_space, trim_right_slash}
use orionis.Claims.{Claims}
use orionis.Token.{TokenResponse}
use orionis.Jwk.Key.{Codec, Key, PublicKey}
use orionis.Jwk.Static.{StaticProvider, provider, new_static_provider}
use orionis.Jwk.Ed25519.{Crypto, Ed25519Signer, public_jwk}
use orionis.Jwk.Ed25519.Creating.{IsCrypto}
use orionis.Jwk.Ed25519.Keeping.{IsSigner}
use orionis.Jwk.Ed25519.Publishing.{IsBase64, new_static_provider-answers}
use orionis.Server.TokenService.{Environment}
use orionis.Server.Config.{Config, Server, built, build_server}
use orionis.Server.Config.Building.{build_server-IsBuilt}
use orionis.Server.Http.{
  Forms, Request, Response, token_body, keys_body, get, token_request, token_http, jwks_http,
  environment_of,
}
use orionis.Server.Http.Token.{token_http_sound}
use orionis.Server.Http.Keys.{jwks_http_serves}
use orionis.Verifier.{
  KeyResult, ParserOptions, TokenHeader, Parsed, verified, default_leeway, verifier_for, verify,
}
use orionis.Authapp.Materials.{as_signer}
use orionis.Tokens.{keys_of, IsReader, IsDate}
use orionis.Tokens.Passing.{HasIds, client_named, token-verified}

same_body :
    (a b : Response) (ks js : List Key)
    → some a ≡ some b
    → a.body ≡ keys_body ks
    → b.body ≡ keys_body js
    → js ≡ ks
same_body a b ks js e x y =
    let same : a ≡ b = ground arith in
    let bodies : keys_body js ≡ keys_body ks = sym y ∙ ap (λ r. r.body) (sym same) ∙ x in
    ground arith

module _ (crypto : Crypto) (lawful : IsCrypto crypto) (codec : Codec) (base64 : IsBase64 codec)
    (parse : ParserOptions → Text → (TokenHeader → KeyResult PublicKey) → Parsed) (now : ℤ)
    (reader : IsReader crypto parse now) (sum256 : Text → List ℕ) (kid : Text) (k : Ed25519Signer)
    (known : IsSigner crypto kid k) {Clock : Type 0} (system_clock : Clock) (cfg : Config Clock)
    (s : Server Clock) (made : build_server system_clock cfg ≡ built s)
    (active : s.active_signer ≡ as_signer crypto codec k) where
  -- The keys that the server publishes have the one of its active signer.
  published :
      (r : Request) (a : Response) (ks : List Key)
      → r.method ≡ get
      → jwks_http s r ≡ some a
      → a.body ≡ keys_body ks
      → Has (public_jwk crypto codec (some k)) ks
  unfolding as_signer
  published r a ks m e b =
      let (js, x, f, code, y, h) = jwks_http_serves system_clock cfg s r made m in
      subst (λ g. Has g ks) (ap (λ g. g.public_jwk) active)
        (subst (Has s.active_signer.public_jwk) (same_body a x ks js (sym e ∙ f) b y) h)

  -- A token with which the token endpoint of a server answers is accepted by every verifier whose keys
  -- were decoded from an answer of the server's key endpoint, and that asks for the server's issuer and
  -- for the audience that was requested: from the moment of the issue to the end of the token's
  -- lifetime, but for the leeway of 30 s, and with the scopes of the answer; if the server was built,
  -- its active signer was loaded or created, the token's dates are whole seconds since 1970, the clients
  -- in the store have ids, keys and base64 texts are decoded to what was encoded, and the JWT library
  -- reads what it signed, while issuer, audience, key and times fit.
  pub served-verify :
      (env : Environment) (r keys_request : Request) (t : TokenResponse) (a : Response)
      (ks : List Key) (p : StaticProvider) (issuer audience : Text)
      → HasIds s.tokens
      → (token_http sum256 env s r).body ≡ token_body t
      → keys_request.method ≡ get
      → jwks_http s keys_request ≡ some a
      → a.body ≡ keys_body ks
      → new_static_provider codec ks ≡ provider p
      → trim_right_slash (trim_space issuer) ≡ s.issuer
      → ((f : Forms)
          → r.parse_form s.max_token_request_body ≡ some f
          → trim_space audience ≡ (token_request r.basic_auth f).audience)
      → IsDate (env.numeric_date env.now)
      → IsDate (env.numeric_date (env.now +ℤ s.tokens.access_token_ttl))
      → env.numeric_date env.now ≤ℤ (now +ℤ default_leeway)
      → now <ℤ (env.numeric_date (env.now +ℤ s.tokens.access_token_ttl) +ℤ default_leeway)
      → (claims : Claims) × (verify parse
            (verifier_for issuer audience (some (keys_of p)))
            t.access_token
          ≡ verified (record { raw = t.access_token; claims = claims }))
        × (claims.scope ≡ t.scope)
  unfolding environment_of as_signer
  served-verify env r keys_request t a ks p issuer audience ids e m f b d same asks begins_kept
        expires_kept begun not_over =
      let served = token_http_sound sum256 env s r t e in
      let v = build_server-IsBuilt system_clock cfg s made in
      let q = token_request r.basic_auth served.forms in
      (
        served.signed.claims,
        token-verified crypto parse now reader kid k known (environment_of s env) s.tokens q issuer
            audience (same ∙ sym v.tokens_issuer) (asks served.forms served.parsed) begins_kept
            expires_kept begun not_over served.client t served.signed p (ap (λ g. g.sign) active)
            (client_named sum256 s.tokens q served.client ids served.authenticated)
            (new_static_provider-answers codec base64 crypto lawful kid k ks p known
              (published keys_request a ks m f b) d),
        served.signed.scope_is,
      )
