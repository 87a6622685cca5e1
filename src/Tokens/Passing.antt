-- ===== src/Tokens/Passing.antt =====
-- A token that the server issues is accepted where it is sent.
use orionis.Base.{
  ℕ, ◌≡◌, inl, refl, sym, ap, subst, ◌∙◌, true, false, some, List, arith, All, Has, is_nil, length,
}
use orionis.Base.Int.{ℤ, ◌+ℤ◌, ◌≤ℤ◌, ◌<ℤ◌}
use orionis.Text.{Text, IsWord, trim_space, trim_right_slash}
use orionis.Claims.{Claims}
use orionis.Token.{TokenResponse, token_use_access}
use orionis.Jwk.Key.{Codec, PublicKey, ed25519, alg_ed_dsa}
use orionis.Jwk.Static.{StaticProvider, provider, answer, static_key}
use orionis.Jwk.Ed25519.{Crypto, Ed25519Signer, default_kid, sign, static_provider}
use orionis.Jwk.Ed25519.Creating.{IsCrypto, trim_space-default_kid, default_kid-given}
use orionis.Jwk.Ed25519.Keeping.{IsSigner}
use orionis.Jwk.Ed25519.Publishing.{IsBase64, static_provider-answers}
use orionis.Server.Client.{Client}
use orionis.Server.Store.{client_found, find_client, new_memory_client_store}
use orionis.Text.Trim.{trim_space_idem}
use orionis.Server.Store.Laws.{normalize-id, new_store_finds}
use orionis.Server.TokenService.{TokenRequest, Environment, TokenService, issued, issue}
use orionis.Server.TokenService.Grant.{IsClientOf, IsTokenOf, issue_sound}
use orionis.Verifier.{
  leeway_of, KeyResult, found, Verifier, ParserOptions, TokenHeader, Parsed, parsed, verified,
  default_leeway, default_algorithms, verifier_for, new_verifier, set_issuer, set_audience,
  set_key_provider, parser_options, key_func, verify,
}
use orionis.Verifier.Accepting.{
  options-issuer, options-audience, options-audience_given, options-methods, options-leeway,
  key_func-given, verify-parsed,
}
use orionis.Tokens.{keys_of, key_result, IsInTime, IsReader, IsDate}

-- Each client of a store has an id.
abbrev pub HasIds : TokenService → Type 0
HasIds s = (id : Text) (c : Client) → s.store id ≡ client_found c → is_nil (trim_space c.id) ≡ false

-- Those of the store in memory have.
pub memory-HasIds :
    (issuer : Text) (clients : List Client) (ttl : ℤ)
    → HasIds (record {
      issuer = issuer;
      store = find_client (new_memory_client_store clients);
      access_token_ttl = ttl;
    })
unfolding is_nil
memory-HasIds issuer clients ttl id c e =
    let (normal, same, given, on) = new_store_finds clients id c e in
    ap (λ x. is_nil (trim_space x)) same ∙ ap is_nil (trim_space_idem id) ∙ ground (arith, given)

sign-signed :
    (crypto : Crypto) (s : Ed25519Signer) (claims : Claims)
    → length s.private_key ≡ 64
    → sign crypto (some s) claims ≡ crypto.signed_string alg_ed_dsa s.kid claims s.private_key
unfolding sign
sign-signed crypto s claims e = ground arith

-- The verifier of a service that trusts an issuer, for its audience, with a fixed set of keys.
abbrev pub verifier_of : Text → Text → StaticProvider → Verifier PublicKey
verifier_of issuer audience p = record {
  issuer = trim_right_slash (trim_space issuer);
  audience = trim_space audience;
  provider = some (keys_of p);
  leeway = default_leeway;
  valid_algs = default_algorithms;
  require_use = token_use_access;
}

pub verifier_for-static :
    (issuer audience : Text) (p : StaticProvider)
    → verifier_for issuer audience (some (keys_of p)) ≡ some (verifier_of issuer audience p)
unfolding verifier_for new_verifier set_issuer set_audience set_key_provider
verifier_for-static issuer audience p = refl

pub client_named :
    (sum256 : Text → List ℕ) (s : TokenService) (q : TokenRequest) (c : Client)
    → HasIds s
    → IsClientOf sum256 s q c
    → is_nil c.id ≡ false
client_named sum256 s q c ids k =
    ap (λ x. is_nil x.id) k.normal
    ∙ ap is_nil (normalize-id k.stored)
    ∙ ids q.client_id k.stored k.found

module _ (crypto : Crypto)
    (parse : ParserOptions → Text → (TokenHeader → KeyResult PublicKey) → Parsed) (now : ℤ)
    (reader : IsReader crypto parse now) (kid : Text) (k : Ed25519Signer)
    (known : IsSigner crypto kid k) where
  key_found :
      (p : StaticProvider)
      → static_key p (default_kid kid) alg_ed_dsa
        ≡ answer (ed25519 (crypto.public_key k.private_key))
      → key_func (keys_of p) (record { kid = some k.kid; alg = alg_ed_dsa })
        ≡ found (ed25519 (crypto.public_key k.private_key))
  unfolding keys_of key_result
  key_found p a =
      key_func-given (keys_of p) k.kid alg_ed_dsa (
        ap (λ x. is_nil (trim_space x)) known.kid_is
        ∙ ap is_nil (trim_space-default_kid kid)
        ∙ default_kid-given kid)
      ∙ ap (λ x. keys_of p x alg_ed_dsa) known.kid_is
      ∙ ap key_result a

  module _ (env : Environment) (s : TokenService) (q : TokenRequest) (issuer audience : Text)
      (same_issuer : trim_right_slash (trim_space issuer) ≡ s.issuer)
      (same_audience : trim_space audience ≡ q.audience)
      (begins_kept : IsDate (env.numeric_date env.now))
      (expires_kept : IsDate (env.numeric_date (env.now +ℤ s.access_token_ttl)))
      (begun : env.numeric_date env.now ≤ℤ (now +ℤ default_leeway))
      (not_over : now <ℤ (env.numeric_date (env.now +ℤ s.access_token_ttl) +ℤ default_leeway)) where
    token-IsInTime :
        (c : Client) (r : TokenResponse) (t : IsTokenOf env s q c r) (p : StaticProvider)
        → IsInTime (leeway_of (parser_options (verifier_of issuer audience p)).leeway) now t.claims
    unfolding leeway_of
    token-IsInTime c r t p =
        subst (λ l. IsInTime (leeway_of l) now t.claims)
          (sym (options-leeway (verifier_of issuer audience p) refl))
          (record {
            expires = env.numeric_date (env.now +ℤ s.access_token_ttl);
            begins = env.numeric_date env.now;
            expires_is = t.expires_is;
            not_before_is = t.not_before_is;
            issued_at_is = t.issued_at_is;
            expires_kept = expires_kept;
            begins_kept = begins_kept;
            not_over = not_over;
            begun = begun;
          })

    token_parsed :
        (c : Client) (r : TokenResponse) (t : IsTokenOf env s q c r) (p : StaticProvider)
        → crypto.signed_string alg_ed_dsa k.kid t.claims k.private_key ≡ some r.access_token
        → static_key p (default_kid kid) alg_ed_dsa
          ≡ answer (ed25519 (crypto.public_key k.private_key))
        → parse
            (parser_options (verifier_of issuer audience p))
            r.access_token
            (key_func (keys_of p))
          ≡ parsed true t.claims
    unfolding default_algorithms is_nil
    token_parsed c r t p signed a =
        let v = verifier_of issuer audience p in
        reader.reads (parser_options v) k.kid t.claims k.private_key r.access_token
          (key_func (keys_of p)) known.whole signed (key_found p a)
          (subst (Has alg_ed_dsa) (sym (options-methods v refl)) (inl refl))
          (λ i e. t.issuer_is ∙ sym same_issuer ∙ options-issuer v i e)
          (λ x e. (
            options-audience_given v x e,
            subst (Has x) (sym t.audience_is) (inl (sym same_audience ∙ options-audience v x e)),
          ))
          (token-IsInTime c r t p)

    -- The token of a response is accepted with its claims, where the key of its signer is found.
    pub token-verified :
        (c : Client) (r : TokenResponse) (t : IsTokenOf env s q c r) (p : StaticProvider)
        → env.sign ≡ sign crypto (some k)
        → is_nil c.id ≡ false
        → static_key p (default_kid kid) alg_ed_dsa
          ≡ answer (ed25519 (crypto.public_key k.private_key))
        → verify parse (verifier_for issuer audience (some (keys_of p))) r.access_token
          ≡ verified (record { raw = r.access_token; claims = t.claims })
    token-verified c r t p signs named a =
        let signed =
          sym (sign-signed crypto k t.claims known.size)
          ∙ ap (λ f. f t.claims) (sym signs)
          ∙ t.signed in
        ap (λ v. verify parse v r.access_token) (verifier_for-static issuer audience p)
        ∙ verify-parsed parse (verifier_of issuer audience p) (keys_of p) r.access_token t.claims
            refl (reader.signed_given k.kid t.claims k.private_key r.access_token signed)
            (token_parsed c r t p signed a) t.use_is (ap is_nil t.subject_is ∙ named)
            (ap is_nil t.client_is ∙ named)

    module _ (lawful : IsCrypto crypto) (codec : Codec) (base64 : IsBase64 codec)
        (sum256 : Text → List ℕ) where
      -- A token that a service issues, signed by a signer that was loaded or created, is accepted by every
      -- verifier that has the keys of the signer and asks for the service's issuer and for the audience
      -- that was requested: from the moment of the issue to the end of its lifetime, but for the leeway of
      -- 30 s, with the client as the identity and the scopes of the response; if the request's scopes are
      -- words, the token's dates are whole seconds since 1970, the clients in the store have ids, keys and
      -- base64 texts are decoded to what was encoded, and the JWT library reads what it signed, while
      -- issuer, audience, key and times fit.
      pub issue-verify :
          (r : TokenResponse)
          → env.sign ≡ sign crypto (some k)
          → All IsWord q.scopes
          → HasIds s
          → issue sum256 env s q ≡ issued r
          → (p : StaticProvider) × (c : Client) × (claims : Claims) × (static_provider crypto codec
                (some k)
              ≡ some (provider p))
            × (verify parse (verifier_for issuer audience (some (keys_of p))) r.access_token
                ≡ verified (record { raw = r.access_token; claims = claims }))
            × IsClientOf sum256 s q c
            × (claims.client_id ≡ c.id)
            × (claims.scope ≡ r.scope)
      issue-verify r signs words ids e =
          let (p, made, a) = static_provider-answers codec base64 crypto lawful kid k known in
          let (c, client, t) = issue_sound sum256 env s q r words e in
          let named = client_named sum256 s q c ids client in
          (
            p,
            c,
            t.claims,
            made,
            token-verified c r t p signs named a,
            client,
            t.client_is,
            t.scope_is,
          )
