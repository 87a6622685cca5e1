-- ===== src/Ginorion/Guard/Passing.antt =====
-- Which requests a guard lets through.
use orionis.Base.{
  ◌≡◌, ◌≢◌, refl, subst, true, Option, some, List, arith, Bool-cases, Option-cases, inl, inr, All,
}
use orionis.Text.{Text, codes, IsWord}
use orionis.Text.Order.{text_eq_iff}
use orionis.Text.Dict.{lookup, insert, lookup-insert}
use orionis.Stringset.Canonical.{words-words, normalize-IsWord}
use orionis.Scopes.{normalize_scopes}
use orionis.Claims.{Claims, has_scope, has_all_scopes}
use orionis.Claims.Coverage.{has_all_scopes_iff}
use orionis.Token.{BearerResult, TokenResponse, token, missing, invalid, bearer_token}
use orionis.Verifier.{
  KeyResult, Verifier, ParserOptions, TokenHeader, Parsed, VerifiedToken, Verified, verified,
  refused, verify, IsParser, Jwt,
}
use orionis.Verifier.Soundness.{IsTrusted, IsKeyed, IsCurrent, verify_sound}
use orionis.Client.Provider
use orionis.Client.Provider.{HttpRequest, Result, ok, get_header, authorize_request}
use orionis.Client.Provider.Signing.{authorize_request-bearer_token}
use orionis.Ginorion.Guard.{
  default_claims_key, Guard, Context, Handled, next, set_value, claims_of, admit, check_bearer,
  run_guard, new_guard, middleware_from_config, first_scopes, require,
}

-- The context that the next handler runs with: it holds the claims under the guard's key and under
-- the default one, and all else as before.
pub record IsMarked (key : Text) (claims : Claims) (c d : Context) : Type 0 where
  pub found : claims_of d ≡ some claims
  pub at_key : lookup key d.values ≡ some claims
  pub authorization : d.authorization ≡ c.authorization
  pub others : (k : Text) → k ≢ key → k ≢ default_claims_key → lookup k d.values ≡ lookup k c.values

set_value-IsMarked :
    (key : Text) (claims : Claims) (c : Context)
    → IsMarked key claims c (set_value default_claims_key claims (set_value key claims c))
unfolding set_value claims_of
set_value-IsMarked key claims c = record {
  found = ground (
    arith,
    lookup-insert default_claims_key default_claims_key claims (insert key claims c.values),
    text_eq_iff default_claims_key default_claims_key,
  );
  at_key = ground (
    arith,
    lookup-insert default_claims_key key claims (insert key claims c.values),
    lookup-insert key key claims c.values,
    text_eq_iff key key,
    text_eq_iff default_claims_key key,
  );
  authorization = refl;
  others = λ k n m. ground (
    arith,
    lookup-insert default_claims_key k claims (insert key claims c.values),
    lookup-insert key k claims c.values,
    text_eq_iff key k,
    text_eq_iff default_claims_key k,
    n,
    m,
  );
}

module _ {K X : Type 0} (parse : ParserOptions → Text → (TokenHeader → KeyResult K) → Parsed) where
  -- Why a request is let through.
  pub record IsAdmitted (g : Guard K X) (c d : Context) : Type 0 where
    pub value : Text
    pub verifier : Verifier K
    pub passed : VerifiedToken
    pub bearer : bearer_token c.authorization ≡ token value
    pub configured : g.verifier ≡ some verifier
    pub verifies : verify parse (some verifier) value ≡ verified passed
    pub covers : has_all_scopes (some passed.claims) g.required_scopes ≡ true
    pub marked : IsMarked g.claims_key passed.claims c d

  admit-next :
      (g : Guard K X) (c d : Context) (r : Verified)
      → admit parse g c r ≡ next d
      → (t : VerifiedToken) × (r ≡ verified t)
        × (has_all_scopes (some t.claims) g.required_scopes ≡ true)
        × IsMarked g.claims_key t.claims c d
  unfolding admit
  admit-next g c d (refused e) k = absurd (ground arith)
  admit-next g c d (verified t) k =
      elim (Bool-cases (has_all_scopes (some t.claims) g.required_scopes)) [
        | inr x ↦ absurd (ground arith)
        | inl x ↦
            let made = set_value default_claims_key t.claims (set_value g.claims_key t.claims c) in
            let at_made : ◌≡◌ {A = Handled X} (next made) (next d) = rw (x, admit) at k in
            let same : made ≡ d = ground arith in
            (
              t,
              refl,
              x,
              subst (IsMarked g.claims_key t.claims c) same
                  (set_value-IsMarked g.claims_key t.claims c),
            )
      ]

  bearer_next :
      (g : Guard K X) (c d : Context) (b : BearerResult)
      → bearer_token c.authorization ≡ b
      → check_bearer parse g c b ≡ next d
      → IsAdmitted g c d
  unfolding check_bearer
  bearer_next g c d missing e k = absurd (ground arith)
  bearer_next g c d invalid e k = absurd (ground arith)
  bearer_next g c d (token value) e k = elim (Option-cases g.verifier) [
    | inl x ↦ absurd (ground arith)
    | inr (v, x) ↦
        let (t, y, covers, marked) =
          admit-next g c d (verify parse (some v) value) (rw (x, check_bearer) at k) in
        record {
          value = value;
          verifier = v;
          passed = t;
          bearer = e;
          configured = x;
          verifies = y;
          covers = covers;
          marked = marked;
        }
  ]

  pub run_guard-IsAdmitted :
      (g : Guard K X) (c d : Context) → run_guard parse g c ≡ next d → IsAdmitted g c d
  unfolding run_guard
  run_guard-IsAdmitted g c d e = bearer_next g c d (bearer_token c.authorization) refl e

  -- If the JWT library keeps what it documents, then a handler that `Require` guards runs only if the
  -- header carries a bearer token that the guard's verifier accepts: with the use, the issuer and the
  -- audience that this verifier asks for, a signature by a key of its provider, and times that fit at
  -- its leeway. The token has every one of the scopes that are required, and the handler finds its
  -- claims in the context.
  pub require_sound :
      (jwt : Jwt K) (g : Guard K X) (scopes : List Text) (c d : Context)
      → IsParser jwt parse
      → require parse g scopes c ≡ next d
      → (value : Text) × (v : Verifier K) × (t : VerifiedToken) × (bearer_token c.authorization
          ≡ token value)
        × (g.verifier ≡ some v)
        × (verify parse (some v) value ≡ verified t)
        × IsTrusted v.issuer v.audience v.require_use value t
        × IsKeyed jwt v value t
        × IsCurrent jwt.now v.leeway t.claims
        × All
            (λ s. has_scope (some t.claims) s ≡ true)
            (normalize_scopes (first_scopes scopes g.required_scopes))
        × (claims_of d ≡ some t.claims)
  unfolding require middleware_from_config new_guard normalize_scopes
  require_sound jwt g scopes c d law e =
      let required = first_scopes scopes g.required_scopes in
      let a =
        run_guard-IsAdmitted (new_guard g.verifier required g.claims_key (some g.error_handler)) c d
          e in
      let (trusted, keyed, current) =
        verify_sound jwt parse law a.verifier a.value a.passed a.verifies in
      let held =
        (has_all_scopes_iff (some a.passed.claims) (normalize_scopes required)).0 a.covers in
      (
        a.value,
        a.verifier,
        a.passed,
        a.bearer,
        a.configured,
        a.verifies,
        trusted,
        keyed,
        current,
        subst (All (λ s. has_scope (some a.passed.claims) s ≡ true))
            (words-words (normalize_scopes required) (normalize-IsWord required)) held,
        a.marked.found,
      )

  -- A guard lets a request through that the client has authorized with a token, if the token is a
  -- word, the guard's verifier accepts it, and its claims have the scopes that are required; the
  -- handler finds these claims.
  pub run_guard-authorize_request :
      {H : Type 0} (respond : Text → List Text → Result TokenResponse)
      (p : Option (Provider.Provider H)) (req signed : HttpRequest) (audience : Text)
      (scopes : List Text) (value : Text) (g : Guard K X) (v : Verifier K) (t : VerifiedToken)
      (values : List (Text × Claims))
      → authorize_request respond p (some req) audience scopes ≡ ok signed
      → Provider.token respond p audience scopes ≡ ok value
      → IsWord value
      → g.verifier ≡ some v
      → verify parse (some v) value ≡ verified t
      → has_all_scopes (some t.claims) g.required_scopes ≡ true
      → (d : Context) × (run_guard parse g
            (record { authorization = get_header (codes "Authorization") signed; values = values })
          ≡ next d)
        × (claims_of d ≡ some t.claims)
  unfolding run_guard check_bearer admit
  run_guard-authorize_request respond p req signed audience scopes value g v t values e u w x y z =
      let c : Context = record {
        authorization = get_header (codes "Authorization") signed;
        values = values;
      } in
      let read = authorize_request-bearer_token respond p req signed audience scopes value e u w in
      let d = set_value default_claims_key t.claims (set_value g.claims_key t.claims c) in
      (
        d,
        rw (read, check_bearer) (rw (x, check_bearer) (rw (y, admit) (rw z refl))),
        (set_value-IsMarked g.claims_key t.claims c).found,
      )
