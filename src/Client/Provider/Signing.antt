-- ===== src/Client/Provider/Signing.antt =====
-- The requests that a transport sends.
use orionis.Base.{
  ◌≡◌, refl, sym, subst, Option, none, some, List, ◌++◌, arith, Option-cases, if◌then◌else◌, inl,
  inr,
}
use orionis.Text.{Text, codes, text_eq, IsWord}
use orionis.Text.Dict.{lookup, insert, lookup-insert}
use orionis.Token.{TokenResponse, bearer_token}
use orionis.Token as Bearer
use orionis.Token.Bearer.{bearer_token_header}
use orionis.Client.Provider.{
  HttpRequest, get_header, Provider, Result, ok, error, then_ok, token, authorize_request,
  Transport, Sender, sent, send_authorized, or_default, round_trip,
}

-- The request with a token in its header, and all else as it was.
pub record IsSigned (req signed : HttpRequest) (value : Text) : Type 0 where
  pub same_url : signed.url ≡ req.url
  pub header :
      (key : Text)
      → lookup key signed.headers ≡ (
          if text_eq (codes "Authorization") key
          then some (codes "Bearer " ++ value)
          else lookup key req.headers)

then_ok_some :
    {A B : Type 0} (f : A → B) (m : Result A) (b : B)
    → then_ok f m ≡ ok b
    → (a : A) × (m ≡ ok a) × (f a ≡ b)
then_ok_some f (ok a) b e = (a, refl, ground arith)
then_ok_some f (error x) b e = absurd (ground arith)

module _ {H : Type 0} (respond : Text → List Text → Result TokenResponse) where
  authorize-IsSigned :
      (p : Option (Provider H)) (req signed : HttpRequest) (audience : Text) (scopes : List Text)
      → authorize_request respond p (some req) audience scopes ≡ ok signed
      → (value : Text) × (token respond p audience scopes ≡ ok value) × IsSigned req signed value
  unfolding authorize_request
  authorize-IsSigned p req signed audience scopes e =
      let add : Text → HttpRequest = λ value. record req {
        headers = insert (codes "Authorization") (codes "Bearer " ++ value) req.headers;
      } in
      let (value, t, same) = then_ok_some add (token respond p audience scopes) signed e in
      (
        value,
        t,
        subst (λ s. IsSigned req s value) same
            (record {
              same_url = refl;
              header = λ key.
                  lookup-insert (codes "Authorization") key (codes "Bearer " ++ value) req.headers;
            }),
      )

sent-some : {R : Type 0} (o : Option R) (r : R) → sent o ≡ ok r → o ≡ some r
unfolding sent
sent-some none r e = absurd (ground arith)
sent-some (some x) r e = ground arith

send_authorized_ok :
    {B R : Type 0} (send : Sender B R) (base : B) (m : Result HttpRequest) (r : R)
    → send_authorized send base m ≡ ok r
    → (req : HttpRequest) × (m ≡ ok req) × (send base req ≡ some r)
unfolding send_authorized
send_authorized_ok send base (ok req) r e = (req, refl, sent-some (send base req) r e)
send_authorized_ok send base (error x) r e = absurd (ground arith)

module _ {H B R : Type 0} (respond : Text → List Text → Result TokenResponse) (send : Sender B R)
    (default_transport : B) where
  -- A transport that has an answer has sent the request with the access token that the provider gave
  -- for the transport's audience and scopes, in the header "Authorization"; the address and all other
  -- headers are those of the request.
  pub round_trip-IsSigned :
      (t : Transport H B) (req : HttpRequest) (r : R)
      → round_trip respond send default_transport (some t) (some req) ≡ ok r
      → (signed : HttpRequest) × (value : Text) × (token respond t.provider t.audience t.scopes
          ≡ ok value)
        × IsSigned req signed value
        × (send (or_default default_transport t.base) signed ≡ some r)
  unfolding round_trip
  round_trip-IsSigned t req r e = elim (Option-cases t.provider) [
    | inl x ↦ absurd (ground arith)
    | inr (p, x) ↦
        let (signed, f, s) =
          send_authorized_ok send (or_default default_transport t.base)
            (authorize_request respond (some p) (some req) t.audience t.scopes) r
            (rw (x, round_trip) at e) in
        let (value, g, is_signed) =
          authorize-IsSigned respond (some p) req signed t.audience t.scopes f in
        (signed, value, rw x g, is_signed, s)
  ]

-- A server finds in a request that the client has authorized the token that the provider gave, if it
-- is a word.
pub authorize_request-bearer_token :
    {H : Type 0} (respond : Text → List Text → Result TokenResponse) (p : Option (Provider H))
    (req signed : HttpRequest) (audience : Text) (scopes : List Text) (value : Text)
    → authorize_request respond p (some req) audience scopes ≡ ok signed
    → token respond p audience scopes ≡ ok value
    → IsWord value
    → bearer_token (get_header (codes "Authorization") signed) ≡ Bearer.token value
unfolding text_eq
authorize_request-bearer_token respond p req signed audience scopes value e t w =
    let (given, t', s) = authorize-IsSigned respond p req signed audience scopes e in
    let same : given ≡ value = ground arith in
    rw (s.header (codes "Authorization"), get_header)
      (subst (λ v. bearer_token (codes "Bearer " ++ v) ≡ Bearer.token value) (sym same)
        (bearer_token_header value w))
