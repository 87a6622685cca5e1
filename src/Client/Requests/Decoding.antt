-- ===== src/Client/Requests/Decoding.antt =====
-- What is decoded from a body.
use orionis.Base.{ℕ, ◌≤◌, ◌≡◌, refl, true, false, some, List, length, arith, ltb}
use orionis.Token.{TokenResponse}
use orionis.Client.Requests.{
  Reader, nil_reader, reader, read_limited, read, Next, eof, malformed, value, decode_rest, decode,
  Json, max_token_response_body,
}

-- The bytes of a body, within the limit, are a response and nothing more.
pub record IsBodyOf (json : Json) (body : Reader) (r : TokenResponse) : Type 0 where
  pub raw : List ℕ
  pub rest : List ℕ
  pub whole : body ≡ reader raw false
  pub short : length raw ≤ max_token_response_body
  pub holds : json.next_response raw ≡ value r rest
  pub ends : json.next_any rest ≡ eof

decode_rest-some :
    {V W : Type 0} (skip : List ℕ → Next W) (n : Next V) (v : V)
    → decode_rest skip n ≡ some v
    → (rest : List ℕ) × (n ≡ value v rest) × (skip rest ≡ eof)
unfolding decode_rest
decode_rest-some skip eof v e = absurd (ground arith)
decode_rest-some skip malformed v e = absurd (ground arith)
decode_rest-some skip (value u rest) v e = (rest, ground arith, ground arith)

decode-some :
    {V W : Type 0} (next : List ℕ → Next V) (skip : List ℕ → Next W) (r : Reader) (max_bytes : ℕ)
    (v : V)
    → decode next skip r max_bytes ≡ some v
    → (raw : List ℕ) × (rest : List ℕ) × (r ≡ reader raw false)
      × (length raw ≤ max_bytes)
      × (next raw ≡ value v rest)
      × (skip rest ≡ eof)
unfolding decode read read_limited
decode-some next skip nil_reader max_bytes v e = absurd (ground arith)
decode-some next skip (reader raw true) max_bytes v e = absurd (ground arith)
decode-some next skip (reader raw false) max_bytes v e =
    let short : ltb max_bytes (length raw) ≡ false = ground arith in
    let (rest, x, y) = decode_rest-some skip (next raw) v (rw (short, decode) at e) in
    (raw, rest, refl, ground arith, x, y)

pub decoded-IsBodyOf :
    (json : Json) (body : Reader) (r : TokenResponse)
    → decode json.next_response json.next_any body max_token_response_body ≡ some r
    → IsBodyOf json body r
decoded-IsBodyOf json body r e =
    let (raw, rest, whole, short, holds, ends) =
      decode-some json.next_response json.next_any body max_token_response_body r e in
    record { raw = raw; rest = rest; whole = whole; short = short; holds = holds; ends = ends }
