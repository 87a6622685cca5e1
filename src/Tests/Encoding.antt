-- ===== src/Tests/Encoding.antt =====
-- A coding of claims as a text that begins with a letter, for tests of signed tokens: each text has its
-- length before it.
use orionis.Base.{
  ℕ, zero, suc, ◌≡◌, refl, false, Option, none, some, List, [], ◌∷◌, ◌++◌, arith, is_nil,
  is_nil_of_ne_nil, length,
}
use orionis.Base.Int.{ℤ, pos, negsuc}
use orionis.Text.{Text, trim_space, is_space}
use orionis.Text.Trim.{trim_space-nil}
use orionis.Claims.{Claims}

split_at : ℕ → List ℕ → List ℕ × List ℕ
split_at zero xs = ([], xs)
split_at (suc n) [] = ([], [])
split_at (suc n) (x ∷ xs) = let r = split_at n xs in (x ∷ r.0, r.1)

put_text : Text → List ℕ → List ℕ
put_text t rest = length t ∷ (t ++ rest)

get_text : List ℕ → Text × List ℕ
get_text [] = ([], [])
get_text (n ∷ xs) = split_at n xs

put_each : List Text → List ℕ → List ℕ
put_each [] rest = rest
put_each (t ∷ ts) rest = put_text t (put_each ts rest)

get_each : ℕ → List ℕ → List Text × List ℕ
get_each zero xs = ([], xs)
get_each (suc n) xs = let t = get_text xs in let r = get_each n t.1 in (t.0 ∷ r.0, r.1)

put_texts : List Text → List ℕ → List ℕ
put_texts ts rest = length ts ∷ put_each ts rest

get_texts : List ℕ → List Text × List ℕ
get_texts [] = ([], [])
get_texts (n ∷ xs) = get_each n xs

-- 0 stands for no date, and for one before 1970.
put_date : Option ℤ → List ℕ → List ℕ
put_date none rest = 0 ∷ rest
put_date (some (pos n)) rest = suc n ∷ rest
put_date (some (negsuc n)) rest = 0 ∷ rest

get_date : List ℕ → Option ℤ × List ℕ
get_date [] = (none, [])
get_date (zero ∷ xs) = (none, xs)
get_date (suc n ∷ xs) = (some (pos n), xs)

split_at-append : (t rest : List ℕ) → split_at (length t) (t ++ rest) ≡ (t, rest)
unfolding split_at
split_at-append [] rest = refl
split_at-append (x ∷ t) rest = rw (split_at-append t rest) refl

get_text-put : (t : Text) (rest : List ℕ) → get_text (put_text t rest) ≡ (t, rest)
unfolding get_text put_text
get_text-put t rest = split_at-append t rest

get_each-put :
    (ts : List Text) (rest : List ℕ) → get_each (length ts) (put_each ts rest) ≡ (ts, rest)
unfolding get_each put_each
get_each-put [] rest = refl
get_each-put (t ∷ ts) rest = rw (get_text-put t (put_each ts rest), get_each-put ts rest) refl

get_texts-put : (ts : List Text) (rest : List ℕ) → get_texts (put_texts ts rest) ≡ (ts, rest)
unfolding get_texts put_texts
get_texts-put ts rest = get_each-put ts rest

get_date-kept :
    (o : Option ℤ) (n : ℕ) (rest : List ℕ)
    → o ≡ some (pos n)
    → get_date (put_date o rest) ≡ (o, rest)
unfolding get_date put_date
get_date-kept none n rest e = absurd (ground arith)
get_date-kept (some (pos m)) n rest e = refl
get_date-kept (some (negsuc m)) n rest e = absurd (ground arith)

unfoldable pub encode_claims : Claims → Text
unfolding put_text put_texts put_each put_date
encode_claims c =
    b'A'
    ∷ put_text c.issuer (
        put_text c.subject (
          put_texts c.audience (
            put_date c.expires_at (
              put_date c.not_before (
                put_date c.issued_at (
                  put_text c.id
                    (put_text c.client_id (put_text c.scope (put_text c.token_use [])))))))))

decode_fields : List ℕ → Claims
decode_fields xs =
    let issuer = get_text xs in
    let subject = get_text issuer.1 in
    let audience = get_texts subject.1 in
    let expires = get_date audience.1 in
    let begins = get_date expires.1 in
    let made = get_date begins.1 in
    let id = get_text made.1 in
    let client = get_text id.1 in
    let scope = get_text client.1 in
    let used = get_text scope.1 in
    record {
      issuer = issuer.0;
      subject = subject.0;
      audience = audience.0;
      expires_at = expires.0;
      not_before = begins.0;
      issued_at = made.0;
      id = id.0;
      client_id = client.0;
      scope = scope.0;
      token_use = used.0;
    }

-- `none` is a text that codes no claims.
pub decode_claims : Text → Option Claims
unfolding decode_fields get_text get_texts get_each get_date split_at
decode_claims [] = none
decode_claims (c ∷ xs) = some (decode_fields xs)

-- Claims whose dates are from 1970 on are decoded to what was encoded.
pub decode_claims-encode_claims :
    (c : Claims) (e b i : ℕ)
    → c.expires_at ≡ some (pos e)
    → c.not_before ≡ some (pos b)
    → c.issued_at ≡ some (pos i)
    → decode_claims (encode_claims c) ≡ some c
unfolding decode_claims encode_claims decode_fields
decode_claims-encode_claims c e b i x y z = simp (
  get_text-put,
  get_texts-put,
  λ (rest : List ℕ). get_date-kept c.expires_at e rest x,
  λ (rest : List ℕ). get_date-kept c.not_before b rest y,
  λ (rest : List ℕ). get_date-kept c.issued_at i rest z,
)

pub encode_claims_given : (c : Claims) → is_nil (trim_space (encode_claims c)) ≡ false
unfolding encode_claims is_space
encode_claims_given c =
    is_nil_of_ne_nil (trim_space (encode_claims c))
      λ e. let blank = trim_space-nil (encode_claims c) e in absurd (ground (arith, blank.0))
