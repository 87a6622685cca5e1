-- ===== src/Token/Bearer.antt =====
-- What `BearerToken` accepts, and that it reads back the header that the client writes.
use mathlib.Core.Path.{subst}
use orionis.Base.{
  ◌≡◌, ◌≢◌, ◌↔◌, inl, inr, refl, ap, ◌∙◌, true, false, List, [], ◌∷◌, ◌++◌, arith, Bool-cases, All,
  is_nil, append-nil, nil_of_is_nil,
}
use orionis.Text.{Text, codes, is_space, trim_space, fields, join, equal_fold, IsWord}
use orionis.Text.Fields.{fields-IsWord, fields-nil_iff, fields-join}
use orionis.Text.Trim.{trim_space_solid}
use orionis.Token.{token, bearer_parts, bearer_token, token_type_bearer}

trim_word : (w : Text) → IsWord w → is_nil (trim_space w) ≡ false
unfolding is_nil
trim_word [] (ne, h) = absurd (ne refl)
trim_word (c ∷ w) (ne, h) = rw (trim_space_solid (c ∷ w) h)

-- Two words, the first of which is the scheme in any case.
abbrev pub IsBearer : List Text → Text → Type 0
IsBearer parts value =
    (scheme : Text) × (parts ≡ scheme ∷ value ∷ []) × (equal_fold scheme token_type_bearer ≡ true)

bearer_parts_sound :
    (parts : List Text) (value : Text) → bearer_parts parts ≡ token value → IsBearer parts value
unfolding bearer_parts
bearer_parts_sound [] value e = absurd (ground arith)
bearer_parts_sound (s ∷ []) value e = absurd (ground arith)
bearer_parts_sound (s ∷ v ∷ []) value e = (s, ground arith, ground arith)
bearer_parts_sound (s ∷ v ∷ w ∷ ws) value e = absurd (ground arith)

bearer_parts_complete :
    (s v : Text)
    → IsWord v
    → equal_fold s token_type_bearer ≡ true
    → bearer_parts (s ∷ v ∷ []) ≡ token v
unfolding bearer_parts
bearer_parts_complete s v h e = rw (e, trim_word v h)

bearer_token-fields :
    (header : Text) → fields header ≢ [] → bearer_token header ≡ bearer_parts (fields header)
unfolding bearer_token
bearer_token-fields header ne = elim (Bool-cases (is_nil (trim_space header))) [
  | inl e ↦ absurd (ne ((fields-nil_iff header).1 (nil_of_is_nil _ e)))
  | inr e ↦ rw e
]

-- `BearerToken` returns a token exactly when the header is two words, the first of them "Bearer" in
-- any case and the second the token.
pub bearer_token_iff :
    (header value : Text) → (bearer_token header ≡ token value) ↔ IsBearer (fields header) value
bearer_token_iff header value = (to, from)
  where
    to : bearer_token header ≡ token value → IsBearer (fields header) value
    to e = elim (Bool-cases (is_nil (trim_space header))) [
      | inl k ↦ absurd (unfold bearer_token in cc (rw (k, bearer_token) at e))
      | inr k ↦
          bearer_parts_sound (fields header) value
            (unfold bearer_token in (rw (k, bearer_token) at e))
    ]

    from : IsBearer (fields header) value → bearer_token header ≡ token value
    from (s, e, k) =
        bearer_token-fields header (λ f. cc)
        ∙ ap bearer_parts e
        ∙ bearer_parts_complete s value (subst (All IsWord) e (fields-IsWord header)).1.0 k

scheme-IsWord : IsWord token_type_bearer
unfolding is_space
scheme-IsWord = ((λ e. cc), (refl, (refl, (refl, (refl, (refl, (refl, tt)))))))

header_fields :
    (value : Text) → IsWord value → fields (codes "Bearer " ++ value) ≡ codes "Bearer" ∷ value ∷ []
unfolding join
header_fields value h =
    subst (λ u. fields (codes "Bearer " ++ u) ≡ codes "Bearer" ∷ value ∷ []) (append-nil value)
      (fields-join (codes "Bearer" ∷ value ∷ []) (scheme-IsWord, (h, tt)))

scheme_folds : equal_fold token_type_bearer token_type_bearer ≡ true
unfolding equal_fold
scheme_folds = refl

-- The header that `AuthorizeRequest` writes, "Bearer " and the token, is read back, for every token
-- that is not empty and holds no white space.
pub bearer_token_header :
    (value : Text) → IsWord value → bearer_token (codes "Bearer " ++ value) ≡ token value
bearer_token_header value h =
    (bearer_token_iff (codes "Bearer " ++ value) value).1
      (codes "Bearer", header_fields value h, scheme_folds)
