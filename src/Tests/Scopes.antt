-- ===== src/Tests/Scopes.antt =====
-- Scopes, claims and bearer tokens.
use orionis.Base.{◌≡◌, ◌↔◌, inl, inr, refl, true, some, List, [], ◌∷◌, Has, is_nil, is_some}
use orionis.Base.Int.{pos}
use orionis.Text.{
  Text, codes, IsWord, is_space, trim_space, fields, contains_char, count, cut_prefix, cut_suffix,
  text_eq, text_ltb, contains,
}
use orionis.Stringset
use orionis.Stringset.Collect.{words}
use orionis.Scopes.{
  scope_covers, normalize_scopes, contains_scope_wildcard, wildcard_scope_parts, scope_set_covers,
}
use orionis.Scopes.Covering.{Covers, scope_covers-Covers}
use orionis.Claims.{Claims, scopes, has_scope, has_all_scopes}

-- What a run of the scope functions computes with.
unfoldable pub run : Text → Text
unfolding scope_covers contains_scope_wildcard wildcard_scope_parts contains_char count cut_prefix
    cut_suffix text_eq trim_space is_nil is_some scopes has_scope has_all_scopes scope_set_covers
    fields normalize_scopes Stringset.normalize text_ltb contains words
run s = s

scope_covers-Covers_example :
    (scope_covers (codes "orders.**") (codes "orders.items.read") ≡ true)
    ↔ Covers (trim_space (codes "orders.**")) (trim_space (codes "orders.items.read"))
scope_covers-Covers_example = scope_covers-Covers (codes "orders.**") (codes "orders.items.read")

abbrev values : List Text
values = codes "b a" ∷ codes "a" ∷ []

same_words : (x : Text) → Has x (words values) ↔ Has x (words (codes "b" ∷ codes "a a" ∷ []))
unfolding run
same_words x = (
  λ h. elim h [
    | inl e ↦ inl e
    | inr (inl e) ↦ inr (inl e)
    | inr (inr (inl e)) ↦ inr (inl e)
    | inr (inr (inr x)) ↦ elim x [ ]
  ],
  λ h. elim h [
    | inl e ↦ inl e
    | inr (inl e) ↦ inr (inl e)
    | inr (inr (inl e)) ↦ inr (inl e)
    | inr (inr (inr x)) ↦ elim x [ ]
  ],
)

abbrev pub billing : Claims
billing = record {
  issuer = codes "https://auth";
  subject = codes "billing";
  audience = codes "orders" ∷ [];
  expires_at = some (pos 900);
  not_before = some (pos 0);
  issued_at = some (pos 0);
  id = codes "1";
  client_id = codes "billing";
  scope = codes "orders.** audit.read";
  token_use = codes "access";
}

abbrev narrow : Claims
narrow = record billing { scope = codes "orders.items.*" }

abbrev pub required : List Text
required = codes "orders.items.read" ∷ []

pub abc-IsWord : IsWord (codes "abc")
unfolding is_space
abc-IsWord = ((λ e. cc), (refl, (refl, (refl, tt))))
