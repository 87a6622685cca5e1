-- ===== src/Server/Http/Keys.antt =====
-- The endpoint of the key set.
use mathlib.Core.Path.{subst}
use orionis.Base.{
  ◌≡◌, inl, inr, refl, ap, Option, none, some, List, [], ◌∷◌, arith, Option-cases, All, Any, Has,
}
use orionis.Text.{Text}
use orionis.Text.Order.{text_eq_iff}
use orionis.Jwk.Key.{Key}
use orionis.Server.Config.{Signer, Config, Server, built, build_server}
use orionis.Server.Config.Signing.{IsNamed, IsCalled, IsActive, by_id, by_default}
use orionis.Server.Config.Building.{build_server-IsBuilt}
use orionis.Server.Http.{
  Request, Response, keys_body, get, key_cache, write_json, public_keys, write_keys, jwks_http,
}

named_keys :
    (l : List (Option Signer)) → All IsNamed l → (ks : List Key) × (public_keys l ≡ some ks)
unfolding public_keys
named_keys [] v = ([], refl)
named_keys (none ∷ l) ((s, e, _), v) = absurd (ground arith)
named_keys (some s ∷ l) (_, v) = let (ks, e) = named_keys l v in (s.public_jwk ∷ ks, ground arith)

same_key : (s a : Signer) → some s ≡ some a → s.public_jwk ≡ a.public_jwk
same_key s a e = ap (λ o. elim o [ none ↦ a.public_jwk | some x ↦ x.public_jwk ]) e

called_key :
    (kid : Text) (a : Signer) (l : List (Option Signer)) (ks : List Key)
    → public_keys l ≡ some ks
    → Any (IsCalled kid a) l
    → Has a.public_jwk ks
unfolding public_keys
called_key kid a [] ks e h = absurd h
called_key kid a (none ∷ l) ks e h = absurd (ground arith)
called_key kid a (some s ∷ l) ks e h = elim (Option-cases (public_keys l)) [
  | inl k ↦ absurd (ground arith)
  | inr (rest, k) ↦
      let same : s.public_jwk ∷ rest ≡ ks = ground arith in
      subst (Has a.public_jwk) same
        (elim h [ inl c ↦ inl (same_key s a c.same) | inr m ↦ inr (called_key kid a l rest k m) ])
]

active_key :
    (kid : Text) (a : Signer) (l : List (Option Signer)) (ks : List Key)
    → public_keys l ≡ some ks
    → IsActive kid a l
    → Has a.public_jwk ks
unfolding public_keys
active_key kid a l ks e (by_id h) = called_key kid a l ks e h
active_key kid a l ks e (by_default n rest f) = elim (Option-cases (public_keys rest)) [
  | inl k ↦ absurd (ground (arith, ap public_keys f))
  | inr (keys, k) ↦
      let same : a.public_jwk ∷ keys ≡ ks = ground (arith, ap public_keys f) in
      subst (Has a.public_jwk) same (inl refl)
]

-- A server that is built answers each GET request for its keys with a list of keys, and the key of
-- the active signer, with which it signs tokens, is in the list.
pub jwks_http_serves :
    {Clock : Type 0} (system_clock : Clock) (cfg : Config Clock) (s : Server Clock) (r : Request)
    → build_server system_clock cfg ≡ built s
    → r.method ≡ get
    → (ks : List Key) × (a : Response) × (jwks_http s r ≡ some a)
      × (a.status_code ≡ 200)
      × (a.body ≡ keys_body ks)
      × Has s.active_signer.public_jwk ks
unfolding jwks_http write_keys write_json
jwks_http_serves system_clock cfg s r e m =
    let v = build_server-IsBuilt system_clock cfg s e in
    let (ks, k) = named_keys s.signers v.signing.named in
    let g = (text_eq_iff r.method get).1 m in
    (
      ks,
      write_json (key_cache ∷ []) 200 (keys_body ks),
      rw (g, k) refl,
      refl,
      refl,
      active_key _ s.active_signer s.signers ks k v.signing.active,
    )
