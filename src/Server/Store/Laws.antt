-- ===== src/Server/Store/Laws.antt =====
-- The store as a map from ids to normalised clients.

use orionis.Base.{
  ◌≡◌, ◌≢◌, inl, inr, refl, sym, ap, ◌∙◌, false, not, ◌&&◌, some, List, [], ◌∷◌, arith, Bool-cases,
  Option-cases, is_nil, is_nil-false, if◌then◌else◌,
}
use orionis.Text.{Text, text_eq, trim_space}
use orionis.Text.Order.{text_eq_iff}
use orionis.Text.Dict.{lookup, insert, lookup-insert}
use orionis.Server.Client.{Client, normalize}
use orionis.Server.Client.Validation.{normalize_client_idem}
use orionis.Server.Store.{
  client_found, client_not_found, MemoryClientStore, upsert, upsert_all, new_memory_client_store,
  find_client,
}

pub normalize-id : (c : Client) → (normalize c).id ≡ trim_space c.id
unfolding normalize
normalize-id c = refl

normalize-disabled : (c : Client) → (normalize c).disabled ≡ c.disabled
unfolding normalize
normalize-disabled c = refl

-- After an upsert the store finds the normalised client under its trimmed id, unless that is empty or
-- the client is disabled, and under any other id what it found before.
pub find-upsert :
    (s : MemoryClientStore) (c : Client) (id : Text)
    → find_client (upsert s c) id ≡ (
        if not (is_nil (trim_space c.id)) && text_eq (trim_space c.id) (trim_space id)
        then (if c.disabled then client_not_found else client_found (normalize c))
        else find_client s id)
unfolding find_client upsert
find-upsert s c id = ground (
  arith,
  normalize-id c,
  normalize-disabled c,
  lookup-insert (normalize c).id (trim_space id) (normalize c) s.clients,
)

-- Each client is stored normalised, under its id, which is not empty.
pub record IsStore (s : MemoryClientStore) : Type 0 where
  pub stored :
      (k : Text) (c : Client)
      → lookup k s.clients ≡ some c
      → (normalize c ≡ c) × (c.id ≡ k) × (k ≢ [])

upsert-IsStore : (s : MemoryClientStore) (c : Client) → IsStore s → IsStore (upsert s c)
unfolding upsert
upsert-IsStore s c v = elim (Bool-cases (is_nil (normalize c).id)) [
  | inl e ↦ rw (e, upsert) v
  | inr e ↦ rw (e, upsert) (record { stored = kept e })
]
  where
    kept :
        is_nil (normalize c).id ≡ false
        → (k : Text) (d : Client)
        → lookup k (insert (normalize c).id (normalize c) s.clients) ≡ some d
        → (normalize d ≡ d) × (d.id ≡ k) × (k ≢ [])
    kept e k d h = elim (Bool-cases (text_eq (normalize c).id k)) [
      | inl m ↦
          let id_eq = (text_eq_iff (normalize c).id k).0 m in
          let d_eq : normalize c ≡ d =
            ground (arith, lookup-insert (normalize c).id k (normalize c) s.clients) in
          (
            ap normalize (sym d_eq) ∙ normalize_client_idem c ∙ d_eq,
            ap (λ x. x.id) (sym d_eq) ∙ id_eq,
            λ z. is_nil-false _ e (id_eq ∙ z),
          )
      | inr m ↦
          v.stored k d (ground (arith, lookup-insert (normalize c).id k (normalize c) s.clients))
    ]

upsert_all-IsStore :
    (s : MemoryClientStore) (cs : List Client) → IsStore s → IsStore (upsert_all s cs)
unfolding upsert_all
upsert_all-IsStore s [] v = v
upsert_all-IsStore s (c ∷ cs) v = upsert_all-IsStore (upsert s c) cs (upsert-IsStore s c v)

empty-IsStore : IsStore (record { clients = [] })
unfolding lookup
empty-IsStore = record { stored = λ k c e. absurd (ground arith) }

-- A store that is built from any clients finds under an id only a client that is normalised, is not
-- disabled and has that id, trimmed, which is not empty.
pub new_store_finds :
    (cs : List Client) (id : Text) (c : Client)
    → find_client (new_memory_client_store cs) id ≡ client_found c
    → (normalize c ≡ c) × (c.id ≡ trim_space id) × (trim_space id ≢ []) × (c.disabled ≡ false)
unfolding find_client new_memory_client_store
new_store_finds cs id c e =
    let s = upsert_all (record { clients = [] }) cs in
    elim (Option-cases (lookup (trim_space id) s.clients)) [
      | inl k ↦ absurd (ground arith)
      | inr (d, k) ↦
          let d_eq : d ≡ c = ground arith in
          let on : c.disabled ≡ false = ground arith in
          let (n, i, ne) =
            (upsert_all-IsStore (record { clients = [] }) cs empty-IsStore).stored (trim_space id) c
              (k ∙ ap some d_eq) in
          (n, i, ne, on)
    ]
