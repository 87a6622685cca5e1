-- ===== src/Server/Store/Filling.antt =====
-- A store that is filled with clients of distinct ids finds each of them.
use mathlib.Core.Path.{subst}
use orionis.Base.{
  ◌≡◌, ◌≢◌, inl, inr, refl, sym, ap, ◌∙◌, false, List, [], ◌∷◌, map, arith, All, Has,
  is_nil_of_ne_nil,
}
use orionis.Text.{Text, trim_space}
use orionis.Text.Order.{text_eq_iff}
use orionis.Stringset.Sorting.{IsDistinct}
use orionis.Server.Client.{Client, normalize}
use orionis.Server.Store.{
  client_found, MemoryClientStore, upsert, upsert_all, new_memory_client_store, find_client,
}
use orionis.Server.Store.Laws.{find-upsert, normalize-id}

abbrev pub ids : List Client → List Text
ids cs = map (λ c. c.id) cs

-- A client in normal form, with an id.
pub record IsNormal (c : Client) : Type 0 where
  pub normal : normalize c ≡ c
  pub has_id : c.id ≢ []

trimmed : (c : Client) → normalize c ≡ c → trim_space c.id ≡ c.id
trimmed c n = sym (normalize-id c) ∙ ap (λ d. d.id) n

find-upsert_other :
    (s : MemoryClientStore) (c : Client) (id : Text)
    → normalize c ≡ c
    → c.id ≢ trim_space id
    → find_client (upsert s c) id ≡ find_client s id
find-upsert_other s c id n ne =
    ground (arith, find-upsert s c id, trimmed c n, text_eq_iff (trim_space c.id) (trim_space id))

find-upsert_same :
    (s : MemoryClientStore) (c : Client)
    → IsNormal c
    → c.disabled ≡ false
    → find_client (upsert s c) c.id ≡ client_found c
find-upsert_same s c v on = ground (
  arith,
  find-upsert s c c.id,
  trimmed c v.normal,
  v.normal,
  text_eq_iff (trim_space c.id) (trim_space c.id),
  is_nil_of_ne_nil c.id v.has_id,
)

find-upsert_all_other :
    (cs : List Client) (s : MemoryClientStore) (id : Text)
    → All IsNormal cs
    → ¬ Has (trim_space id) (ids cs)
    → find_client (upsert_all s cs) id ≡ find_client s id
unfolding upsert_all
find-upsert_all_other [] s id v n = refl
find-upsert_all_other (c ∷ cs) s id (v, vs) n =
    find-upsert_all_other cs (upsert s c) id vs (λ h. n (inr h))
    ∙ find-upsert_other s c id v.normal (λ e. n (inl e))

find-upsert_all :
    (cs : List Client) (s : MemoryClientStore) (c : Client)
    → All IsNormal cs
    → IsDistinct (ids cs)
    → Has c cs
    → c.disabled ≡ false
    → find_client (upsert_all s cs) c.id ≡ client_found c
unfolding upsert_all
find-upsert_all [] s c v d h on = absurd h
find-upsert_all (b ∷ cs) s c (v, vs) (n, d) (inl e) on =
    let w = subst IsNormal e v in
    find-upsert_all_other cs (upsert s b) c.id vs
      (λ h. n (subst (λ t. Has t (ids cs)) (trimmed c w.normal ∙ ap (λ x. x.id) (sym e)) h))
    ∙ ap (λ x. find_client (upsert s x) c.id) e
    ∙ find-upsert_same s c w on
find-upsert_all (b ∷ cs) s c (v, vs) (n, d) (inr h) on = find-upsert_all cs (upsert s b) c vs d h on

-- A store that is filled with normalised clients of distinct ids that are not empty finds each of
-- them that is not disabled under its id.
pub find-new_store :
    (cs : List Client) (c : Client)
    → All IsNormal cs
    → IsDistinct (ids cs)
    → Has c cs
    → c.disabled ≡ false
    → find_client (new_memory_client_store cs) c.id ≡ client_found c
unfolding new_memory_client_store
find-new_store cs c v d h on = find-upsert_all cs (record { clients = [] }) c v d h on
