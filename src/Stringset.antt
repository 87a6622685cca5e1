-- ===== src/Stringset.antt =====
-- internal/stringset/stringset.go. A nil slice and an empty one are both `[]`.
pub mod Sorting
pub mod Collect
pub mod Canonical
use orionis.Base.{ℕ, ◌≡◌, Bool, true, false, List, [], ◌∷◌, ◌++◌, if◌then◌else◌}
use orionis.Text.{Text, fields, text_ltb, contains}

-- What the loop of `Normalize` keeps: the map `seen`, as its keys, and `result`.
pub record Collected : Type 0 where
  pub seen : List Text
  pub result : List Text

-- One round of the inner loop.
collect_item : Collected → Text → Collected
collect_item st item =
    if contains st.seen item
    then st
    else record { seen = item ∷ st.seen; result = st.result ++ item ∷ [] }

collect_items : Collected → List Text → Collected
collect_items st [] = st
collect_items st (item ∷ items) = collect_items (collect_item st item) items

pub collect_values : Collected → List Text → Collected
collect_values st [] = st
collect_values st (value ∷ values) = collect_values (collect_items st (fields value)) values

-- `slices.Sort`. On a total order any sort gives the same list; this one inserts.
insert_sorted : Text → List Text → List Text
insert_sorted x [] = x ∷ []
insert_sorted x (y ∷ ys) = if text_ltb y x then y ∷ insert_sorted x ys else x ∷ y ∷ ys

pub sort : List Text → List Text
sort [] = []
sort (x ∷ xs) = insert_sorted x (sort xs)

unfoldable pub normalize : List Text → List Text
unfolding collect_item collect_items collect_values insert_sorted sort
normalize [] = []
normalize (value ∷ values) =
    sort (collect_values (record { seen = []; result = [] }) (value ∷ values)).result
