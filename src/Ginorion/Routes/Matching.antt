-- ===== src/Ginorion/Routes/Matching.antt =====
-- Which paths a route covers, and that the readiness route replaces none.
use orionis.Base.{
  ℕ, ◌≡◌, ◌≢◌, ◌↔◌, inl, inr, refl, ap, subst, true, false, ◌&&◌, Option, List, [], ◌∷◌, ◌++◌,
  arith, Bool-cases, is_nil, Any,
}
use orionis.Text.{Text, codes, text_eq}
use orionis.Text.Order.{text_eq_iff}
use orionis.Ginorion.Routes.{
  Handler, Route, Router, mounted, split_path, trim_slash, starts_with, parts_cover,
  gin_route_covers, get, any_get_covers, has_existing_get_route, is_ready_path,
  mount_compatible_get,
}

-- A part that begins with `:` stands for one part that is not empty, one that begins with `*` for all
-- parts that are left, of which there is one at least; any other part stands for itself.
pub data Matches : List Text → List Text → Type 0 where
  done : Matches [] []
  rest :
      {part target : Text} {parts targets : List Text}
      → starts_with b'*' part ≡ true
      → Matches (part ∷ parts) (target ∷ targets)
  one :
      {part target : Text} {parts targets : List Text}
      → starts_with b':' part ≡ true
      → target ≢ []
      → Matches parts targets
      → Matches (part ∷ parts) (target ∷ targets)
  same :
      {part : Text} {parts targets : List Text}
      → Matches parts targets
      → Matches (part ∷ parts) (part ∷ targets)

Matches-parts :
    (parts targets : List Text) → parts_cover parts targets ≡ true → Matches parts targets
unfolding parts_cover is_nil
Matches-parts [] [] e = done
Matches-parts [] (t ∷ ts) e = absurd (ground arith)
Matches-parts (p ∷ ps) [] e = absurd (ground arith)
Matches-parts (p ∷ ps) (t ∷ ts) e = elim (Bool-cases (starts_with b'*' p)) [
  | inl k ↦ rest k
  | inr k ↦ elim (Bool-cases (starts_with b':' p)) [
    | inl l ↦
        let nonblank : is_nil t ≡ false = ground arith in
        one l (λ z. ground (arith, ap is_nil z, nonblank)) (Matches-parts ps ts (ground arith))
    | inr l ↦
        let equal : p ≡ t = (text_eq_iff p t).0 (ground arith) in
        subst (λ x. Matches (p ∷ ps) (x ∷ ts)) equal (same (Matches-parts ps ts (ground arith)))
  ]
]

ne_is_nil : (s : Text) → s ≢ [] → is_nil s ≡ false
unfolding is_nil
ne_is_nil [] n = absurd (n refl)
ne_is_nil (c ∷ s) n = refl

starts_nonblank : (c : ℕ) (s : Text) → starts_with c s ≡ true → is_nil s ≡ false
unfolding starts_with is_nil
starts_nonblank c [] e = absurd (ground arith)
starts_nonblank c (d ∷ s) e = refl

parts-Matches :
    {parts targets : List Text} → Matches parts targets → parts_cover parts targets ≡ true
unfolding parts_cover is_nil
parts-Matches done = refl
parts-Matches (rest k) = rw k refl
parts-Matches (one {part} {target} k n m) =
    let inner = parts-Matches m in
    let nonblank = ne_is_nil target n in
    elim (Bool-cases (starts_with b'*' part)) [
      | inl s ↦ rw s refl
      | inr s ↦ ground (arith, inner, nonblank, k, s)
    ]
parts-Matches (same {part} m) =
    let inner = parts-Matches m in
    let equal = (text_eq_iff part part).1 refl in
    elim (Bool-cases (starts_with b'*' part)) [
      | inl s ↦ rw s refl
      | inr s ↦ elim (Bool-cases (starts_with b':' part)) [
        | inl k ↦ ground (arith, inner, starts_nonblank b':' part k, k, s)
        | inr k ↦ ground (arith, inner, equal, k, s)
      ]
    ]

-- A route for GET whose pattern matches the path, part by part.
abbrev pub IsOwner : Text → Route → Type 0
IsOwner target route =
    (route.method ≡ get)
    × Matches (split_path (trim_slash route.path)) (split_path (trim_slash target))

any_get_covers_iff :
    (routes : List Route) (target : Text)
    → (any_get_covers routes target ≡ true) ↔ Any (IsOwner target) routes
unfolding any_get_covers gin_route_covers
any_get_covers_iff [] target = ((λ e. ground arith), (λ a. absurd a))
any_get_covers_iff (r ∷ rs) target =
    let inner = any_get_covers_iff rs target in
    let parts = split_path (trim_slash r.path) in
    let targets = split_path (trim_slash target) in
    (
      λ e. elim (Bool-cases (text_eq r.method get && parts_cover parts targets)) [
        | inl k ↦ inl (
          (text_eq_iff r.method get).0 (ground arith),
          Matches-parts parts targets (ground arith),
        )
        | inr k ↦ inr (inner.0 (ground arith))
      ],
      λ a. elim a [
        | inl (m, x) ↦
            let here = (text_eq_iff r.method get).1 m in
            let covered = parts-Matches x in ground (arith, here, covered)
        | inr b ↦ let later = inner.1 b in ground (arith, later)
      ],
    )

-- A readiness route that is asked for is not added where the application owns the path: on a router
-- that lists its routes, if one of these is for GET and its pattern matches the path, mounting the
-- route leaves the router as it is, whatever gin would say of it.
pub mount_compatible_get-owned :
    (clash : List Route → Route → Option Text) (router : Router) (path : Text) (handler : Handler)
    → is_ready_path path ≡ true
    → router.lists_routes ≡ true
    → Any (IsOwner (codes "/" ++ trim_slash path)) router.routes
    → mount_compatible_get clash router path handler ≡ mounted router
unfolding mount_compatible_get has_existing_get_route
mount_compatible_get-owned clash router path handler ready lists a =
    let owned = (any_get_covers_iff router.routes (codes "/" ++ trim_slash path)).1 a in
    rw (ready, lists) (rw owned refl)
