-- ===== src/Server/Scopes/Resolving.antt =====
-- The scopes that are issued: within what the client may have, and within what was asked for.
use mathlib.Core.Path.{subst}
use orionis.Base.{
  ◌≡◌, inl, inr, refl, sym, ◌∙◌, true, false, not, ◌&&◌, some, List, [], ◌∷◌, ◌++◌, arith,
  Bool-cases, Option-cases, All, Any, Has, All-append, All_at, All_of_Has, Any_of_Has,
}
use orionis.Text.{Text, IsWord}
use orionis.Text.Trim.{trim_space_solid}
use orionis.Stringset.Canonical.{Has-normalize, words-words}
use orionis.Scopes.{star, normalize_scopes, scope_covers, contains_scope_wildcard}
use orionis.Scopes.Covering.{scope_covers-Covers, same}
use orionis.Scopes.Granting.{Grants}
use orionis.Server.Scopes.{
  is_scope_allowed, expand_loop, expand_wildcard_scope_request, contains_invalid_scope_wildcard,
  resolve_one, resolve_loop, resolve_requested_scopes,
}

-- A word covers itself.
pub scope_covers_self : (s : Text) → IsWord s → scope_covers s s ≡ true
scope_covers_self s (ne, solid) =
    (scope_covers-Covers s s).1 (same (λ e. ne (sym (trim_space_solid s solid) ∙ e)) refl)

pub Grants-of_allowed :
    (s : Text) (allowed : List Text) → is_scope_allowed s allowed ≡ true → Grants allowed s
unfolding is_scope_allowed
Grants-of_allowed s [] e = absurd (ground arith)
Grants-of_allowed s (p ∷ allowed) e = elim (Bool-cases (scope_covers p s)) [
  | inl k ↦ inl k
  | inr k ↦ inr (Grants-of_allowed s allowed (ground arith))
]

pub allowed_of_Grants :
    (s : Text) (allowed : List Text) → Grants allowed s → is_scope_allowed s allowed ≡ true
unfolding is_scope_allowed
allowed_of_Grants s [] h = absurd h
allowed_of_Grants s (p ∷ allowed) (inl e) = rw e
allowed_of_Grants s (p ∷ allowed) (inr h) = ground (arith, allowed_of_Grants s allowed h)

-- Normalising a list of words keeps what holds of all of them.
pub All-normalize :
    (P : Text → Type 0) (ws : List Text) → All IsWord ws → All P ws → All P (normalize_scopes ws)
unfolding normalize_scopes
All-normalize P ws h p =
    All_of_Has P (normalize_scopes ws)
      λ x k. All_at P ws x p (subst (Has x) (words-words ws h) ((Has-normalize ws x).0 k))

-- Scope `s` may be issued to a client with these allowed scopes that asked for `r`.
pub record IsGranted (allowed : List Text) (r s : Text) : Type 0 where
  pub granted : Grants allowed s
  pub asked : scope_covers r s ≡ true
  pub concrete : contains_scope_wildcard s ≡ false
  pub word : IsWord s

pub member-Grants : (allowed : List Text) (s : Text) → IsWord s → Has s allowed → Grants allowed s
member-Grants [] s w h = h
member-Grants (a ∷ allowed) s w (inl e) =
    inl (subst (λ u. scope_covers u s ≡ true) (sym e) (scope_covers_self s w))
member-Grants (a ∷ allowed) s w (inr h) = inr (member-Grants allowed s w h)

expand_loop-IsGranted :
    (r : Text) (all allowed : List Text)
    → All IsWord allowed
    → ((s : Text) → Has s allowed → Has s all)
    → All (IsGranted all r) (expand_loop r allowed)
unfolding expand_loop
expand_loop-IsGranted r all [] w f = tt
expand_loop-IsGranted r all (s ∷ allowed) (ws, w) f =
    let rest = expand_loop-IsGranted r all allowed w (λ x h. f x (inr h)) in
    elim (Bool-cases (not (contains_scope_wildcard s) && scope_covers r s)) [
      | inl e ↦
          rw (e, expand_loop)
            (
              record {
                granted = member-Grants all s ws (f s (inl refl));
                asked = ground arith;
                concrete = ground arith;
                word = ws;
              },
              rest,
            )
      | inr e ↦ rw (e, expand_loop) rest
    ]

IsGranted-words :
    (all : List Text) (r : Text) (ss : List Text) → All (IsGranted all r) ss → All IsWord ss
IsGranted-words all r [] h = tt
IsGranted-words all r (s ∷ ss) (g, h) = (g.word, IsGranted-words all r ss h)

pub resolve_one-IsGranted :
    (r : Text) (allowed granted : List Text)
    → IsWord r
    → All IsWord allowed
    → resolve_one r allowed ≡ some granted
    → All (IsGranted allowed r) granted
unfolding resolve_one expand_wildcard_scope_request
resolve_one-IsGranted r allowed granted wr w e =
    let all = expand_loop-IsGranted r allowed allowed w (λ s h. h) in
    elim (Bool-cases (contains_scope_wildcard r)) [
      | inl star ↦
          let same_list : expand_wildcard_scope_request r allowed ≡ granted = ground arith in
          subst (All (IsGranted allowed r)) same_list (
            All-normalize (IsGranted allowed r) (expand_loop r allowed)
              (IsGranted-words allowed r _ all) all)
      | inr plain ↦
          let same_list : r ∷ [] ≡ granted = ground arith in
          subst (All (IsGranted allowed r)) same_list (
            record {
              granted = Grants-of_allowed r allowed (ground arith);
              asked = scope_covers_self r wr;
              concrete = plain;
              word = wr;
            },
            tt,
          )
    ]

-- Scope `s` may be issued: some request covers it.
pub record IsIssuable (allowed requested : List Text) (s : Text) : Type 0 where
  pub granted : Grants allowed s
  pub asked : Any (λ r. scope_covers r s ≡ true) requested
  pub concrete : contains_scope_wildcard s ≡ false
  pub word : IsWord s

IsIssuable-of_granted :
    (allowed whole : List Text) (r : Text) (ss : List Text)
    → Has r whole
    → All (IsGranted allowed r) ss
    → All (IsIssuable allowed whole) ss
IsIssuable-of_granted allowed whole r [] m h = tt
IsIssuable-of_granted allowed whole r (s ∷ ss) m (g, h) = (
  record {
    granted = g.granted;
    asked = Any_of_Has (λ q. scope_covers q s ≡ true) whole r m g.asked;
    concrete = g.concrete;
    word = g.word;
  },
  IsIssuable-of_granted allowed whole r ss m h,
)

pub issuable_words :
    (allowed whole ss : List Text) → All (IsIssuable allowed whole) ss → All IsWord ss
issuable_words allowed whole [] h = tt
issuable_words allowed whole (s ∷ ss) (g, h) = (g.word, issuable_words allowed whole ss h)

resolve_loop-IsIssuable :
    (allowed whole rest issued result : List Text)
    → All IsWord allowed
    → All IsWord rest
    → ((s : Text) → Has s rest → Has s whole)
    → All (IsIssuable allowed whole) issued
    → resolve_loop rest allowed issued ≡ some result
    → All (IsIssuable allowed whole) result
unfolding resolve_loop
resolve_loop-IsIssuable allowed whole [] issued result wa w f h e =
    let k : issued ≡ result = cc in subst (All (IsIssuable allowed whole)) k h
resolve_loop-IsIssuable allowed whole (r ∷ rest) issued result wa (wr, w) f h e =
    elim (Option-cases (resolve_one r allowed)) [
      | inl k ↦ absurd (ground arith)
      | inr (granted, k) ↦
          resolve_loop-IsIssuable allowed whole rest (issued ++ granted) result wa w
            (λ s m. f s (inr m))
            (All-append (IsIssuable allowed whole) issued granted h (
              IsIssuable-of_granted allowed whole r granted (f r (inl refl))
                (resolve_one-IsGranted r allowed granted wr wa k)))
            (rw (k, resolve_loop) at e)
    ]

-- Every scope that is issued is granted by one of the allowed scopes, is covered by one of the
-- requested scopes, and is a word without wildcard; the requested and the allowed scopes are words, as
-- normalising makes them.
pub resolve_sound :
    (requested allowed issued : List Text)
    → All IsWord requested
    → All IsWord allowed
    → resolve_requested_scopes requested allowed ≡ some issued
    → All (IsIssuable allowed requested) issued
unfolding resolve_requested_scopes
resolve_sound requested allowed issued wr wa e =
    elim (Bool-cases (contains_invalid_scope_wildcard requested)) [
      | inl k ↦ absurd (ground arith)
      | inr k ↦ elim (Option-cases (resolve_loop requested allowed [])) [
        | inl l ↦ absurd (ground arith)
        | inr (found, l) ↦
            let h =
              resolve_loop-IsIssuable allowed requested requested [] found wa wr (λ s m. m) tt l in
            let n : normalize_scopes found ≡ issued = ground arith in
            subst (All (IsIssuable allowed requested)) n (
              All-normalize (IsIssuable allowed requested) found
                (issuable_words allowed requested found h) h)
      ]
    ]
