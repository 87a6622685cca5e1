-- ===== src/Server/Config/Signing.antt =====
-- The signers of a configuration: named apart, and one of them active.
use mathlib.Core.Path.{subst}
use orionis.Base.{
  ◌≡◌, ◌≢◌, ◌⊎◌, inl, inr, refl, sym, true, false, Option, none, some, List, [], ◌∷◌, arith,
  Bool-cases, All, Any, Has, is_nil, is_nil-false, nil_of_is_nil, if◌then◌else◌,
}
use orionis.Text.{Text, text_eq, trim_space, contains}
use orionis.Text.Order.{text_eq_iff, contains_of_Has}
use orionis.Stringset.Sorting.{IsDistinct}
use orionis.Server.Config.{
  Signer, Scan, scanned, scan_failed, active_is, scan_signers, choose_active, choose_scanned,
}

-- The key ids of signers.
names : List (Option Signer) → List Text
names [] = []
names (none ∷ l) = names l
names (some s ∷ l) = trim_space s.key_id ∷ names l

-- A signer with a key id.
abbrev pub IsNamed : Option Signer → Type 0
IsNamed o = (s : Signer) × (o ≡ some s) × (trim_space s.key_id ≢ [])

-- Signer `o` is `s`, and has key id `kid`.
pub record IsCalled (kid : Text) (s : Signer) (o : Option Signer) : Type 0 where
  pub same : o ≡ some s
  pub called : trim_space s.key_id ≡ kid

-- No two of the signers have the same key id.
pub HasDistinctIds : List (Option Signer) → Type 0
unfolding names
HasDistinctIds l = IsDistinct (names l)

record IsScanned (kid : Text) (seen : List Text) (from to : Option Signer)
    (l : List (Option Signer)) : Type 0 where
  named : All IsNamed l
  distinct : IsDistinct (names l)
  unseen : (k : Text) → Has k (names l) → Has k seen → ⊥
  result : (to ≡ from) ⊎ ((s : Signer) × (to ≡ some s) × Any (IsCalled kid s) l)

module _ (kid : Text) (seen : List Text) (from to : Option Signer) (s : Signer)
    (l : List (Option Signer)) where
  scanned_result :
      ((to ≡ (if text_eq kid (trim_space s.key_id) then some s else from))
        ⊎ ((t : Signer) × (to ≡ some t) × Any (IsCalled kid t) l))
      → (to ≡ from) ⊎ ((t : Signer) × (to ≡ some t) × Any (IsCalled kid t) (some s ∷ l))
  scanned_result (inr (t, e, a)) = inr (t, e, inr a)
  scanned_result (inl e) = elim (Bool-cases (text_eq kid (trim_space s.key_id))) [
    | inl k ↦ inr (
      s,
      ground arith,
      inl (record { same = refl; called = sym ((text_eq_iff kid (trim_space s.key_id)).0 k) }),
    )
    | inr k ↦ inl (ground arith)
  ]

  IsScanned-cons :
      is_nil (trim_space s.key_id) ≡ false
      → contains seen (trim_space s.key_id) ≡ false
      → IsScanned kid
          (trim_space s.key_id ∷ seen)
          (if text_eq kid (trim_space s.key_id) then some s else from)
          to
          l
      → IsScanned kid seen from to (some s ∷ l)
  unfolding names
  IsScanned-cons n d r = record {
    named = ((s, refl, is_nil-false _ n), r.named);
    distinct = ((λ h. r.unseen (trim_space s.key_id) h (inl refl)), r.distinct);
    unseen = λ k h m. elim h [
      | inl e ↦ absurd (ground (arith, contains_of_Has seen k m))
      | inr h' ↦ r.unseen k h' (inr m)
    ];
    result = scanned_result r.result;
  }

scan-IsScanned :
    (kid : Text) (seen : List Text) (from to : Option Signer) (l : List (Option Signer))
    → scan_signers kid seen from l ≡ scanned to
    → IsScanned kid seen from to l
unfolding scan_signers names
scan-IsScanned kid seen from to [] e = record {
  named = tt;
  distinct = tt;
  unseen = λ k h m. h;
  result = inl (ground arith);
}
scan-IsScanned kid seen from to (none ∷ l) e = absurd (ground arith)
scan-IsScanned kid seen from to (some s ∷ l) e =
    let n : is_nil (trim_space s.key_id) ≡ false = ground arith in
    let d : contains seen (trim_space s.key_id) ≡ false = ground arith in
    IsScanned-cons kid seen from to s l n d
      (scan-IsScanned kid (trim_space s.key_id ∷ seen) _ to l (rw (n, d, scan_signers) at e))

-- The signer `a` is the one with key id `kid`, or the first if `kid` is empty.
pub data IsActive (kid : Text) (a : Signer) (l : List (Option Signer)) : Type 0 where
  by_id : Any (IsCalled kid a) l → IsActive kid a l
  by_default : kid ≡ [] → (rest : List (Option Signer)) → l ≡ some a ∷ rest → IsActive kid a l

chosen-IsActive :
    (kid : Text) (a : Signer) (to : Option Signer) (l : List (Option Signer))
    → IsScanned kid [] none to l
    → choose_active kid to l ≡ active_is a
    → IsActive kid a l
unfolding choose_active
chosen-IsActive kid a (some s) l v e = elim v.result [
  | inl k ↦ absurd (ground arith)
  | inr (t, k, h) ↦
      let same : t ≡ a = ground arith in by_id (subst (λ x. Any (IsCalled kid x) l) same h)
]
chosen-IsActive kid a none [] v e = absurd (ground arith)
chosen-IsActive kid a none (none ∷ l) v e = absurd (ground arith)
chosen-IsActive kid a none (some s ∷ l) v e =
    let n : is_nil kid ≡ true = ground arith in by_default (nil_of_is_nil kid n) l (ground arith)

-- The signers are named apart, and `a` is the active one.
pub record IsSigning (kid : Text) (a : Signer) (l : List (Option Signer)) : Type 0 where
  pub named : All IsNamed l
  pub distinct : HasDistinctIds l
  pub active : IsActive kid a l

pub scanned-IsSigning :
    (kid : Text) (a : Signer) (l : List (Option Signer)) (r : Scan)
    → scan_signers kid [] none l ≡ r
    → choose_scanned kid l r ≡ active_is a
    → IsSigning kid a l
unfolding choose_scanned HasDistinctIds
scanned-IsSigning kid a l (scan_failed x) k e = absurd (ground arith)
scanned-IsSigning kid a l (scanned to) k e =
    let v = scan-IsScanned kid [] none to l k in
    record { named = v.named; distinct = v.distinct; active = chosen-IsActive kid a to l v e }
