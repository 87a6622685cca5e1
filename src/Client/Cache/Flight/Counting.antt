-- ===== src/Client/Cache/Flight/Counting.antt =====
-- The callers, and how many of them wait for a call.
use orionis.Base.{
  ℕ, zero, suc, ◌+◌, ◌≤◌, ◌<◌, ◌≡◌, ◌≢◌, inl, inr, refl, sym, ap, ◌∙◌, arith, Bool-cases,
  if◌then◌else◌, ◌==◌,
}
use orionis.Client.Requests.{TokenError}
use orionis.Client.Tokens.{CachedToken, TokenCacheKey}
use orionis.Client.Cache.Sharing.{IsMore}

pub data Refusal : Type 0 where
  nil_context : Refusal
  context_done : Refusal
  request_failed : TokenError → Refusal

pub data Caller : Type 0 where
  idle : Caller
  missed : TokenCacheKey → Caller
  waiting : TokenCacheKey → ℕ → Caller
  served : TokenCacheKey → CachedToken → Caller
  refused : TokenCacheKey → Refusal → Caller

abbrev pub set_caller : ℕ → Caller → (ℕ → Caller) → ℕ → Caller
set_caller i x callers j = if i == j then x else callers j

-- 1 if the caller waits for call `c`.
abbrev pub waits : Caller → ℕ → ℕ
waits (waiting key d) c = if d == c then 1 else 0
waits idle c = 0
waits (missed key) c = 0
waits (served key token) c = 0
waits (refused key e) c = 0

-- How many of the callers below `n` wait for call `c`.
unfoldable pub waiters_of : ℕ → (ℕ → Caller) → ℕ → ℕ
waiters_of zero callers c = 0
waiters_of (suc n) callers c = waits (callers n) c + waiters_of n callers c

pub set_caller_self : (i : ℕ) (x : Caller) (f : ℕ → Caller) → set_caller i x f i ≡ x
set_caller_self i x f = ground arith

pub set_caller_other : (i j : ℕ) (x : Caller) (f : ℕ → Caller) → i ≢ j → set_caller i x f j ≡ f j
set_caller_other i j x f n = ground arith

waiters_of_above :
    (n i c : ℕ) (x : Caller) (f : ℕ → Caller)
    → n ≤ i
    → waiters_of n (set_caller i x f) c ≡ waiters_of n f c
unfolding waiters_of
waiters_of_above zero i c x f h = refl
waiters_of_above (suc n) i c x f h =
    let e = set_caller_other i n x f (λ z. omega (arith, h, z)) in
    omega (arith, ap (λ y. waits y c) e, waiters_of_above n i c x f (omega arith))

-- A caller that changes is counted as it is now, and no more as it was.
waiters_of-set :
    (n i c : ℕ) (x : Caller) (f : ℕ → Caller)
    → i < n
    → waiters_of n (set_caller i x f) c + waits (f i) c ≡ waiters_of n f c + waits x c
unfolding waiters_of
waiters_of-set zero i c x f h = absurd (omega arith)
waiters_of-set (suc n) i c x f h = elim (Bool-cases (i == n)) [
  | inl e ↦
      let same : i ≡ n = ground arith in
      omega (
        arith,
        ap (λ y. waits y c) (ap (set_caller i x f) (sym same) ∙ set_caller_self i x f),
        ap (λ j. waits (f j) c) same,
        waiters_of_above n i c x f (omega arith),
      )
  | inr e ↦
      let ne : i ≢ n = λ z. ground arith in
      omega (
        arith,
        ap (λ y. waits y c) (set_caller_other i n x f ne),
        waiters_of-set n i c x f (omega (arith, ne)),
      )
]

-- A caller that neither waited nor waits leaves the numbers as they are.
pub waiters_of-quiet :
    (n i c : ℕ) (x : Caller) (f : ℕ → Caller)
    → i < n
    → ((d : ℕ) → waits (f i) d ≡ 0)
    → ((d : ℕ) → waits x d ≡ 0)
    → waiters_of n (set_caller i x f) c ≡ waiters_of n f c
waiters_of-quiet n i c x f h a b = omega (arith, waiters_of-set n i c x f h, a c, b c)

pub waiters_of-IsMore :
    (n i c : ℕ) (k : TokenCacheKey) (f : ℕ → Caller)
    → i < n
    → ((d : ℕ) → waits (f i) d ≡ 0)
    → IsMore (waiters_of n f) (waiters_of n (set_caller i (waiting k c) f)) c
waiters_of-IsMore n i c k f h a = record {
  here = ground (arith, waiters_of-set n i c (waiting k c) f h, a c);
  else_same = λ d e. ground (arith, waiters_of-set n i d (waiting k c) f h, a d, e);
}

pub waiters_of-less :
    (n i c : ℕ) (k : TokenCacheKey) (x : Caller) (f : ℕ → Caller)
    → i < n
    → f i ≡ waiting k c
    → ((d : ℕ) → waits x d ≡ 0)
    → IsMore (waiters_of n (set_caller i x f)) (waiters_of n f) c
waiters_of-less n i c k x f h e a = record {
  here = ground (arith, waiters_of-set n i c x f h, ap (λ y. waits y c) e, a c);
  else_same = λ d z. ground (arith, waiters_of-set n i d x f h, ap (λ y. waits y d) e, a d, z);
}

-- A caller that waits is counted.
pub waiters_of-pos :
    (n i c : ℕ) (k : TokenCacheKey) (f : ℕ → Caller)
    → i < n
    → f i ≡ waiting k c
    → 1 ≤ waiters_of n f c
unfolding waiters_of
waiters_of-pos zero i c k f h e = absurd (omega arith)
waiters_of-pos (suc n) i c k f h e = elim (Bool-cases (i == n)) [
  | inl q ↦
      let same : i ≡ n = ground arith in
      let at_n = ap f (sym same) ∙ e in ground (arith, ap (λ y. waits y c) at_n)
  | inr q ↦ omega (arith, waiters_of-pos n i c k f (ground arith) e)
]
