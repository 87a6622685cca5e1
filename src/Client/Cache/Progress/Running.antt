-- ===== src/Client/Cache/Progress/Running.antt =====
-- What holds in every state that the callers and the requests can reach.
use orionis.Base.{
  ℕ, ◌<◌, ◌≡◌, ◌⊎◌, inl, inr, refl, sym, ap, subst, ◌∙◌, Option, none, some, arith, Bool-cases,
  ◌==◌,
}
use mathlib.Core.Path.{fun_ext}
use orionis.Base.Int.{ℤ}
use orionis.Client.Requests.{Outcome, got, failed}
use orionis.Client.Tokens.{CachedToken, TokenCacheKey}
use orionis.Client.Cache.{
  TokenCache, Joined, hit, waiting_for, purge_stale, cached, join_or_start, finish_call,
  release_waiter,
}
use orionis.Client.Cache.Flight.{
  System, look_up, found, joined, enter, Context, nil, ended, live, answer, acted, Step, look, join,
  receive, leave, finish, Reach, here, next,
}
use orionis.Client.Cache.Flight.Counting.{
  Caller, idle, missed, waiting, served, refused, Refusal, nil_context, context_done, set_caller,
  waits, waiters_of, waiters_of-quiet, waiters_of-IsMore, waiters_of-less,
}
use orionis.Client.Cache.Sharing.{IsFetched, IsShared, purge-IsShared}
use orionis.Client.Cache.Sharing.Operations.{Extends, Extends-IsFetched, join_hit, join_wait}
use orionis.Client.Cache.Sharing.Endings.{
  finish-IsShared, finish-Extends, left_done, release-IsShared, release-Extends,
}

pub record IsRun (n : ℕ) (s : System) : Type 0 where
  pub shared : IsShared s.provider (waiters_of n s.callers)
  pub known :
      (i : ℕ) (k : TokenCacheKey) (c : ℕ)
      → i < n
      → s.callers i ≡ waiting k c
      → ((s.provider.calls c).key ≡ k) × (c < s.provider.next_call)
  pub fetched :
      (i : ℕ) (k : TokenCacheKey) (t : CachedToken)
      → i < n
      → s.callers i ≡ served k t
      → IsFetched s.provider k t

-- The parts of a step of a caller.
record IsMove (n : ℕ) (s : System) (i : ℕ) (q : TokenCache) (x : Caller) : Type 0 where
  shared : IsShared q (waiters_of n (set_caller i x s.callers))
  extends : Extends s.provider q
  known : (k : TokenCacheKey) (c : ℕ) → x ≡ waiting k c → ((q.calls c).key ≡ k) × (c < q.next_call)
  fetched : (k : TokenCacheKey) (t : CachedToken) → x ≡ served k t → IsFetched q k t

caller_cases :
    (i j : ℕ) (x : Caller) (f : ℕ → Caller) → (set_caller i x f j ≡ x) ⊎ (set_caller i x f j ≡ f j)
caller_cases i j x f = elim (Bool-cases (i == j)) [
  | inl e ↦ inl (rw e refl)
  | inr e ↦ inr (rw e refl)
]

-- The callers that stand still keep what they know.
known_keep :
    (n : ℕ) (s : System) (q : TokenCache) (i : ℕ) (k : TokenCacheKey) (c : ℕ)
    → IsRun n s
    → Extends s.provider q
    → i < n
    → s.callers i ≡ waiting k c
    → ((q.calls c).key ≡ k) × (c < q.next_call)
known_keep n s q i k c r x h e =
    let (key, known) = r.known i k c h e in let (same, still, o) = x c known in (same ∙ key, still)

moved-IsRun :
    (n : ℕ) (s : System) (i : ℕ) (q : TokenCache) (x : Caller)
    → IsRun n s
    → IsMove n s i q x
    → IsRun n (acted s i (q, x))
moved-IsRun n s i q x r m = record {
  shared = m.shared;
  known = λ j k c h e. elim (caller_cases i j x s.callers) [
    | inl y ↦ m.known k c (sym y ∙ e)
    | inr y ↦ known_keep n s q j k c r m.extends h (sym y ∙ e)
  ];
  fetched = λ j k t h e. elim (caller_cases i j x s.callers) [
    | inl y ↦ m.fetched k t (sym y ∙ e)
    | inr y ↦ Extends-IsFetched s.provider q k t m.extends (r.fetched j k t h (sym y ∙ e))
  ];
}

same-Extends : (p : TokenCache) → Extends p p
same-Extends p c h = (refl, h, λ o e. e)

purged-Extends : (p : TokenCache) (now : ℤ) → Extends p (purge_stale p now)
unfolding purge_stale
purged-Extends p now c h = (refl, h, λ o e. e)

module _ (n : ℕ) (s : System) (i : ℕ) (h : i < n) (r : IsRun n s) where
  -- A caller that neither waited nor waits.
  quiet-IsMove :
      (q : TokenCache) (x : Caller)
      → IsShared q (waiters_of n s.callers)
      → Extends s.provider q
      → ((d : ℕ) → waits (s.callers i) d ≡ 0)
      → ((d : ℕ) → waits x d ≡ 0)
      → ((k : TokenCacheKey) (t : CachedToken) → x ≡ served k t → IsFetched q k t)
      → IsMove n s i q x
  quiet-IsMove q x shared extends a b f = record {
    shared =
        subst (IsShared q) (fun_ext (λ c. sym (waiters_of-quiet n i c x s.callers h a b))) shared;
    extends = extends;
    known = λ k c e. absurd (ground (arith, ap (λ y. waits y c) e, b c));
    fetched = f;
  }

  found_quiet : (k : TokenCacheKey) (o : Option CachedToken) (d : ℕ) → waits (found k o) d ≡ 0
  unfolding found
  found_quiet k none d = refl
  found_quiet k (some t) d = refl

  found-served :
      (k j : TokenCacheKey) (o : Option CachedToken) (t : CachedToken)
      → found k o ≡ served j t
      → (k ≡ j) × (o ≡ some t)
  unfolding found
  found-served k j none t e = absurd (ground arith)
  found-served k j (some u) t e = ground arith

  idle_quiet : s.callers i ≡ idle → (d : ℕ) → waits (s.callers i) d ≡ 0
  idle_quiet e d = ap (λ y. waits y d) e

  missed_quiet : (k : TokenCacheKey) → s.callers i ≡ missed k → (d : ℕ) → waits (s.callers i) d ≡ 0
  missed_quiet k e d = ap (λ y. waits y d) e

  look-IsMove :
      (k : TokenCacheKey) (now : ℤ)
      → s.callers i ≡ idle
      → IsMove n s i (look_up s.provider k now).0 (look_up s.provider k now).1
  unfolding look_up cached
  look-IsMove k now e =
      let q = purge_stale s.provider now in
      let shared = purge-IsShared s.provider (waiters_of n s.callers) now r.shared in
      quiet-IsMove q (found k (q.cache k)) shared (purged-Extends s.provider now) (idle_quiet e)
        (found_quiet k (q.cache k))
        (λ j t x.
          let (same, y) = found-served k j (q.cache k) t x in
          subst (λ z. IsFetched q z t) same (shared.fetched k t y))

  refused-IsMove :
      (k : TokenCacheKey) (e : Refusal)
      → ((d : ℕ) → waits (s.callers i) d ≡ 0)
      → IsMove n s i s.provider (refused k e)
  refused-IsMove k e a =
      quiet-IsMove s.provider (refused k e) r.shared (same-Extends s.provider) a (λ d. refl)
        (λ j t x. absurd (ground arith))

  joined-IsMove :
      (k : TokenCacheKey) (now : ℤ) (j : Joined)
      → s.callers i ≡ missed k
      → (join_or_start s.provider k now).1 ≡ j
      → IsMove n s i (join_or_start s.provider k now).0 (joined k j)
  unfolding joined
  joined-IsMove k now (hit t) e f =
      let (x, y) = join_hit s.provider k now t f in
      let shared = purge-IsShared s.provider (waiters_of n s.callers) now r.shared in
      subst (λ q. IsMove n s i q (served k t)) (sym x)
        (quiet-IsMove (purge_stale s.provider now) (served k t) shared
          (purged-Extends s.provider now) (missed_quiet k e) (λ d. refl)
          (λ a b z.
            let same : (k ≡ a) × (t ≡ b) = ground arith in
            subst (λ u. IsFetched (purge_stale s.provider now) u b) same.0
              (subst (IsFetched (purge_stale s.provider now) k) same.1 (shared.fetched k t y))))
  joined-IsMove k now (waiting_for c) e f =
      let w =
        join_wait s.provider (waiters_of n s.callers)
          (waiters_of n (set_caller i (waiting k c) s.callers)) k now c r.shared f
          (waiters_of-IsMore n i c k s.callers h (missed_quiet k e)) in
      record {
        shared = w.shared;
        extends = w.extends;
        known = λ a b z.
            let same : (k ≡ a) × (c ≡ b) = ground arith in
            subst
              (λ u.
                (((join_or_start s.provider k now).0.calls b).key ≡ u)
                × (b < (join_or_start s.provider k now).0.next_call))
              same.0
              (subst
                (λ u.
                  (((join_or_start s.provider k now).0.calls u).key ≡ k)
                  × (u < (join_or_start s.provider k now).0.next_call))
                same.1 (w.key_is, w.known));
        fetched = λ a t z. absurd (ground arith);
      }

  enter-IsMove :
      (ctx : Context) (k : TokenCacheKey) (now : ℤ)
      → s.callers i ≡ missed k
      → IsMove n s i (enter s.provider ctx k now).0 (enter s.provider ctx k now).1
  unfolding enter
  enter-IsMove nil k now e = refused-IsMove k nil_context (missed_quiet k e)
  enter-IsMove ended k now e = refused-IsMove k context_done (missed_quiet k e)
  enter-IsMove live k now e = joined-IsMove k now (join_or_start s.provider k now).1 e refl

  -- A caller that waited is counted no more.
  leave-IsMove :
      (k : TokenCacheKey) (c : ℕ)
      → s.callers i ≡ waiting k c
      → IsMove n s i (release_waiter s.provider c) (refused k context_done)
  leave-IsMove k c e =
      let less = waiters_of-less n i c k (refused k context_done) s.callers h e (λ d. refl) in
      record {
        shared =
            release-IsShared s.provider (waiters_of n s.callers)
              (waiters_of n (set_caller i (refused k context_done) s.callers)) c r.shared less;
        extends =
            release-Extends s.provider (waiters_of n s.callers)
              (waiters_of n (set_caller i (refused k context_done) s.callers)) c r.shared less;
        known = λ a b z. absurd (ground arith);
        fetched = λ a t z. absurd (ground arith);
      }

  answer_quiet : (k : TokenCacheKey) (o : Outcome) (d : ℕ) → waits (answer k o) d ≡ 0
  unfolding answer
  answer_quiet k (got t) d = refl
  answer_quiet k (failed e) d = refl

  answer-served :
      (k j : TokenCacheKey) (o : Outcome) (t : CachedToken)
      → answer k o ≡ served j t
      → (k ≡ j) × (o ≡ got t)
  unfolding answer
  answer-served k j (got u) t e = ground arith
  answer-served k j (failed x) t e = absurd (ground arith)

  receive-IsMove :
      (k : TokenCacheKey) (c : ℕ) (o : Outcome)
      → s.callers i ≡ waiting k c
      → (s.provider.calls c).outcome ≡ some o
      → IsMove n s i s.provider (answer k o)
  receive-IsMove k c o e f =
      let less = waiters_of-less n i c k (answer k o) s.callers h e (answer_quiet k o) in
      let (key, known) = r.known i k c h e in
      record {
        shared =
            left_done s.provider (waiters_of n s.callers)
              (waiters_of n (set_caller i (answer k o) s.callers)) c r.shared less
              (λ z. ground arith);
        extends = same-Extends s.provider;
        known = λ a b z. absurd (ground (arith, ap (λ y. waits y b) z, answer_quiet k o b));
        fetched = λ a t z.
            let (same, g) = answer-served k a o t z in
            record { call = c; known = known; key_is = key ∙ same; outcome_is = f ∙ ap some g };
      }

-- The request of a call ends.
finished-IsRun :
    (n : ℕ) (s : System) (c : ℕ) (o : Outcome)
    → IsRun n s
    → c < s.provider.next_call
    → (s.provider.calls c).outcome ≡ none
    → IsRun n (record s { provider = finish_call s.provider c o })
finished-IsRun n s c o r h e =
    let w = waiters_of n s.callers in
    let x = finish-Extends s.provider w c o r.shared h e in
    record {
      shared = finish-IsShared s.provider w c o r.shared h e;
      known = λ i k d m z. known_keep n s (finish_call s.provider c o) i k d r x m z;
      fetched = λ i k t m z.
          Extends-IsFetched s.provider (finish_call s.provider c o) k t x (r.fetched i k t m z);
    }

pub step-IsRun : (n : ℕ) (s u : System) → IsRun n s → Step n s u → IsRun n u
step-IsRun n s u r (look i k now h e f) =
    subst (IsRun n) (sym f) (moved-IsRun n s i _ _ r (look-IsMove n s i h r k now e))
step-IsRun n s u r (join i k ctx now h e f) =
    subst (IsRun n) (sym f) (moved-IsRun n s i _ _ r (enter-IsMove n s i h r ctx k now e))
step-IsRun n s u r (receive i k c o h e d f) =
    subst (IsRun n) (sym f) (moved-IsRun n s i _ _ r (receive-IsMove n s i h r k c o e d))
step-IsRun n s u r (leave i k c h e f) =
    subst (IsRun n) (sym f) (moved-IsRun n s i _ _ r (leave-IsMove n s i h r k c e))
step-IsRun n s u r (finish c o h e f) = subst (IsRun n) (sym f) (finished-IsRun n s c o r h e)

pub reach-IsRun : (n : ℕ) (s u : System) → IsRun n s → Reach n s u → IsRun n u
reach-IsRun n s u r here = r
reach-IsRun n s u r (next {t} p q) = step-IsRun n t u (reach-IsRun n s t r p) q
