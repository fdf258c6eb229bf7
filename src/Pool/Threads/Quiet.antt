-- ===== src/Pool/Threads/Quiet.antt =====
-- The steps that move no page and change no link, and what all steps share.
use user_level_mmap.Base.{
  ℕ, ◌<◌, ◌≡◌, ◌≢◌, refl, ◌∙◌, true, false, List, [], ◌∷◌, inl, inr, arith, ◌==◌, Bool-cases,
  update, has, Distinct,
}
use user_level_mmap.Pool.{null, MemoryPool}
use user_level_mmap.Pool.Threads.{Pc, pop, push, without}
use user_level_mmap.Pool.Threads.Invariant.{Place, with_thread, owned, IsFresh, Inv}

-- Either a number is in the list less `a`, or it is `a` or was not there.
pub has-without :
    (a p : ℕ) (xs : List ℕ)
    → Distinct xs
    → has p (without a xs) ≡ true
    → (has p xs ≡ true) × (p ≢ a)
has-without a p [] d h = absurd cc
has-without a p (x ∷ xs) (out, d) h = ground (arith, has-without a p xs d)

pub has-without_ne : (x a : ℕ) (xs : List ℕ) → has x xs ≡ false → has x (without a xs) ≡ false
has-without_ne x a [] h = refl
has-without_ne x a (y ∷ ys) h = ground (arith, has-without_ne x a ys)

pub Distinct-without : (a : ℕ) (xs : List ℕ) → Distinct xs → Distinct (without a xs)
Distinct-without a [] d = tt
Distinct-without a (x ∷ xs) (out, d) =
    ground (arith, has-without_ne x a xs out, Distinct-without a xs d)

-- What a thread says after its own step and the others as before.
pub thread_at-update :
    (pc : ℕ → Pc) (place : ℕ → Place) (t : ℕ) (p : Pc)
    → ((u : ℕ) → t ≢ u → owned (pc u) ≢ null → place (owned (pc u)) ≡ with_thread u)
    → (owned p ≢ null → place (owned p) ≡ with_thread t)
    → (u : ℕ) → owned (update pc t p u) ≢ null
    → place (owned (update pc t p u)) ≡ with_thread u
thread_at-update pc place t p others own u real = elim (Bool-cases (t == u)) [
  | inl here ↦ let e : t ≡ u = ground arith in ground (arith, own)
  | inr there ↦ let ne : t ≢ u = ground arith in ground (arith, others u ne)
]

pub IsFresh-update :
    (n : ℕ) (next : ℕ → ℕ) (free : ℕ → List ℕ) (pc : ℕ → Pc) (t : ℕ) (p : Pc)
    → ((u : ℕ) → t ≢ u → IsFresh n next free (pc u))
    → IsFresh n next free p
    → (u : ℕ) → IsFresh n next free (update pc t p u)
IsFresh-update n next free pc t p others own u = elim (Bool-cases (t == u)) [
  | inl here ↦ rw here own
  | inr there ↦ let ne : t ≢ u = ground arith in rw there (others u ne)
]

-- The locals of a thread stay true if the link of the page that it is about to take, or that it has
-- just stored to, does, and that page does not come back to the list.
pub IsFresh-other :
    (n : ℕ) (next next' : ℕ → ℕ) (free free' : ℕ → List ℕ) (p : Pc)
    → ((i q a : ℕ)
        → p ≡ pop i q a
        → i < n
        → has q (free' i) ≡ true
        → (has q (free i) ≡ true) × (next' q ≡ next q))
    → ((q e : ℕ) → p ≡ push q e → next' q ≡ next q)
    → IsFresh n next free p
    → IsFresh n next' free' p
IsFresh-other n next next' free free' (pop i q a) pops pushes (lt, real, link) =
    (lt, real, λ h. let k = pops i q a refl lt h in k.1 ∙ link k.0)
IsFresh-other n next next' free free' (push q e) pops pushes (real, link) =
    (real, pushes q e refl ∙ link)
IsFresh-other n next next' free free' p pops pushes f = f

module _ {s : MemoryPool} {held : List ℕ} {pc : ℕ → Pc} {free : ℕ → List ℕ} {place : ℕ → Place}
    (inv : Inv s held pc free place) (t : ℕ) where
  -- A step that changes at most the counts, and owns what it owned before.
  pub quiet-Inv :
      (p : Pc) (counts : ℕ → ℕ)
      → owned p ≡ owned (pc t)
      → IsFresh s.num_pools s.next free p
      → Inv (record s { local_remain_pages = counts }) held (update pc t p) free place
  quiet-Inv p counts same own = record {
    some_pool = inv.some_pool;
    chains = inv.chains;
    homes = inv.homes;
    distinct = inv.distinct;
    distinct_held = inv.distinct_held;
    null_held = inv.null_held;
    freed_at = inv.freed_at;
    kept_at = inv.kept_at;
    thread_at = thread_at-update pc place t p (λ u ne. inv.thread_at u) (rw same (inv.thread_at t));
    fresh = IsFresh-update s.num_pools s.next free pc t p (λ u ne. inv.fresh u) own;
  }
