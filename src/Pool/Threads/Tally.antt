-- ===== src/Pool/Threads/Tally.antt =====
-- What a step of a thread adds to a free list and takes from it, and what the threads still owe the
-- counts of the pools (local_remain_pages of src/phy_page_pool.h).
use user_level_mmap.Base.{
  ℕ, zero, suc, ◌+◌, ◌%◌, ◌^◌, ◌<◌, ◌≡◌, refl, false, List, inl, inr, arith, ◌==◌, if◌then◌else◌,
  Bool-cases, update, max, ne→==,
}
use user_level_mmap.Pool.{null, MemoryPool, home}
use user_level_mmap.Pool.Threads.{
  Pc, idle, count_down, count_up, Move, popped, pushed, search_pools, returned, System, pick, Rule,
  Reach, start, later,
}
use user_level_mmap.Pool.Threads.Invariant.{IsFresh}

-- One at index `i`, and zero elsewhere.
abbrev pub one_at : (i j : ℕ) → ℕ
one_at i j = if i == j then 1 else 0

-- Pages that the step takes out of free list `j`.
abbrev pub taken :
    {s s' : MemoryPool} {held held' : List ℕ} {p p' : Pc} → Move s held p s' held' p' → ℕ → ℕ
taken (popped {i} h) j = one_at i j
taken mv j = 0

-- Pages that the step puts into free list `j`.
abbrev pub given :
    {s s' : MemoryPool} {held held' : List ℕ} {p p' : Pc} → Move s held p s' held' p' → ℕ → ℕ
given {s} (pushed {ptr} same) j = one_at (home s ptr) j
given mv j = 0

-- Whether the step counts a page of pool `j` down that `allocate` did not get.
abbrev pub missed :
    {s s' : MemoryPool} {held held' : List ℕ} {p p' : Pc} → Move s held p s' held' p' → ℕ → ℕ
missed (search_pools {i}) j = one_at i j
missed mv j = 0

-- A page that the thread has taken from list `j` and not counted down yet.
abbrev pub down_at : ℕ → Pc → ℕ
down_at j (count_down i page) = if page == null then 0 else one_at i j
down_at j p = 0

-- A page that the thread has put into list `j` and not counted up yet.
abbrev pub up_at : ℕ → Pc → ℕ
up_at j (count_up i) = one_at i j
up_at j p = 0

-- The sum over the first `n` threads.
pub total : (Pc → ℕ) → (n : ℕ) → (ℕ → Pc) → ℕ
total f zero pc = 0
total f (suc n) pc = f (pc n) + total f n pc

total-update_out :
    (f : Pc → ℕ) (n : ℕ) (pc : ℕ → Pc) (t : ℕ) (p : Pc)
    → n < suc t
    → total f n (update pc t p) ≡ total f n pc
unfolding total
total-update_out f zero pc t p lt = refl
total-update_out f (suc n) pc t p lt =
    let other : (t == n) ≡ false = ground arith in
    rw (other, total-update_out f n pc t p (omega arith)) refl

pub total-update :
    (f : Pc → ℕ) (n : ℕ) (pc : ℕ → Pc) (t : ℕ) (p : Pc)
    → t < n
    → total f n (update pc t p) + f (pc t) ≡ total f n pc + f p
unfolding total
total-update f zero pc t p lt = absurd (omega arith)
total-update f (suc n) pc t p lt = elim (Bool-cases (t == n)) [
  | inl here ↦
      let e : t ≡ n = ground arith in
      rw (here, e) (omega (arith, total-update_out f n pc n p (omega arith)))
  | inr there ↦ rw there (omega (arith, total-update f n pc t p (ground arith)))
]

pub total-idle :
    (f : Pc → ℕ) (n : ℕ) (pc : ℕ → Pc) → f idle ≡ 0 → ((t : ℕ) → pc t ≡ idle) → total f n pc ≡ 0
unfolding total
total-idle f zero pc none still = refl
total-idle f (suc n) pc none still = rw (still n, none, total-idle f n pc none still) refl

-- What a step does to the count of a pool agrees with what it does to its list, but for what the
-- thread owes before and after.
pub Move-balance :
    {s s' : MemoryPool} {held held' : List ℕ} {p p' : Pc} (mv : Move s held p s' held' p')
    (free : ℕ → List ℕ) (j : ℕ)
    → IsFresh s.num_pools s.next free p
    → (s'.local_remain_pages j + missed mv j + up_at j p' + taken mv j + down_at j p) % 2 ^ 64
      ≡ (s.local_remain_pages j + up_at j p + given mv j + down_at j p') % 2 ^ 64
Move-balance (popped {i} {page} h) free j f = ground (arith, ne→== page null f.1)
Move-balance (returned {i} {page} real) free j f = ground (arith, ne→== page null real)
Move-balance mv free j f = ground arith

module _ {rule : Rule} {init : System} where
  -- How often `allocate` counted a page of pool `j` down that it did not get.
  abbrev pub misses : {u : System} → Reach rule init u → ℕ → ℕ
  misses start j = 0
  misses (later r (pick t mv) ok) j = misses r j + missed mv j

  -- A number above that of each thread that took a step.
  abbrev pub threads : {u : System} → Reach rule init u → ℕ
  threads start = 0
  threads (later r (pick t mv) ok) = max (threads r) (suc t)
