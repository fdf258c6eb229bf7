-- ===== src/Pool/Threads.antt =====
-- `allocate` and `deallocate` of src/phy_page_pool.h run by any number of threads: one access to
-- shared memory per step, in any order, all of them sequentially consistent as the code asks.
pub mod Invariant
pub mod Quiet
pub mod Moves
pub mod Located
pub mod Tally
pub mod Progress
pub mod Safety
pub mod Counts
pub mod Single
pub mod Aba
mod Tests
use user_level_mmap.Base.{
  ℕ, suc, ◌+◌, ◌%◌, ◌≤◌, ◌<◌, ◌≡◌, ◌≢◌, Bool, true, false, List, [], ◌∷◌, ◌==◌, if◌then◌else◌,
  update, has,
}
use user_level_mmap.Pool.{null, incr, decr, MemoryPool, home}

-- Where a thread stands, with the local variables that are live there.
pub data Pc : Type 0 where
  idle : Pc  -- in neither function
  load_head : (i : ℕ) → Pc  -- `allocate` at the load of the head
  load_next : (i page : ℕ) → Pc  -- at the load of `page->next`
  pop : (i page next : ℕ) → Pc  -- before the compare-exchange
  count_down : (i page : ℕ) → Pc  -- before the count goes down
  scan : (k richest max_remain : ℕ) (has_page : Bool) → Pc  -- `get_rough_richest_pool` at `k`
  raise : (k : ℕ) → Pc  -- at the second load of the count of pool `k`
  free_load : (ptr : ℕ) → Pc  -- `deallocate` at the load of the head
  free_store : (ptr expected : ℕ) → Pc  -- at the store to `page->next`
  push : (ptr expected : ℕ) → Pc  -- before the compare-exchange
  count_up : (i : ℕ) → Pc  -- before the count goes up

-- The list less the first occurrence of a number.
abbrev pub without : ℕ → List ℕ → List ℕ
without a [] = []
without a (x ∷ xs) = let rest = without a xs in if a == x then xs else x ∷ rest

abbrev pub set_head : MemoryPool → ℕ → ℕ → MemoryPool
set_head s i page = record s { local_pools = update s.local_pools i page }

abbrev pub set_next : MemoryPool → ℕ → ℕ → MemoryPool
set_next s page next = record s { next = update s.next page next }

abbrev pub set_count : MemoryPool → ℕ → ℕ → MemoryPool
set_count s i n = record s { local_remain_pages = update s.local_remain_pages i n }

-- One step of one thread; `held` are the pages that the callers have. A weak compare-exchange may
-- fail whatever the head is. A caller gives back a page that the callers have, or `nullptr`, and
-- writes what it likes to the pages that it has, also to where `next` was.
pub data Move (s : MemoryPool) (held : List ℕ) : Pc → MemoryPool → List ℕ → Pc → Type 0 where
  allocate : (thread_hash : ℕ) → Move s held idle s held (load_head (thread_hash % s.num_pools))
  head_null :
      {i : ℕ} → s.local_pools i ≡ null → Move s held (load_head i) s held (count_down i null)
  head_page :
      {i page : ℕ}
      → s.local_pools i ≡ page
      → page ≢ null
      → Move s held (load_head i) s held (load_next i page)
  next_read : {i page : ℕ} → Move s held (load_next i page) s held (pop i page (s.next page))
  popped :
      {i page next : ℕ}
      → s.local_pools i ≡ page
      → Move s held (pop i page next) (set_head s i next) held (count_down i page)
  pop_failed : {i page next : ℕ} → Move s held (pop i page next) s held (load_head i)
  returned :
      {i page : ℕ}
      → page ≢ null
      → Move s held
          (count_down i page)
          (set_count s i (decr (s.local_remain_pages i)))
          (page ∷ held)
          idle
  search_pools :
      {i : ℕ}
      → Move s held
          (count_down i null)
          (set_count s i (decr (s.local_remain_pages i)))
          held
          (scan 0 0 0 false)
  scan_more :
      {k richest max_remain : ℕ} {has_page : Bool}
      → k < s.num_pools
      → max_remain < s.local_remain_pages k
      → Move s held (scan k richest max_remain has_page) s held (raise k)
  scan_less :
      {k richest max_remain : ℕ} {has_page : Bool}
      → k < s.num_pools
      → s.local_remain_pages k ≤ max_remain
      → Move s held
          (scan k richest max_remain has_page)
          s
          held
          (scan (k + 1) richest max_remain has_page)
  raised : {k : ℕ} → Move s held (raise k) s held (scan (k + 1) k (s.local_remain_pages k) true)
  retry :
      {k richest max_remain : ℕ}
      → s.num_pools ≤ k
      → Move s held (scan k richest max_remain true) s held (load_head richest)
  returned_null :
      {k richest max_remain : ℕ}
      → s.num_pools ≤ k
      → Move s held (scan k richest max_remain false) s held idle
  deallocate :
      {ptr : ℕ} → has ptr held ≡ true → Move s held idle s (without ptr held) (free_load ptr)
  used :
      (page value : ℕ) → has page held ≡ true → Move s held idle (set_next s page value) held idle
  deallocate_null : Move s held idle s held idle
  expected_read :
      {ptr : ℕ} → Move s held (free_load ptr) s held (free_store ptr (s.local_pools (home s ptr)))
  stored :
      {ptr expected : ℕ}
      → Move s held (free_store ptr expected) (set_next s ptr expected) held (push ptr expected)
  pushed :
      {ptr expected : ℕ}
      → s.local_pools (home s ptr) ≡ expected
      → Move s held (push ptr expected) (set_head s (home s ptr) ptr) held (count_up (home s ptr))
  push_failed : {ptr expected : ℕ} → Move s held (push ptr expected) s held (free_load ptr)
  counted_up :
      {i : ℕ} → Move s held (count_up i) (set_count s i (incr (s.local_remain_pages i))) held idle

pub record System : Type 0 where
  pub pool : MemoryPool
  pub held : List ℕ
  pub pc : ℕ → Pc

pub data Step (s : System) : System → Type 0 where
  pick :
      (t : ℕ) {pool : MemoryPool} {held : List ℕ} {p : Pc}
      → Move s.pool s.held (s.pc t) pool held p
      → Step s (record { pool = pool; held = held; pc = update s.pc t p })

-- A rule says which steps are allowed.
abbrev pub Rule : Type 1
Rule = (s t : System) → Step s t → Type 0

pub data Reach (rule : Rule) (init : System) : System → Type 0 where
  start : Reach rule init init
  later : {s t : System} → Reach rule init s → (st : Step s t) → rule s t st → Reach rule init t

abbrev pub Anything : Rule
Anything s t st = Unit

-- A page goes back only while no thread is about to take the same page by its old `next`.
abbrev pub IsUnhurried :
    {s s' : MemoryPool} {held held' : List ℕ} {p p' : Pc}
    → (ℕ → Pc)
    → Move s held p s' held' p'
    → Type 0
IsUnhurried pc (pushed {ptr} e) = (u i next : ℕ) → pc u ≢ pop i ptr next
IsUnhurried pc mv = Unit

abbrev pub NoPopper : Rule
NoPopper s s' (pick t mv) = IsUnhurried s.pc mv

-- Only thread `a` allocates; any thread may free.
abbrev pub IsBy :
    {s s' : MemoryPool} {held held' : List ℕ} {p p' : Pc}
    → (a t : ℕ) → Move s held p s' held' p'
    → Type 0
IsBy a t (allocate thread_hash) = t ≡ a
IsBy a t mv = Unit

abbrev pub OneAllocator : ℕ → Rule
OneAllocator a s s' (pick t mv) = IsBy a t mv

-- Before any of the threads has started.
abbrev pub at_rest : MemoryPool → List ℕ → System
at_rest s held = record { pool = s; held = held; pc = λ _. idle }
