-- ===== src/Pool.antt =====
-- class MemoryPool of src/phy_page_pool.h: its state and its operations, each run without
-- interference from other threads. Addresses are numbers and `null` is 0; the vectors of the
-- class and the `next` fields of the pages are functions, written at one place at a time.
pub mod Invariant
pub mod Richest
pub mod Deallocate
pub mod Allocate
pub mod Exhausted
pub mod Construct
pub mod BadAlloc
pub mod Destroy
pub mod Threads
pub mod Benchmark
mod Tests
use user_level_mmap.Base.{
  ℕ, zero, suc, ◌+◌, ◌-◌, ◌*◌, ◌/◌, ◌%◌, ◌^◌, Bool, true, false, ◌&&◌, ◌||◌, Option, none, some,
  List, [], ◌∷◌, ltb, ◌==◌, if◌then◌else◌, update,
}

abbrev pub null : ℕ
null = 0

-- `x++` and `x--` of a size_t.
abbrev pub incr : ℕ → ℕ
incr x = (x + 1) % 2 ^ 64

abbrev pub decr : ℕ → ℕ
decr x = (x + 2 ^ 64 - 1) % 2 ^ 64

-- The members of the class; `next` is the field `next` of the page at an address.
pub record MemoryPool : Type 0 where
  pub num_pools : ℕ
  pub page_size : ℕ
  pub pages_per_pool : ℕ → ℕ
  pub local_pools : ℕ → ℕ
  pub local_remain_pages : ℕ → ℕ
  pub next : ℕ → ℕ

-- The pool that an address belongs to.
abbrev pub home : MemoryPool → ℕ → ℕ
home s ptr = ptr / s.page_size % s.num_pools

-- The loop of `get_rough_richest_pool` at index `i`, with `left` rounds to go.
pub richest_loop : (left i : ℕ) → (ℕ → ℕ) → (richest max_remain : ℕ) → Bool → Option ℕ
richest_loop zero i remain richest max_remain has_page = if has_page then some richest else none
richest_loop (suc left) i remain richest max_remain has_page =
    let more = ltb max_remain (remain i) in
    richest_loop left (i + 1) remain (if more then i else richest)
      (if more then remain i else max_remain) (has_page || more)

-- `none` is the -1 of the code. An index fits the `int` that the code returns it in.
unfoldable pub get_rough_richest_pool : MemoryPool → Option ℕ
get_rough_richest_pool s = richest_loop s.num_pools 0 s.local_remain_pages 0 0 false

-- From `retry` to `end`: the compare-exchange takes the first page, if there is one, and the
-- count goes down in either case.
pub take_page : MemoryPool → ℕ → MemoryPool
take_page s i =
    let page = s.local_pools i in
    record s {
      local_pools = if page == null then s.local_pools else update s.local_pools i (s.next page);
      local_remain_pages = update s.local_remain_pages i (decr (s.local_remain_pages i));
    }

-- The loop of `allocate` over its `goto retry`; `none` means that the fuel ran out.
pub allocate_loop : ℕ → MemoryPool → ℕ → Option (ℕ × MemoryPool)
allocate_loop zero s i = none
allocate_loop (suc fuel) s i =
    let page = s.local_pools i in
    let s' = take_page s i in
    let rest : Option (ℕ × MemoryPool) = elim (get_rough_richest_pool s') [
      | none ↦ some (page, s')
      | some j ↦ allocate_loop fuel s' j
    ] in
    if page == null then rest else some (page, s')

-- `thread_hash` is the hash of the calling thread's id.
pub allocate : ℕ → MemoryPool → ℕ → Option (ℕ × MemoryPool)
allocate fuel s thread_hash = allocate_loop fuel s (thread_hash % s.num_pools)

unfoldable pub deallocate : MemoryPool → ℕ → MemoryPool
deallocate s ptr =
    let idx = home s ptr in
    if ptr == null then s else record s {
      next = update s.next ptr (s.local_pools idx);
      local_pools = update s.local_pools idx ptr;
      local_remain_pages = update s.local_remain_pages idx (incr (s.local_remain_pages idx));
    }

-- How the constructor ends.
pub data Built : Type 0 where
  built : MemoryPool → Built
  null_store assert_failed bad_alloc : Built

-- One round of the constructor's loop. The store to `page->next` stands before the test of
-- `page` against `nullptr`.
pub add_page : MemoryPool → ℕ → Built
add_page s page =
    let idx = home s page in
    let cleared = update s.next page null in
    let good = record s {
      pages_per_pool = update s.pages_per_pool idx (incr (s.pages_per_pool idx));
      next = update cleared page (s.local_pools idx);
      local_pools = update s.local_pools idx page;
      local_remain_pages = update s.local_remain_pages idx (incr (s.local_remain_pages idx));
    } in
    if page == null
    then null_store
    else if page % s.page_size == 0
    then (if page == null then bad_alloc else built good)
    else assert_failed

-- `aligned_alloc pid` is what the allocation of round `pid` returns.
pub fill_loop : (left pid : ℕ) → (ℕ → ℕ) → MemoryPool → Built
fill_loop zero pid aligned_alloc s = built s
fill_loop (suc left) pid aligned_alloc s = elim (add_page s (aligned_alloc pid)) [
  | built s' ↦ fill_loop left (pid + 1) aligned_alloc s'
  | null_store ↦ null_store
  | assert_failed ↦ assert_failed
  | bad_alloc ↦ bad_alloc
]

-- The loop of asserts at the end of the constructor and at the start of the destructor.
pub counts_agree : (left i : ℕ) → MemoryPool → Bool
counts_agree zero i s = true
counts_agree (suc left) i s =
    (s.local_remain_pages i == s.pages_per_pool i) && counts_agree left (i + 1) s

-- The members after the `resize` calls and the loop that allocates the heads and the counts.
abbrev pub empty_pool : ℕ → ℕ → MemoryPool
empty_pool num_pools page_size = record {
  num_pools = num_pools;
  page_size = page_size;
  pages_per_pool = λ _. 0;
  local_pools = λ _. null;
  local_remain_pages = λ _. 0;
  next = λ _. null;
}

pub construct : ℕ → ℕ → ℕ → (ℕ → ℕ) → Built
construct num_pools pages_per_pool page_size aligned_alloc =
    elim (fill_loop (num_pools * pages_per_pool % 2 ^ 64) 0 aligned_alloc
      (empty_pool num_pools page_size)) [
        | built s ↦ if counts_agree s.num_pools 0 s then built s else assert_failed
        | null_store ↦ null_store
        | assert_failed ↦ assert_failed
        | bad_alloc ↦ bad_alloc
      ]

-- How the destructor ends; `freed` are the pages given to `free`, the last one first.
pub data Destroyed : Type 0 where
  destroyed : (freed : List ℕ) → Destroyed
  count_wrong out_of_fuel : Destroyed

-- The `while` over the pages of one pool.
pub free_pages : ℕ → (ℕ → ℕ) → ℕ → ℕ → List ℕ → Option (ℕ × List ℕ)
free_pages zero next page free_cnt freed = none
free_pages (suc fuel) next page free_cnt freed = elim (page == null) [
  | true ↦ some (free_cnt, freed)
  | false ↦ free_pages fuel next (next page) (incr free_cnt) (page ∷ freed)
]

-- The `for` over the pools, with the assert on `free_cnt`.
pub free_pools : (left i : ℕ) → ℕ → MemoryPool → List ℕ → Destroyed
free_pools zero i fuel s freed = destroyed freed
free_pools (suc left) i fuel s freed = elim (free_pages fuel s.next (s.local_pools i) 0 freed) [
  | none ↦ out_of_fuel
  | some (free_cnt, freed') ↦ elim (free_cnt == s.local_remain_pages i) [
    | true ↦ free_pools left (i + 1) fuel s freed'
    | false ↦ count_wrong
  ]
]

pub destroy : ℕ → MemoryPool → Destroyed
destroy fuel s =
    let rest = free_pools s.num_pools 0 fuel s [] in
    if counts_agree s.num_pools 0 s then rest else count_wrong
