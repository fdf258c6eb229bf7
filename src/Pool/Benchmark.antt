-- ===== src/Pool/Benchmark.antt =====
-- `memory_pool_test` of src/mem_pool_benchmark.cc, one thread: pages are taken, written to, and given
-- back in the order in which they were taken.
pub mod Take
pub mod Give
use user_level_mmap.Base.{ℕ, zero, suc, none, some, List, [], ◌∷◌, ◌==◌, if◌then◌else◌, update}
use user_level_mmap.Pool.{null, MemoryPool, allocate, deallocate}

-- `memset(page, 42, PAGE_SIZE)`, which also goes over the field `next`.
pub memset : MemoryPool → (page : ℕ) → MemoryPool
memset s page = record s { next = update s.next page 0x2a2a2a2a2a2a2a2a }

-- How a loop ends; `endless` means that the fuel ran out.
pub data Taken : Type 0 where
  taken : (ptr : List ℕ) → MemoryPool → Taken
  assert_failed endless : Taken

pub and_page : (page : ℕ) → Taken → Taken
and_page page (taken ptr s) = taken (page ∷ ptr) s
and_page page assert_failed = assert_failed
and_page page endless = endless

-- The first loop, with `ops` rounds to go.
pub take_pages : (ops fuel thread_hash : ℕ) → MemoryPool → Taken
take_pages zero fuel thread_hash s = taken [] s
take_pages (suc ops) fuel thread_hash s = elim (allocate fuel s thread_hash) [
  | none ↦ endless
  | some (page, s') ↦
      let rest = take_pages ops fuel thread_hash (memset s' page) in
      if page == null then assert_failed else and_page page rest
]

-- The second loop.
pub give_pages : List ℕ → MemoryPool → MemoryPool
give_pages [] s = s
give_pages (page ∷ ptr) s = give_pages ptr (deallocate s page)

pub memory_pool_test : (ops fuel thread_hash : ℕ) → MemoryPool → Taken
memory_pool_test ops fuel thread_hash s = elim (take_pages ops fuel thread_hash s) [
  | taken ptr s' ↦ taken ptr (give_pages ptr s')
  | assert_failed ↦ assert_failed
  | endless ↦ endless
]
