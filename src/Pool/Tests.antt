-- ===== src/Pool/Tests.antt =====
-- Runs of the pool at a small size, and its theorems at inputs that meet their hypotheses.
use user_level_mmap.Base.{
  ℕ, ◌+◌, ◌*◌, ◌%◌, ◌/◌, ◌≡◌, refl, none, some, List, [], ◌∷◌, arith, ◌==◌, if◌then◌else◌, update,
  has, Distinct,
}
use user_level_mmap.Pool.{
  MemoryPool, get_rough_richest_pool, home, built, null_store, construct, allocate, deallocate,
  destroyed, destroy, count_wrong, take_page, fill_loop, add_page, counts_agree, free_pools,
  free_pages,
}
use user_level_mmap.Pool.Invariant.{IsPool}
use user_level_mmap.Pool.Deallocate.{freed_onto, deallocate-IsPool}
use user_level_mmap.Pool.Allocate.{allocate-IsPool}
use user_level_mmap.Pool.Exhausted.{allocate_spins}
use user_level_mmap.Pool.Richest.{IsRichest, get_rough_richest_pool-IsRichest}
use user_level_mmap.Pool.Construct.{IsAllocator, collected, construct-IsPool}
use user_level_mmap.Pool.Destroy.{destroy-frees}
use user_level_mmap.Pool.Benchmark.{taken, memory_pool_test}
use user_level_mmap.Pool.Benchmark.Give.{memory_pool_test-IsPool}

-- The pages of two pools with two pages each, at the addresses 1, 2, 3 and 4 of page size 1.
abbrev heads : ℕ → ℕ
heads i = if i == 0 then 4 else (if i == 1 then 3 else 0)

abbrev nexts : ℕ → ℕ
nexts p = if p == 4 then 2 else (if p == 3 then 1 else 0)

abbrev twos : ℕ → ℕ
twos i = if i == 0 then 2 else (if i == 1 then 2 else 0)

abbrev small : MemoryPool
small = record {
  num_pools = 2;
  page_size = 1;
  pages_per_pool = twos;
  local_pools = heads;
  local_remain_pages = twos;
  next = nexts;
}

abbrev free : ℕ → List ℕ
free i = if i == 0 then 4 ∷ 2 ∷ [] else (if i == 1 then 3 ∷ 1 ∷ [] else [])

small-IsPool : IsPool small free
small-IsPool = record {
  some_pool = omega arith;
  chains = λ i lt. ground arith;
  counts = λ i lt. ground arith;
  homes = λ i lt. ground arith;
  distinct = λ i lt. ground arith;
}

-- Pool 0 after both of its pages were taken.
abbrev drained : MemoryPool
drained = record small {
  local_pools = λ i. if i == 1 then 3 else 0;
  local_remain_pages = λ i. if i == 1 then 2 else 0;
}

abbrev free_1 : ℕ → List ℕ
free_1 i = if i == 1 then 3 ∷ 1 ∷ [] else []

drained-IsPool : IsPool drained free_1
drained-IsPool = record {
  some_pool = omega arith;
  chains = λ i lt. ground arith;
  counts = λ i lt. ground arith;
  homes = λ i lt. ground arith;
  distinct = λ i lt. ground arith;
}

deallocate-IsPool_example : IsPool (deallocate small 6) (freed_onto small free 6)
deallocate-IsPool_example =
    deallocate-IsPool 6 small-IsPool (omega arith) (ground arith) (omega arith)

allocate-IsPool_example :
    (s' : MemoryPool) × (allocate 1 small 7 ≡ some (3, s'))
    × IsPool s' (update free 1 (1 ∷ []))
    × (deallocate s' 3 ≡ small)
allocate-IsPool_example = allocate-IsPool 0 7 3 (1 ∷ []) small-IsPool refl (omega arith)

-- Pool 1 has two free pages, and a thread of pool 0 still gets none of them.
allocate_spins_example : allocate 1000000 drained 0 ≡ none
allocate_spins_example =
    allocate_spins 1000000 0 2 drained-IsPool refl (λ j lt. ground arith) (omega arith)

abbrev four_pages : ℕ → ℕ
four_pages pid = pid + 1

four_pages-IsAllocator : IsAllocator four_pages 1 (2 * 2)
four_pages-IsAllocator = record {
  nonnull = λ pid lt. omega arith;
  aligned = λ pid lt. omega arith;
  apart = λ a b below lt. omega arith;
}

construct-IsPool_example :
    (s : MemoryPool) × (construct 2 2 1 four_pages ≡ built s)
    × IsPool s (collected (λ p. p / 1 % 2) four_pages (2 * 2))
    × ((j : ℕ) → s.local_remain_pages j ≡ s.pages_per_pool j)
    × (s.num_pools ≡ 2)
construct-IsPool_example =
    construct-IsPool 2 2 1 four_pages (omega arith) (omega arith) four_pages-IsAllocator

destroy-frees_example :
    (freed : List ℕ) × (destroy 3 small ≡ destroyed freed)
    × Distinct freed
    × ((p : ℕ) → has p freed ≡ has p (free (home small p)))
destroy-frees_example =
    destroy-frees 3 small free small-IsPool (λ j. refl) (λ j lt. ground arith)
      (λ j lt. ground arith)

-- A failed allocation is stored to.
construct_null : construct 2 2 1 (λ pid. 0) ≡ null_store
unfolding construct fill_loop add_page
construct_null = refl

destroy-small : destroy 3 small ≡ destroyed (1 ∷ 3 ∷ 2 ∷ 4 ∷ [])
unfolding destroy counts_agree free_pools free_pages take_page
destroy-small = refl

-- The count of an empty pool wraps, and the destructor's assert on it fails.
destroy_after_spin : destroy 3 (take_page drained 0) ≡ count_wrong
unfolding destroy counts_agree free_pools free_pages take_page
destroy_after_spin = refl

get_rough_richest_pool-IsRichest_example :
    IsRichest 2 drained.local_remain_pages (get_rough_richest_pool drained)
get_rough_richest_pool-IsRichest_example = get_rough_richest_pool-IsRichest drained

memory_pool_test-IsPool_example :
    (s' : MemoryPool) × (memory_pool_test 2 1 6 small ≡ taken (4 ∷ 2 ∷ []) s')
    × IsPool s' (update free 0 (2 ∷ 4 ∷ []))
memory_pool_test-IsPool_example =
    memory_pool_test-IsPool 0 6 (4 ∷ 2 ∷ []) [] small-IsPool refl (omega arith)
