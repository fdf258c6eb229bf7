-- ===== src/Pool/BadAlloc.antt =====
-- What the constructor of the pool does not do when an allocation fails.
use user_level_mmap.Base.{ℕ, zero, suc, ◌+◌, ◌*◌, ◌%◌, ◌^◌, ◌≡◌, ◌≢◌, refl, arith}
use user_level_mmap.Pool.{
  MemoryPool, Built, built, null_store, assert_failed, bad_alloc, add_page, fill_loop, empty_pool,
  construct,
}

add_page-ne-bad_alloc : (s : MemoryPool) (page : ℕ) → add_page s page ≢ bad_alloc
unfolding add_page
add_page-ne-bad_alloc s page = ground arith

fill_loop-ne-bad_alloc :
    (left pid : ℕ) (pages : ℕ → ℕ) (s : MemoryPool) → fill_loop left pid pages s ≢ bad_alloc
unfolding fill_loop
fill_loop-ne-bad_alloc zero pid pages s = λ e. cc
fill_loop-ne-bad_alloc (suc left) pid pages s =
    after (add_page s (pages pid)) refl (fill_loop-ne-bad_alloc left (pid + 1) pages)
  where
    after :
        (b : Built)
        → add_page s (pages pid) ≡ b
        → ((s' : MemoryPool) → fill_loop left (pid + 1) pages s' ≢ bad_alloc)
        → fill_loop (suc left) pid pages s ≢ bad_alloc
    after (built s') e ih = rw (e, fill_loop) (ih s')
    after null_store e ih = rw (e, fill_loop) (λ q. cc)
    after assert_failed e ih = rw (e, fill_loop) (λ q. cc)
    after bad_alloc e ih = absurd (add_page-ne-bad_alloc s (pages pid) e)

-- The constructor never throws `std::bad_alloc`, whatever the allocations return: a failed one
-- is written to before it is tested.
pub construct-ne-bad_alloc :
    (num_pools pages_per_pool page_size : ℕ) (pages : ℕ → ℕ)
    → construct num_pools pages_per_pool page_size pages ≢ bad_alloc
unfolding construct
construct-ne-bad_alloc num_pools pages_per_pool page_size pages = ground (
  arith,
  fill_loop-ne-bad_alloc (num_pools * pages_per_pool % 2 ^ 64) 0 pages
      (empty_pool num_pools page_size),
)
