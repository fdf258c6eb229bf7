-- ===== src/Pool/Threads/Tests.antt =====
-- Two threads over one pool of three pages: one frees page 3 while the other allocates.
use user_level_mmap.Base.{
  ℕ, ◌≡◌, ◌≢◌, refl, true, List, [], ◌∷◌, arith, ◌==◌, if◌then◌else◌, has, ◌+◌, ◌%◌, ◌^◌, ◌<◌,
  length,
}
use user_level_mmap.Pool.{null, MemoryPool}
use user_level_mmap.Pool.Invariant.{IsPool}
use user_level_mmap.Pool.Threads.{
  idle, counted_up, pop, allocate, head_page, next_read, pop_failed, popped, returned, deallocate,
  used, expected_read, stored, pushed, System, pick, NoPopper, OneAllocator, Anything, Reach, start,
  later, at_rest,
}
use user_level_mmap.Pool.Threads.Safety.{IsExclusive, IsLossless, Reach-IsExclusive}
use user_level_mmap.Pool.Threads.Tally.{misses}
use user_level_mmap.Pool.Threads.Counts.{Reach-count}
use user_level_mmap.Pool.Threads.Single.{alone-IsExclusive}
use user_level_mmap.Pool.Threads.Aba.{Reach-two_owners}

abbrev pages : MemoryPool
pages = record {
  num_pools = 1;
  page_size = 1;
  pages_per_pool = λ i. 3;
  local_pools = λ i. if i == 0 then 2 else 0;
  local_remain_pages = λ i. if i == 0 then 2 else 0;
  next = λ p. if p == 2 then 1 else 0;
}

abbrev free : ℕ → List ℕ
free i = if i == 0 then 2 ∷ 1 ∷ [] else []

pages-IsPool : IsPool pages free
pages-IsPool = record {
  some_pool = omega arith;
  chains = λ i lt. ground arith;
  counts = λ i lt. ground arith;
  homes = λ i lt. ground arith;
  distinct = λ i lt. ground arith;
}

two_real : 2 ≢ null
two_real e = omega (arith, e)

three_real : 3 ≢ null
three_real e = omega (arith, e)

-- Thread 1 frees page 3 between the load of the head by thread 0 and its compare-exchange, which
-- fails; the second round of thread 0 takes page 3, which had been written to.
abbrev racing : (u : System) × Reach NoPopper (at_rest pages (3 ∷ [])) u
racing = (
  _,
  later
      (later
        (later
          (later
            (later (later (later start (pick 1 (used 3 42 refl)) tt) (pick 0 (allocate 5)) tt)
              (pick 0 (head_page {page = 2} refl two_real)) tt)
            (pick 1 (deallocate {ptr = 3} refl)) tt)
          (pick 1 expected_read) tt)
        (pick 0 next_read) tt)
      (pick 1 stored) tt,
)

unhurried : (u i next : ℕ) → racing.0.pc u ≢ pop i 3 next
unhurried u i next q = ground arith

abbrev raced : (u : System) × Reach NoPopper (at_rest pages (3 ∷ [])) u
raced = (
  _,
  later
      (later
        (later
          (later (later (later racing.1 (pick 1 (pushed refl)) unhurried) (pick 0 pop_failed) tt)
            (pick 0 (head_page {page = 3} refl three_real)) tt)
          (pick 0 next_read) tt)
        (pick 0 (popped refl)) tt)
      (pick 0 (returned three_real)) tt,
)

raced-held : raced.0.held ≡ 3 ∷ []
raced-held = refl

-- Thread 1 counts its page up, and both threads are done.
abbrev counted : (u : System) × Reach NoPopper (at_rest pages (3 ∷ [])) u
counted = (_, later raced.1 (pick 1 counted_up) tt)

counted-idle : (t : ℕ) → counted.0.pc t ≡ idle
counted-idle t = ground arith

-- The same steps, with thread 0 as the only one that allocates.
abbrev alone : (u : System) × Reach (OneAllocator 0) (at_rest pages (3 ∷ [])) u
alone = (
  _,
  later
      (later
        (later
          (later
            (later
              (later (later start (pick 0 (allocate 5)) refl)
                (pick 0 (head_page {page = 2} refl two_real)) tt)
              (pick 1 (deallocate {ptr = 3} refl)) tt)
            (pick 1 expected_read) tt)
          (pick 0 next_read) tt)
        (pick 1 stored) tt)
      (pick 1 (pushed refl)) tt,
)

alone-IsExclusive_example :
    (free' : ℕ → List ℕ) × IsExclusive alone.0 free'
    × IsLossless pages.num_pools free (3 ∷ []) alone.0 free'
alone-IsExclusive_example =
    alone-IsExclusive pages free (3 ∷ []) pages-IsPool (refl, tt) refl (λ i p lt h. ground arith) 0
      alone.1

Reach-IsExclusive_example :
    (free' : ℕ → List ℕ) × IsExclusive raced.0 free'
    × IsLossless pages.num_pools free (3 ∷ []) raced.0 free'
Reach-IsExclusive_example =
    Reach-IsExclusive pages free (3 ∷ []) pages-IsPool (refl, tt) refl (λ i p lt h. ground arith)
      raced.1

Reach-two_owners_example :
    (u : System) × Reach Anything (at_rest pages []) u
    × (has 1 u.held ≡ true)
    × (u.pool.local_pools 0 ≡ 1)
Reach-two_owners_example = Reach-two_owners 7 2 1 [] pages-IsPool refl

Reach-count_example :
    (free' : ℕ → List ℕ) × IsExclusive counted.0 free'
    × ((j : ℕ)
        → j < 1
        → (counted.0.pool.local_remain_pages j + misses counted.1 j) % 2 ^ 64
          ≡ length (free' j) % 2 ^ 64)
Reach-count_example =
    Reach-count pages free (3 ∷ []) pages-IsPool (refl, tt) refl (λ i p lt h. ground arith)
      counted.1 counted-idle
