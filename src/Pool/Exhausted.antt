-- ===== src/Pool/Exhausted.antt =====
-- `allocate` where the pool of the calling thread is empty.
use native.Mathlib.Nat.{mod-lt}
use user_level_mmap.Base.{
  ℕ, zero, suc, ◌+◌, ◌-◌, ◌%◌, ◌^◌, ◌≤◌, ◌<◌, ◌≡◌, ◌≢◌, refl, ap, Option, none, some, List, [],
  arith, ◌==◌, inl, inr, Bool-cases,
}
use user_level_mmap.Pool.{
  null, MemoryPool, get_rough_richest_pool, take_page, allocate_loop, allocate,
}
use user_level_mmap.Pool.Invariant.{IsPool}
use user_level_mmap.Pool.Richest.{IsRichest, get_rough_richest_pool-IsRichest}

-- The richest pool is the one that is richer than all others.
IsRichest-unique :
    (n : ℕ) (remain : ℕ → ℕ) (i : ℕ) (r : Option ℕ)
    → IsRichest n remain r
    → i < n
    → 0 < remain i
    → ((j : ℕ) → j < n → j ≢ i → remain j < remain i)
    → r ≡ some i
IsRichest-unique n remain i none all lt pos top = absurd (omega (arith, all i lt))
IsRichest-unique n remain i (some k) (lt_k, pos_k, most, first) lt pos top =
    elim (Bool-cases (k == i)) [
      | inl here ↦ ap some (ground arith)
      | inr there ↦ absurd (omega (arith, most i lt, top k lt_k (ground arith)))
    ]

-- Pool `i` is empty, and its count has gone below zero `k` times.
record IsSpent (s : MemoryPool) (i k bound : ℕ) : Type 0 where
  lt_i : i < s.num_pools
  head : s.local_pools i ≡ null
  count : s.local_remain_pages i ≡ (2 ^ 64 - k) % 2 ^ 64
  others : (j : ℕ) → j < s.num_pools → j ≢ i → s.local_remain_pages j ≤ bound

module _ (s : MemoryPool) (i k bound : ℕ) (spent : IsSpent s i k bound)
    (room : k + 1 + bound < 2 ^ 64) where
  open spent use {lt_i, head, count, others}

  take_page-IsSpent : IsSpent (take_page s i) i (k + 1) bound
  unfolding take_page
  take_page-IsSpent = record {
    lt_i = lt_i;
    head = rw head head;
    count = ground (arith, count);
    others = λ j lt ne. ground (arith, others j lt ne);
  }

  richest_self : get_rough_richest_pool (take_page s i) ≡ some i
  richest_self =
      IsRichest-unique _ _ i _ (get_rough_richest_pool-IsRichest (take_page s i)) lt
        (omega (arith, next.count)) (λ j l ne. omega (arith, next.count, next.others j l ne))
    where
      next : IsSpent (take_page s i) i (k + 1) bound
      next = take_page-IsSpent

      lt : i < (take_page s i).num_pools
      lt = next.lt_i

allocate_loop-IsSpent :
    (fuel : ℕ) (s : MemoryPool) (i k bound : ℕ)
    → IsSpent s i k bound
    → fuel + k + bound < 2 ^ 64
    → allocate_loop fuel s i ≡ none
unfolding allocate_loop
allocate_loop-IsSpent zero s i k bound spent room = refl
allocate_loop-IsSpent (suc fuel) s i k bound spent room =
    let small : k + 1 + bound < 2 ^ 64 = omega arith in
    rw (spent.head, richest_self s i k bound spent small)
      (allocate_loop-IsSpent fuel (take_page s i) i (k + 1) bound
        (take_page-IsSpent s i k bound spent small) (omega arith))

-- When the pool that the calling thread hashes to is empty and no count is above `bound`,
-- `allocate` is still in its loop after any number of rounds up to `2 ^ 64 - bound`, also where
-- other pools have free pages: the count of the empty pool has wrapped below zero, and each
-- `goto retry` picks that pool again.
pub allocate_spins :
    {s : MemoryPool} {free : ℕ → List ℕ} (rounds thread_hash bound : ℕ)
    → IsPool s free
    → free (thread_hash % s.num_pools) ≡ []
    → ((j : ℕ) → j < s.num_pools → s.local_remain_pages j ≤ bound)
    → rounds + bound < 2 ^ 64
    → allocate rounds s thread_hash ≡ none
unfolding allocate
allocate_spins {s} rounds thread_hash bound inv empty bounded room =
    let i = thread_hash % s.num_pools in
    let lt : i < s.num_pools = mod-lt _ inv.some_pool in
    let zeroed : s.local_remain_pages i ≡ 0 = rw empty at (inv.counts i lt) in
    allocate_loop-IsSpent rounds s i 0 bound
      (record {
        lt_i = lt;
        head = rw empty at (inv.chains i lt);
        count = zeroed;
        others = λ j l ne. bounded j l;
      })
      (omega arith)
