-- ===== src/Pool/Allocate.antt =====
-- `allocate` where the pool of the calling thread has a free page.
use native.Mathlib.Nat.{mod-lt}
use mathlib.Core.Path.{subst}
use user_level_mmap.Base.{
  ℕ, suc, ◌%◌, ◌^◌, ◌<◌, ◌≡◌, ◌≢◌, refl, fun_ext, false, some, List, ◌∷◌, inl, inr, arith, ◌==◌,
  Bool-cases, ne→==, update, length, All, Distinct,
}
use user_level_mmap.Pool.{null, MemoryPool, home, take_page, allocate_loop, allocate, deallocate}
use user_level_mmap.Pool.Invariant.{Chain, IsPool}

-- Pools with the same members are equal.
pool_ext :
    {s t : MemoryPool}
    → s.num_pools ≡ t.num_pools
    → s.page_size ≡ t.page_size
    → ((j : ℕ) → s.pages_per_pool j ≡ t.pages_per_pool j)
    → ((j : ℕ) → s.local_pools j ≡ t.local_pools j)
    → ((j : ℕ) → s.local_remain_pages j ≡ t.local_remain_pages j)
    → ((j : ℕ) → s.next j ≡ t.next j)
    → s ≡ t
pool_ext a b c d e f = λ k. record {
  num_pools = a k;
  page_size = b k;
  pages_per_pool = fun_ext c k;
  local_pools = fun_ext d k;
  local_remain_pages = fun_ext e k;
  next = fun_ext f k;
}

module _ {s : MemoryPool} {free : ℕ → List ℕ} (i p : ℕ) (rest : List ℕ) (inv : IsPool s free)
    (lt_i : i < s.num_pools) (first : free i ≡ p ∷ rest) (fits : length (free i) < 2 ^ 64) where
  open inv use {some_pool, chains, counts, homes, distinct}

  head-Chain : Chain s.next (s.local_pools i) (p ∷ rest)
  head-Chain = rw first at (chains i lt_i)

  head-eq : s.local_pools i ≡ p
  head-eq = head-Chain.0

  page-ne-null : p ≢ null
  page-ne-null = head-Chain.1

  head_test : (s.local_pools i == null) ≡ false
  head_test = rw head-eq (ne→== p null page-ne-null)

  own_homes : All (λ q. home s q ≡ i) (p ∷ rest)
  own_homes = rw first at (homes i lt_i)

  count-eq : s.local_remain_pages i ≡ suc (length rest)
  count-eq = rw first at (counts i lt_i)

  count-lt : suc (length rest) < 2 ^ 64
  count-lt = rw first at fits

  pub take_page-IsPool : IsPool (take_page s i) (update free i rest)
  unfolding take_page
  take_page-IsPool = rw head_test (record {
    some_pool = some_pool;
    chains = λ j lt. elim (Bool-cases (i == j)) [
      | inl here ↦ rw (here, head-eq) head-Chain.2
      | inr there ↦ rw there (chains j lt)
    ];
    counts = λ j lt. elim (Bool-cases (i == j)) [
      | inl here ↦ rw here (omega (arith, count-eq, count-lt))
      | inr there ↦ rw there (counts j lt)
    ];
    homes = λ j lt. elim (Bool-cases (i == j)) [
      | inl here ↦
          let e : i ≡ j = ground arith in
          rw here (subst (λ k. All (λ q. home s q ≡ k) rest) e own_homes.1)
      | inr there ↦ rw there (homes j lt)
    ];
    distinct = λ j lt. elim (Bool-cases (i == j)) [
      | inl here ↦ let d : Distinct (p ∷ rest) = rw first at (distinct i lt_i) in rw here d.1
      | inr there ↦ rw there (distinct j lt)
    ];
  })

  pub allocate_loop-eq : (fuel : ℕ) → allocate_loop (suc fuel) s i ≡ some (p, take_page s i)
  unfolding allocate_loop
  allocate_loop-eq fuel = rw (head_test, head-eq)

  deallocate-take_page : deallocate (take_page s i) p ≡ s
  unfolding deallocate take_page
  deallocate-take_page =
      rw (ne→== p null page-ne-null, own_homes.0, head_test)
        (pool_ext refl refl (λ j. refl) (λ j. ground (arith, head-eq))
          (λ j. ground (arith, count-eq, count-lt)) (λ j. ground (arith, head-eq)))

-- When the pool that the calling thread hashes to has a free page, `allocate` returns the first
-- one after one round, and the pool stays well formed: that page is free no longer, and all other
-- free pages stay where they are. Giving the page back at once leaves every head, every count and
-- every `next` field as it was before.
pub allocate-IsPool :
    {s : MemoryPool} {free : ℕ → List ℕ} (fuel thread_hash p : ℕ) (rest : List ℕ)
    → IsPool s free
    → free (thread_hash % s.num_pools) ≡ p ∷ rest
    → length (free (thread_hash % s.num_pools)) < 2 ^ 64
    → (s' : MemoryPool) × (allocate (suc fuel) s thread_hash ≡ some (p, s'))
      × IsPool s' (update free (thread_hash % s.num_pools) rest)
      × (deallocate s' p ≡ s)
unfolding allocate
allocate-IsPool {s} fuel thread_hash p rest inv first fits =
    let i = thread_hash % s.num_pools in
    let lt : i < s.num_pools = mod-lt _ inv.some_pool in
    (
      take_page s i,
      allocate_loop-eq i p rest inv lt first fits fuel,
      take_page-IsPool i p rest inv lt first fits,
      deallocate-take_page i p rest inv lt first fits,
    )
