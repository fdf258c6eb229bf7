-- ===== src/Pool/Construct.antt =====
-- The constructor of the pool.
use native.Mathlib.Nat.{mod-lt, mod-eq_of_lt}
use mathlib.Core.Path.{subst}
use user_level_mmap.Base.{
  ℕ, zero, suc, ◌+◌, ◌*◌, ◌%◌, ◌^◌, ◌≤◌, ◌<◌, ◌≡◌, ◌≢◌, refl, fun_ext, true, false, List, [], ◌∷◌,
  arith, ◌==◌, if◌then◌else◌, eq→==, ne→==, update, length, has,
}
use user_level_mmap.Pool.{
  null, incr, MemoryPool, home, deallocate, built, add_page, fill_loop, counts_agree, empty_pool,
  construct,
}
use user_level_mmap.Pool.Invariant.{IsPool}
use user_level_mmap.Pool.Deallocate.{freed_onto, deallocate-IsPool}

-- What the constructor relies on: the allocations of the rounds below `n` succeed, are aligned
-- to the page size and lie at different addresses.
pub record IsAllocator (aligned_alloc : ℕ → ℕ) (page_size n : ℕ) : Type 0 where
  pub nonnull : (pid : ℕ) → pid < n → aligned_alloc pid ≢ null
  pub aligned : (pid : ℕ) → pid < n → aligned_alloc pid % page_size ≡ 0
  pub apart : (a b : ℕ) → a < b → b < n → aligned_alloc b ≢ aligned_alloc a

-- Of the first `k` pages those that `h` sends to pool `j`, the last one first.
abbrev pub collected : (ℕ → ℕ) → (ℕ → ℕ) → ℕ → ℕ → List ℕ
collected h pages zero j = []
collected h pages (suc k) j =
    if h (pages k) == j then pages k ∷ collected h pages k j else collected h pages k j

length-collected : (h pages : ℕ → ℕ) (k j : ℕ) → length (collected h pages k j) ≤ k
length-collected h pages zero j = omega arith
length-collected h pages (suc k) j = ground (arith, length-collected h pages k j)

has-collected :
    (h pages : ℕ → ℕ) (p k j : ℕ)
    → ((m : ℕ) → m < k → p ≢ pages m)
    → has p (collected h pages k j) ≡ false
has-collected h pages p zero j new = refl
has-collected h pages p (suc k) j new =
    ground (arith, new k (omega arith), has-collected h pages p k j (λ m lt. new m (omega arith)))

-- The pool after a round that adds `page`.
abbrev added : MemoryPool → ℕ → MemoryPool
added s page = record s {
  pages_per_pool = update s.pages_per_pool (home s page) (incr (s.pages_per_pool (home s page)));
  next = update (update s.next page null) page (s.local_pools (home s page));
  local_pools = update s.local_pools (home s page) page;
  local_remain_pages =
      update s.local_remain_pages (home s page) (incr (s.local_remain_pages (home s page)));
}

add_page-eq :
    (s : MemoryPool) (page : ℕ)
    → page ≢ null
    → page % s.page_size ≡ 0
    → add_page s page ≡ built (added s page)
unfolding add_page
add_page-eq s page real aligned = rw (ne→== page null real, eq→== _ _ aligned)

-- Only the members that the invariant reads matter to it, the `next` fields pointwise.
added-IsPool :
    (s : MemoryPool) (free : ℕ → List ℕ) (page : ℕ)
    → page ≢ null
    → IsPool (deallocate s page) free
    → IsPool (added s page) free
unfolding deallocate
added-IsPool s free page real inv =
    let open_inv : IsPool
        (record s {
          next = update s.next page (s.local_pools (home s page));
          local_pools = update s.local_pools (home s page) page;
          local_remain_pages =
              update s.local_remain_pages (home s page) (incr (s.local_remain_pages (home s page)));
        })
        free =
      rw (ne→== page null real) at inv in
    let same : update (update s.next page null) page (s.local_pools (home s page))
        ≡ update s.next page (s.local_pools (home s page)) =
      fun_ext (λ q. ground arith) in
    rw same (record {
      some_pool = open_inv.some_pool;
      chains = open_inv.chains;
      counts = open_inv.counts;
      homes = open_inv.homes;
      distinct = open_inv.distinct;
    })

-- What holds at the head of the loop of the constructor, in round `pid`.
record IsFilled (s : MemoryPool) (free : ℕ → List ℕ) : Type 0 where
  inv : IsPool s free
  agree : (j : ℕ) → s.local_remain_pages j ≡ s.pages_per_pool j

module _ (pages : ℕ → ℕ) (n : ℕ) (fits : n < 2 ^ 64) where
  added-IsFilled :
      (s : MemoryPool) (pid : ℕ)
      → IsAllocator pages s.page_size n
      → pid < n
      → IsFilled s (collected (home s) pages pid)
      → IsFilled (added s (pages pid)) (collected (home s) pages (suc pid))
  added-IsFilled s pid ok lt filled =
      let page = pages pid in
      let h = home s page in
      let free = collected (home s) pages pid in
      let real : page ≢ null = ok.nonnull pid lt in
      let used : has page (free h) ≡ false =
        has-collected (home s) pages page pid h (λ m below. ok.apart m pid below lt) in
      let grown : freed_onto s free page ≡ collected (home s) pages (suc pid) =
        fun_ext (λ j. ground arith) in
      record {
        inv = subst (IsPool (added s page)) grown (
            added-IsPool s (freed_onto s free page) page real (
              deallocate-IsPool page filled.inv real used (
                omega (
                  arith,
                  filled.inv.counts h (mod-lt _ filled.inv.some_pool),
                  length-collected (home s) pages pid h,
                ))));
        agree = λ j. ground (arith, filled.agree j);
      }

  fill_loop-IsFilled :
      (left pid : ℕ) (s : MemoryPool)
      → pid + left ≡ n
      → IsAllocator pages s.page_size n
      → IsFilled s (collected (home s) pages pid)
      → (s' : MemoryPool) × (fill_loop left pid pages s ≡ built s')
        × IsFilled s' (collected (home s) pages n)
        × (s'.num_pools ≡ s.num_pools)
        × (s'.page_size ≡ s.page_size)
  unfolding fill_loop
  fill_loop-IsFilled zero pid s e ok filled =
      let at_end : pid ≡ n = omega arith in
      (s, refl, subst (λ k. IsFilled s (collected (home s) pages k)) at_end filled, refl, refl)
  fill_loop-IsFilled (suc left) pid s e ok filled =
      let lt : pid < n = omega arith in
      let s1 = added s (pages pid) in
      let step : IsFilled s1 (collected (home s) pages (suc pid)) =
        added-IsFilled s pid ok lt filled in
      let plus : suc pid ≡ pid + 1 = omega arith in
      let step' : IsFilled s1 (collected (home s) pages (pid + 1)) =
        subst (λ k. IsFilled s1 (collected (home s) pages k)) plus step in
      rw (add_page-eq s (pages pid) (ok.nonnull pid lt) (ok.aligned pid lt), fill_loop)
        (fill_loop-IsFilled left (pid + 1) s1 (omega arith) ok step')

pub counts_agree-true :
    (left i : ℕ) (s : MemoryPool)
    → ((j : ℕ) → s.local_remain_pages j ≡ s.pages_per_pool j)
    → counts_agree left i s ≡ true
unfolding counts_agree
counts_agree-true zero i s agree = refl
counts_agree-true (suc left) i s agree =
    rw (eq→== _ _ (agree i), counts_agree-true left (i + 1) s agree)

construct-eq :
    (num_pools pages_per_pool page_size : ℕ) (pages : ℕ → ℕ) (s : MemoryPool)
    → num_pools * pages_per_pool < 2 ^ 64
    → fill_loop (num_pools * pages_per_pool) 0 pages (empty_pool num_pools page_size) ≡ built s
    → ((j : ℕ) → s.local_remain_pages j ≡ s.pages_per_pool j)
    → construct num_pools pages_per_pool page_size pages ≡ built s
unfolding construct
construct-eq num_pools pages_per_pool page_size pages s fits runs agree =
    let whole : num_pools * pages_per_pool % 2 ^ 64 ≡ num_pools * pages_per_pool =
      mod-eq_of_lt fits in
    rw (whole, runs, construct, counts_agree-true s.num_pools 0 s agree)

-- Given at least one pool, a product `num_pools * pagesPerPool` that does not overflow, and
-- allocations that succeed, are aligned and lie apart, the constructor passes its asserts and
-- yields a well formed pool: every page it was given is free in the pool of its address, the
-- page of a later round first, and each count equals the number of pages given to that pool.
pub construct-IsPool :
    (num_pools pages_per_pool page_size : ℕ) (pages : ℕ → ℕ)
    → 0 < num_pools
    → num_pools * pages_per_pool < 2 ^ 64
    → IsAllocator pages page_size (num_pools * pages_per_pool)
    → (s : MemoryPool) × (construct num_pools pages_per_pool page_size pages ≡ built s)
      × IsPool s (
          collected
            (λ p. home (empty_pool num_pools page_size) p)
            pages
            (num_pools * pages_per_pool))
      × ((j : ℕ) → s.local_remain_pages j ≡ s.pages_per_pool j)
      × (s.num_pools ≡ num_pools)
unfolding construct
construct-IsPool num_pools pages_per_pool page_size pages pos fits ok =
    let n = num_pools * pages_per_pool in
    let (s, runs, filled, same, _) =
      fill_loop-IsFilled pages n fits n 0 (empty_pool num_pools page_size) (omega arith) ok
        (record {
          inv = record {
            some_pool = pos;
            chains = λ i lt. refl;
            counts = λ i lt. refl;
            homes = λ i lt. tt;
            distinct = λ i lt. tt;
          };
          agree = λ j. refl;
        }) in
    (
      s,
      construct-eq num_pools pages_per_pool page_size pages s fits runs filled.agree,
      filled.inv,
      filled.agree,
      same,
    )
