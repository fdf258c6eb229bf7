-- ===== src/Pool/Deallocate.antt =====
-- `deallocate` puts a page in front of the free pages of its own pool.
use native.Mathlib.Nat.{mod-lt}
use mathlib.Core.Path.{subst}
use user_level_mmap.Base.{
  ℕ, ◌+◌, ◌^◌, ◌<◌, ◌≡◌, ◌≢◌, sym, false, List, ◌∷◌, inl, inr, arith, ◌==◌, Bool-cases, ne→==,
  update, has, All,
}
use user_level_mmap.Pool.{null, MemoryPool, home, deallocate}
use user_level_mmap.Pool.Invariant.{IsPool, Chain-update, has-homes}

abbrev pub freed_onto : MemoryPool → (ℕ → List ℕ) → ℕ → ℕ → List ℕ
freed_onto s free ptr = update free (home s ptr) (ptr ∷ free (home s ptr))

module _ {s : MemoryPool} {free : ℕ → List ℕ} (ptr : ℕ) (inv : IsPool s free) (real : ptr ≢ null)
    (used : has ptr (free (home s ptr)) ≡ false)
    (room : s.local_remain_pages (home s ptr) + 1 < 2 ^ 64) where
  open inv use {some_pool, chains, counts, homes, distinct}

  home-lt : home s ptr < s.num_pools
  home-lt = mod-lt _ some_pool

  not_free : (i : ℕ) → i < s.num_pools → has ptr (free i) ≡ false
  not_free i lt = elim (Bool-cases (home s ptr == i)) [
    | inl here ↦ let e : home s ptr ≡ i = ground arith in rw e at used
    | inr there ↦ has-homes (home s) i ptr (free i) (homes i lt) (ground arith)
  ]

  -- Given a page that is not free, `deallocate` keeps the pool well formed: the page becomes the
  -- first free page of the pool that its address belongs to, and no other pool changes.
  pub deallocate-IsPool : IsPool (deallocate s ptr) (freed_onto s free ptr)
  unfolding deallocate
  deallocate-IsPool = rw (ne→== ptr null real) (record {
    some_pool = some_pool;
    chains = λ i lt. ground (
      arith,
      chains i lt,
      Chain-update s.next ptr (s.local_pools (home s ptr)) (s.local_pools i) (free i),
      not_free i lt,
    );
    counts = λ i lt. ground (arith, counts i lt);
    homes = λ i lt. elim (Bool-cases (home s ptr == i)) [
      | inl here ↦
          let e : home s ptr ≡ i = ground arith in
          rw here (e, subst (λ k. All (λ p. home s p ≡ i) (free k)) (sym e) (homes i lt))
      | inr there ↦ rw there (homes i lt)
    ];
    distinct = λ i lt. elim (Bool-cases (home s ptr == i)) [
      | inl here ↦ rw here (used, distinct (home s ptr) home-lt)
      | inr there ↦ rw there (distinct i lt)
    ];
  })
