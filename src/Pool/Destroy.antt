-- ===== src/Pool/Destroy.antt =====
-- The destructor of the pool frees what the pool holds, each page once.
use native.Mathlib.Nat.{mod-lt}
use mathlib.Core.Path.{subst}
use user_level_mmap.Base.{
  ℕ, zero, suc, ◌+◌, ◌^◌, ◌<◌, ◌≡◌, refl, sym, ap, ◌∙◌, ◌/◌, true, false, ◌&&◌, ◌||◌, some, List,
  [], ◌∷◌, arith, ltb, ◌==◌, eq→==, ne→==, inl, inr, Bool-cases, length, has, Distinct,
}
use user_level_mmap.Pool.{null, incr, MemoryPool, home, destroyed, free_pages, free_pools, destroy}
use user_level_mmap.Pool.Invariant.{Chain, IsPool, has-homes}
use user_level_mmap.Pool.Construct.{counts_agree-true}

-- `xs` in front of `acc`, last element first: the order in which a loop stacks what it meets.
abbrev onto : List ℕ → List ℕ → List ℕ
onto [] acc = acc
onto (x ∷ xs) acc = onto xs (x ∷ acc)

has-onto : (p : ℕ) (xs acc : List ℕ) → has p (onto xs acc) ≡ (has p xs || has p acc)
has-onto p [] acc = refl
has-onto p (x ∷ xs) acc = has-onto p xs (x ∷ acc) ∙ ground arith

Distinct-onto :
    (xs acc : List ℕ)
    → Distinct xs
    → Distinct acc
    → ((p : ℕ) → has p xs ≡ true → has p acc ≡ false)
    → Distinct (onto xs acc)
Distinct-onto [] acc dx da apart = da
Distinct-onto (x ∷ xs) acc (out, dx) da apart =
    Distinct-onto xs (x ∷ acc) dx (apart x (ground arith), da) (λ p h. ground (arith, apart p))

free_pages-onto :
    (next : ℕ → ℕ) (fuel page cnt : ℕ) (xs freed : List ℕ)
    → Chain next page xs
    → length xs < fuel
    → cnt + length xs < 2 ^ 64
    → free_pages fuel next page cnt freed ≡ some (cnt + length xs, onto xs freed)
unfolding free_pages
free_pages-onto next zero page cnt xs freed c enough room = absurd (omega arith)
free_pages-onto next (suc fuel) page cnt [] freed c enough room =
    rw (eq→== page null c, free_pages) (ground arith)
free_pages-onto next (suc fuel) page cnt (x ∷ xs) freed (e, ne, c) enough room =
    subst
      (λ q.
        free_pages (suc fuel) next q cnt freed ≡ some (cnt + suc (length xs), onto xs (x ∷ freed)))
      (sym e)
      (rw (ne→== x null ne, free_pages)
        (free_pages-onto next fuel (next x) (incr cnt) xs (x ∷ freed) c (omega arith) (omega arith)
          ∙ ap (λ n. some (n, onto xs (x ∷ freed))) (omega arith)))

-- What has been freed before the loop reaches pool `i`.
record IsFreed (s : MemoryPool) (free : ℕ → List ℕ) (i : ℕ) (freed : List ℕ) : Type 0 where
  exact : (p : ℕ) → has p freed ≡ (ltb (home s p) i && has p (free (home s p)))
  once : Distinct freed

module _ (fuel : ℕ) (s : MemoryPool) (free : ℕ → List ℕ) (inv : IsPool s free)
    (enough : (j : ℕ) → j < s.num_pools → length (free j) < fuel)
    (room : (j : ℕ) → j < s.num_pools → length (free j) < 2 ^ 64) where
  open inv use {some_pool, chains, counts, homes, distinct}

  IsFreed-onto :
      (i : ℕ) (freed : List ℕ)
      → i < s.num_pools
      → IsFreed s free i freed
      → IsFreed s free (i + 1) (onto (free i) freed)
  IsFreed-onto i freed lt done = record {
    exact = λ p. elim (Bool-cases (home s p == i)) [
      | inl here ↦
          let e : home s p ≡ i = ground arith in
          ground (arith, has-onto p (free i) freed, done.exact p, ap (λ k. has p (free k)) e)
      | inr there ↦
          let absent : has p (free i) ≡ false =
            has-homes (home s) i p (free i) (homes i lt) (ground arith) in
          ground (arith, has-onto p (free i) freed, done.exact p)
    ];
    once = Distinct-onto (free i) freed (distinct i lt) done.once (λ p h.
        elim (Bool-cases (home s p == i)) [
          | inl here ↦ ground (arith, done.exact p)
          | inr there ↦
              let absent : has p (free i) ≡ false =
                has-homes (home s) i p (free i) (homes i lt) (ground arith) in
              cc
        ]);
  }

  free_pools-IsFreed :
      (left i : ℕ) (freed : List ℕ)
      → i + left ≡ s.num_pools
      → IsFreed s free i freed
      → (all : List ℕ) × (free_pools left i fuel s freed ≡ destroyed all)
        × IsFreed s free s.num_pools all
  unfolding free_pools
  free_pools-IsFreed zero i freed e done =
      let at_end : i ≡ s.num_pools = omega arith in
      (freed, refl, subst (λ k. IsFreed s free k freed) at_end done)
  free_pools-IsFreed (suc left) i freed e done =
      let lt : i < s.num_pools = omega arith in
      let n = length (free i) in
      let one_pool : free_pages fuel s.next (s.local_pools i) 0 freed
          ≡ some (0 + n, onto (free i) freed) =
        free_pages-onto s.next fuel (s.local_pools i) 0 (free i) freed (chains i lt) (enough i lt)
          (omega (arith, room i lt)) in
      let agrees : (0 + n == s.local_remain_pages i) ≡ true =
        eq→== _ _ (omega (arith, counts i lt)) in
      rw (one_pool, agrees, free_pools)
        (free_pools-IsFreed left (i + 1) (onto (free i) freed) (omega arith)
          (IsFreed-onto i freed lt done))

-- The destructor of a well formed pool whose counts are back at what the constructor put in
-- passes its asserts, needs one round more than the longest list, and frees exactly the free
-- pages: each of them once, and nothing else.
pub destroy-frees :
    (fuel : ℕ) (s : MemoryPool) (free : ℕ → List ℕ)
    → IsPool s free
    → ((j : ℕ) → s.local_remain_pages j ≡ s.pages_per_pool j)
    → ((j : ℕ) → j < s.num_pools → length (free j) < fuel)
    → ((j : ℕ) → j < s.num_pools → length (free j) < 2 ^ 64)
    → (freed : List ℕ) × (destroy fuel s ≡ destroyed freed)
      × Distinct freed
      × ((p : ℕ) → has p freed ≡ has p (free (home s p)))
unfolding destroy
destroy-frees fuel s free inv agree enough room =
    let (freed, runs, done) =
      free_pools-IsFreed fuel s free inv enough room s.num_pools 0 [] (omega arith)
        (record { exact = λ p. ground arith; once = tt }) in
    (
      freed,
      rw (counts_agree-true s.num_pools 0 s agree, runs),
      done.once,
      λ p. ground (arith, done.exact p, mod-lt (p / s.page_size) inv.some_pool),
    )
