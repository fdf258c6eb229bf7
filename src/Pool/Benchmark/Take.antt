-- ===== src/Pool/Benchmark/Take.antt =====
-- The first loop of `memory_pool_test`.
use native.Mathlib.Nat.{mod-lt}
use mathlib.Core.Path.{subst}
use user_level_mmap.Base.{
  ℕ, suc, ◌%◌, ◌^◌, ◌<◌, ◌≡◌, ◌≢◌, refl, sym, ap, ◌∙◌, fun_ext, false, some, List, [], ◌∷◌, ◌++◌,
  arith, inl, inr, Bool-cases, ◌==◌, ne→==, update, length, All, has, Distinct,
}
use user_level_mmap.Pool.{null, MemoryPool, home, take_page, allocate}
use user_level_mmap.Pool.Invariant.{Chain, IsPool, Chain-update, has-homes}
use user_level_mmap.Pool.Allocate.{take_page-IsPool, allocate_loop-eq}
use user_level_mmap.Pool.Benchmark.{memset, taken, and_page, take_pages}

pub IsPool-ext :
    {s : MemoryPool} {free free' : ℕ → List ℕ}
    → ((i : ℕ) → free i ≡ free' i)
    → IsPool s free
    → IsPool s free'
IsPool-ext {s} e inv = subst (IsPool s) (fun_ext e) inv

memset-IsPool :
    {s : MemoryPool} {free : ℕ → List ℕ} (page : ℕ)
    → ((i : ℕ) → i < s.num_pools → has page (free i) ≡ false)
    → IsPool s free
    → IsPool (memset s page) free
unfolding memset
memset-IsPool {s} {free} page out inv = record {
  some_pool = inv.some_pool;
  chains = λ i lt.
      Chain-update s.next page 0x2a2a2a2a2a2a2a2a (s.local_pools i) (free i) (out i lt)
        (inv.chains i lt);
  counts = inv.counts;
  homes = inv.homes;
  distinct = inv.distinct;
}

pub update_same :
    (free : ℕ → List ℕ) (i : ℕ) (xs : List ℕ) → free i ≡ xs → (j : ℕ) → free j ≡ update free i xs j
update_same free i xs e j = elim (Bool-cases (i == j)) [
  | inl here ↦ let same : j ≡ i = ground arith in rw here (ap free same ∙ e)
  | inr there ↦ rw there
]

pub update_twice :
    (free : ℕ → List ℕ) (i : ℕ) (xs ys : List ℕ) (j : ℕ)
    → update (update free i xs) i ys j ≡ update free i ys j
update_twice free i xs ys j = ground arith

-- The first page of a list is in no list once it is taken.
taken_out :
    {s : MemoryPool} {free : ℕ → List ℕ} (i p : ℕ) (xs : List ℕ)
    → IsPool s free
    → i < s.num_pools
    → free i ≡ p ∷ xs
    → (j : ℕ) → j < s.num_pools
    → has p (update free i xs j) ≡ false
taken_out {s} {free} i p xs inv lt e j lt' =
    let d : Distinct (p ∷ xs) = rw e at (inv.distinct i lt) in
    let h : All (λ q. home s q ≡ i) (p ∷ xs) = rw e at (inv.homes i lt) in
    elim (Bool-cases (i == j)) [
      | inl here ↦ rw here d.0
      | inr there ↦
          let ne : i ≢ j = ground arith in
          rw there (has-homes (home s) j p (free j) (inv.homes j lt') (λ q. ne (sym h.0 ∙ q)))
    ]

take_pages-suc :
    (ops fuel thread_hash p : ℕ) (ps : List ℕ) (s s1 s' : MemoryPool)
    → allocate fuel s thread_hash ≡ some (p, s1)
    → p ≢ null
    → take_pages ops fuel thread_hash (memset s1 p) ≡ taken ps s'
    → take_pages (suc ops) fuel thread_hash s ≡ taken (p ∷ ps) s'
unfolding take_pages and_page
take_pages-suc ops fuel thread_hash p ps s s1 s' got real rest =
    rw (take_pages, got, ne→== p null real, rest)

allocate-eq :
    {s : MemoryPool} {free : ℕ → List ℕ} (fuel thread_hash p : ℕ) (rest : List ℕ)
    → IsPool s free
    → free (thread_hash % s.num_pools) ≡ p ∷ rest
    → length (free (thread_hash % s.num_pools)) < 2 ^ 64
    → allocate (suc fuel) s thread_hash ≡ some (p, take_page s (thread_hash % s.num_pools))
unfolding allocate
allocate-eq {s} fuel thread_hash p rest inv e fits =
    allocate_loop-eq (thread_hash % s.num_pools) p rest inv (mod-lt _ inv.some_pool) e fits fuel

pub take_pages-eq :
    (ps : List ℕ) {s : MemoryPool} {free : ℕ → List ℕ} (fuel thread_hash : ℕ) (rest : List ℕ)
    → IsPool s free
    → free (thread_hash % s.num_pools) ≡ ps ++ rest
    → length (free (thread_hash % s.num_pools)) < 2 ^ 64
    → (s' : MemoryPool) × (take_pages (length ps) (suc fuel) thread_hash s ≡ taken ps s')
      × (s'.num_pools ≡ s.num_pools)
      × (s'.page_size ≡ s.page_size)
      × IsPool s' (update free (thread_hash % s.num_pools) rest)
unfolding take_pages take_page memset
take_pages-eq [] {s} {free} fuel thread_hash rest inv e fits =
    (s, refl, refl, refl, IsPool-ext (update_same free _ rest e) inv)
take_pages-eq (p ∷ ps) {s} {free} fuel thread_hash rest inv e fits =
    let i = thread_hash % s.num_pools in
    let lt : i < s.num_pools = mod-lt _ inv.some_pool in
    let c : Chain s.next (s.local_pools i) (p ∷ ps ++ rest) = rw e at (inv.chains i lt) in
    let small : length (p ∷ ps ++ rest) < 2 ^ 64 = rw e at fits in
    let inv' =
      memset-IsPool p (taken_out i p (ps ++ rest) inv lt e)
        (take_page-IsPool i p (ps ++ rest) inv lt e fits) in
    let here : update free i (ps ++ rest) i ≡ ps ++ rest = ground arith in
    let (s', run, same, same', inv'') =
      take_pages-eq ps fuel thread_hash rest inv' here (rw here (omega (arith, small))) in
    (
      s',
      take_pages-suc (length ps) (suc fuel) thread_hash p ps s (take_page s i) s'
          (allocate-eq fuel thread_hash p (ps ++ rest) inv e fits) c.1 run,
      same,
      same',
      IsPool-ext (update_twice free i (ps ++ rest) rest) inv'',
    )
