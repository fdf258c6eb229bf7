-- ===== src/Pool/Benchmark/Give.antt =====
-- The second loop of `memory_pool_test`, and both together.
use native.Mathlib.Nat.{mod-lt}
use user_level_mmap.Base.{
  ℕ, suc, ◌+◌, ◌%◌, ◌/◌, ◌^◌, ◌<◌, ◌≡◌, ◌≢◌, ap, false, List, [], ◌∷◌, ◌++◌, arith, ne→==, update,
  length, All, has, Distinct,
}
use user_level_mmap.Pool.{null, MemoryPool, home, deallocate}
use user_level_mmap.Pool.Invariant.{Chain, IsPool}
use user_level_mmap.Pool.Deallocate.{deallocate-IsPool}
use user_level_mmap.Pool.Benchmark.{taken, give_pages, memory_pool_test}
use user_level_mmap.Pool.Benchmark.Take.{IsPool-ext, update_same, update_twice, take_pages-eq}

-- The list in front of another one, the last number first.
abbrev pub reverse_onto : List ℕ → List ℕ → List ℕ
reverse_onto [] ys = ys
reverse_onto (x ∷ xs) ys = reverse_onto xs (x ∷ ys)

-- What is known of pages that are in front of list `i`.
abbrev AreFrom : (ℕ → ℕ) → (i : ℕ) → List ℕ → List ℕ → Type 0
AreFrom h i [] rest = Unit
AreFrom h i (p ∷ ps) rest =
    (p ≢ null) × (h p ≡ i) × (has p (ps ++ rest) ≡ false) × AreFrom h i ps rest

Chain-AreFrom :
    (s : MemoryPool) (i q : ℕ) (ps rest : List ℕ)
    → Chain s.next q (ps ++ rest)
    → All (λ p. home s p ≡ i) (ps ++ rest)
    → Distinct (ps ++ rest)
    → AreFrom (home s) i ps rest
Chain-AreFrom s i q [] rest c h d = tt
Chain-AreFrom s i q (p ∷ ps) rest (e, real, c) (at, h) (out, d) =
    (real, at, out, Chain-AreFrom s i (s.next p) ps rest c h d)

-- Pages of list `i`, none of them in it or twice among them.
abbrev IsGivable : (ℕ → ℕ) → (i : ℕ) → List ℕ → List ℕ → Type 0
IsGivable h i [] rest = Unit
IsGivable h i (p ∷ ps) rest =
    (p ≢ null) × (h p ≡ i) × (has p rest ≡ false) × IsGivable h i ps (p ∷ rest)

length-append : (xs ys : List ℕ) → length (xs ++ ys) ≡ length xs + length ys
length-append [] ys = omega arith
length-append (x ∷ xs) ys = omega (arith, length-append xs ys)

apart_more :
    (p : ℕ) (ps rest acc : List ℕ)
    → has p (ps ++ rest) ≡ false
    → All (λ q. has q acc ≡ false) ps
    → All (λ q. has q (p ∷ acc) ≡ false) ps
apart_more p [] rest acc out all = tt
apart_more p (q ∷ ps) rest acc out (h, all) =
    (ground arith, apart_more p ps rest acc (ground arith) all)

has-append : (p : ℕ) (ps rest : List ℕ) → has p (ps ++ rest) ≡ false → has p rest ≡ false
has-append p [] rest out = out
has-append p (q ∷ ps) rest out = has-append p ps rest (ground arith)

apart_rest :
    (h : ℕ → ℕ) (i : ℕ) (ps rest : List ℕ) → AreFrom h i ps rest → All (λ q. has q rest ≡ false) ps
apart_rest h i [] rest from = tt
apart_rest h i (p ∷ ps) rest (real, at, out, from) =
    (has-append p ps rest out, apart_rest h i ps rest from)

AreFrom-IsGivable :
    (h : ℕ → ℕ) (i : ℕ) (ps rest acc : List ℕ)
    → AreFrom h i ps rest
    → All (λ q. has q acc ≡ false) ps
    → IsGivable h i ps acc
AreFrom-IsGivable h i [] rest acc from all = tt
AreFrom-IsGivable h i (p ∷ ps) rest acc (real, at, out, from) (here, all) = (
  real,
  at,
  here,
  AreFrom-IsGivable h i ps rest (p ∷ acc) from (apart_more p ps rest acc out all),
)

members :
    (p : ℕ) (s : MemoryPool) (n size : ℕ)
    → p ≢ null
    → (s.num_pools ≡ n) × (s.page_size ≡ size)
    → ((deallocate s p).num_pools ≡ n) × ((deallocate s p).page_size ≡ size)
unfolding deallocate
members p s n size real (en, es) = rw (ne→== p null real) (en, es)

-- The pages go back one by one, each in front of the list.
give_pages-IsPool :
    (ps : List ℕ) {s : MemoryPool} {free : ℕ → List ℕ} (n size i : ℕ) (rest : List ℕ)
    → (s.num_pools ≡ n) × (s.page_size ≡ size)
    → IsPool s free
    → i < n
    → free i ≡ rest
    → length ps + length rest < 2 ^ 64
    → IsGivable (λ q. q / size % n) i ps rest
    → IsPool (give_pages ps s) (update free i (reverse_onto ps rest))
unfolding give_pages
give_pages-IsPool [] {s} {free} n size i rest same inv lt e fits givable =
    IsPool-ext (update_same free i rest e) inv
give_pages-IsPool (p ∷ ps) {s} {free} n size i rest (en, es) inv lt e fits
      (real, at, out, givable) =
    let own : home s p ≡ i = rw (en, es) at in
    let lt' : i < s.num_pools = rw en lt in
    let out' : has p (free (home s p)) ≡ false = rw (own, e) out in
    let room : s.local_remain_pages (home s p) + 1 < 2 ^ 64 =
      rw own (omega (arith, inv.counts i lt', ap length e, fits)) in
    let inv' = deallocate-IsPool p inv real out' room in
    let inv'' : IsPool (deallocate s p) (update free i (p ∷ rest)) =
      IsPool-ext (λ j. rw (own, e)) inv' in
    IsPool-ext (update_twice free i (p ∷ rest) (reverse_onto ps (p ∷ rest))) (
      give_pages-IsPool ps n size i (p ∷ rest) (members p s n size real (en, es)) inv'' lt
        (ground arith) (omega (arith, fits)) givable)

-- When the pool of the calling thread has at least `ops` free pages, `memory_pool_test` takes the
-- first `ops` of them, each in the first round of `allocate`, passes its asserts, and leaves the
-- pool well formed with the same free pages: those that it took are in front again, in the opposite
-- order, although it has written over their links.
pub memory_pool_test-IsPool :
    {s : MemoryPool} {free : ℕ → List ℕ} (fuel thread_hash : ℕ) (ptr rest : List ℕ)
    → IsPool s free
    → free (thread_hash % s.num_pools) ≡ ptr ++ rest
    → length (free (thread_hash % s.num_pools)) < 2 ^ 64
    → (s' : MemoryPool) × (memory_pool_test (length ptr) (suc fuel) thread_hash s ≡ taken ptr s')
      × IsPool s' (update free (thread_hash % s.num_pools) (reverse_onto ptr rest))
unfolding memory_pool_test
memory_pool_test-IsPool {s} {free} fuel thread_hash ptr rest inv e fits =
    let i = thread_hash % s.num_pools in
    let lt : i < s.num_pools = mod-lt _ inv.some_pool in
    let (s', run, same, same', inv') = take_pages-eq ptr fuel thread_hash rest inv e fits in
    let from =
      Chain-AreFrom s i (s.local_pools i) ptr rest (rw e at (inv.chains i lt))
        (rw e at (inv.homes i lt)) (rw e at (inv.distinct i lt)) in
    let givable =
      AreFrom-IsGivable (home s) i ptr rest rest from (apart_rest (home s) i ptr rest from) in
    (
      give_pages ptr s',
      rw (run, memory_pool_test),
      IsPool-ext (update_twice free i rest (reverse_onto ptr rest)) (
          give_pages-IsPool ptr s.num_pools s.page_size i rest (same, same') inv' lt (ground arith)
            (omega (arith, length-append ptr rest, ap length e, fits)) givable),
    )
