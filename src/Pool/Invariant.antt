-- ===== src/Pool/Invariant.antt =====
-- What a pool stands for: for each local pool the list of its free pages, first one first.
use user_level_mmap.Base.{
  ℕ, ◌<◌, ◌≡◌, ◌≢◌, refl, false, List, [], ◌∷◌, arith, ◌==◌, update, length, All, has, Distinct,
}
use user_level_mmap.Pool.{null, MemoryPool, home}

-- From `p` the `next` fields lead through the pages of the list to `nullptr`.
abbrev pub Chain : (ℕ → ℕ) → ℕ → List ℕ → Type 0
Chain next p [] = p ≡ null
Chain next p (x ∷ xs) = (p ≡ x) × (x ≢ null) × Chain next (next x) xs

pub record IsPool (s : MemoryPool) (free : ℕ → List ℕ) : Type 0 where
  pub some_pool : 0 < s.num_pools
  pub chains : (i : ℕ) → i < s.num_pools → Chain s.next (s.local_pools i) (free i)
  pub counts : (i : ℕ) → i < s.num_pools → s.local_remain_pages i ≡ length (free i)
  pub homes : (i : ℕ) → i < s.num_pools → All (λ p. home s p ≡ i) (free i)
  pub distinct : (i : ℕ) → i < s.num_pools → Distinct (free i)

-- A write to a page that is not in the list leaves the chain alone.
pub Chain-update :
    (next : ℕ → ℕ) (a v p : ℕ) (xs : List ℕ)
    → has a xs ≡ false
    → Chain next p xs
    → Chain (update next a v) p xs
Chain-update next a v p [] out c = c
Chain-update next a v p (x ∷ xs) out (e, ne, c) =
    let keep : update next a v x ≡ next x = ground arith in
    (e, ne, rw keep (Chain-update next a v (next x) xs (ground arith) c))

-- A page is in no list but that of its own pool.
pub has-homes :
    (h : ℕ → ℕ) (i p : ℕ) (xs : List ℕ) → All (λ q. h q ≡ i) xs → h p ≢ i → has p xs ≡ false
has-homes h i p [] all ne = refl
has-homes h i p (x ∷ xs) (e, all) ne =
    let differ : (p == x) ≡ false = ground (arith, λ (q : p ≡ x). ne (rw q e)) in
    rw (differ, has-homes h i p xs all ne)
