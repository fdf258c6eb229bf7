-- ===== src/Pool/Threads/Counts.antt =====
-- The counts of the pools while threads allocate and free.
use user_level_mmap.Base.{
  ℕ, ◌+◌, ◌%◌, ◌^◌, ◌≤◌, ◌<◌, ◌≡◌, refl, true, false, List, arith, update, length, has, Distinct,
}
use user_level_mmap.Pool.{null, MemoryPool}
use user_level_mmap.Pool.Invariant.{IsPool}
use user_level_mmap.Pool.Threads.{
  Pc, idle, Move, System, pick, NoPopper, Reach, start, later, at_rest,
}
use user_level_mmap.Pool.Threads.Invariant.{Place, Inv}
use user_level_mmap.Pool.Threads.Progress.{Move-IsSound}
use user_level_mmap.Pool.Threads.Safety.{IsExclusive, Inv-IsExclusive, at_rest-Inv}
use user_level_mmap.Pool.Threads.Tally.{
  total, total-update, total-idle, taken, given, missed, down_at, up_at, Move-balance, misses,
  threads,
}

-- The count of pool `j` with what was missed and what is still to be counted up is the length of
-- its list with what is still to be counted down.
abbrev IsBalanced : (n missing : ℕ) → MemoryPool → (ℕ → Pc) → (ℕ → List ℕ) → ℕ → Type 0
IsBalanced n missing s pc free j =
    (s.local_remain_pages j + missing + total (up_at j) n pc) % 2 ^ 64
    ≡ (length (free j) + total (down_at j) n pc) % 2 ^ 64

module _ {s s' : MemoryPool} {held held' : List ℕ} {pc : ℕ → Pc} {p' : Pc} (n t : ℕ) (lt : t < n)
    (mv : Move s held (pc t) s' held' p') where
  Move-IsBalanced :
      (free free' : ℕ → List ℕ) (place : ℕ → Place) (missing j : ℕ)
      → Inv s held pc free place
      → length (free' j) + taken mv j ≡ length (free j) + given mv j
      → IsBalanced n missing s pc free j
      → IsBalanced n (missing + missed mv j) s' (update pc t p') free' j
  Move-IsBalanced free free' place missing j inv lengths before =
      let ups = total-update (up_at j) n pc t p' lt in
      let downs = total-update (down_at j) n pc t p' lt in
      let step = Move-balance mv free j (inv.fresh t) in omega arith

module _ (s : MemoryPool) (free : ℕ → List ℕ) (held : List ℕ) (inv : IsPool s free)
    (once : Distinct held) (no_null : has null held ≡ false)
    (apart : (i p : ℕ) → i < s.num_pools → has p held ≡ true → has p (free i) ≡ false) where
  Reach-IsBalanced :
      {u : System} (r : Reach NoPopper (at_rest s held) u)
      → (free' : ℕ → List ℕ) × (place' : ℕ → Place) × Inv u.pool u.held u.pc free' place'
        × ((n j : ℕ)
            → threads r ≤ n
            → j < s.num_pools
            → IsBalanced n (misses r j) u.pool u.pc free' j)
  Reach-IsBalanced start = (
    free,
    _,
    at_rest-Inv s free held inv once no_null apart,
    λ n j le lt.
        rw
          (
            total-idle (up_at j) n (λ _. idle) refl (λ t. refl),
            total-idle (down_at j) n (λ _. idle) refl (λ t. refl),
            inv.counts j lt,
          )
          (omega arith),
  )
  Reach-IsBalanced (later r (pick t mv) ok) =
      let (free', place', i, balanced) = Reach-IsBalanced r in
      let (free'', place'', i', keep, at, lengths) = Move-IsSound i t mv refl ok in
      (
        free'',
        place'',
        i',
        λ n j le lt.
            Move-IsBalanced n t (omega arith) mv free' free'' place' (misses r j) j i (lengths j)
              (balanced n j (omega arith) lt),
      )

  -- From a well-formed pool at rest, with callers that hold pages that are not free, after every
  -- sequence of steps of any number of threads in which no page comes back while another thread is
  -- about to take that page by an old link: once all threads have left both functions, the count of
  -- each pool is the number of pages in its free list, less one for each time that `allocate`
  -- counted down without having got a page, modulo 2 ^ 64.
  pub Reach-count :
      {u : System} (r : Reach NoPopper (at_rest s held) u)
      → ((t : ℕ) → u.pc t ≡ idle)
      → (free' : ℕ → List ℕ) × IsExclusive u free'
        × ((j : ℕ)
            → j < s.num_pools
            → (u.pool.local_remain_pages j + misses r j) % 2 ^ 64 ≡ length (free' j) % 2 ^ 64)
  Reach-count {u} r still =
      let (free', place', i, balanced) = Reach-IsBalanced r in
      (
        free',
        Inv-IsExclusive i,
        λ j lt.
            let up = total-idle (up_at j) (threads r) u.pc refl still in
            let down = total-idle (down_at j) (threads r) u.pc refl still in
            let b = balanced (threads r) j (omega arith) lt in omega arith,
      )
