-- ===== src/Pool/Threads/Aba.antt =====
-- What goes wrong without the rule: two threads, one of them slow.
use native.Mathlib.Nat.{mod-lt}
use user_level_mmap.Base.{ℕ, ◌%◌, ◌<◌, ◌≡◌, ◌≢◌, refl, true, List, [], ◌∷◌, arith, update, has, All}
use user_level_mmap.Pool.{null, MemoryPool, home}
use user_level_mmap.Pool.Invariant.{IsPool, Chain}
use user_level_mmap.Pool.Threads.{
  Pc, Move, allocate, head_page, next_read, popped, returned, deallocate, expected_read, stored,
  pushed, counted_up, System, pick, Anything, Reach, start, later, at_rest, Move,
}

-- One more step, under no rule.
then :
    {s u : System} (t : ℕ) {pool : MemoryPool} {held : List ℕ} {p : Pc}
    → Reach Anything u s
    → Move s.pool s.held (s.pc t) pool held p
    → Reach Anything u (record { pool = pool; held = held; pc = update s.pc t p })
then t r mv = later r (pick t mv) tt

module _ (s : MemoryPool) (thread_hash a b : ℕ)
    (first : s.local_pools (thread_hash % s.num_pools) ≡ a) (second : s.next a ≡ b)
    (real_a : a ≢ null) (real_b : b ≢ null) (home_a : home s a ≡ thread_hash % s.num_pools) where
  abbrev i : ℕ
  i = thread_hash % s.num_pools

  next_head : update s.local_pools i (s.next a) i ≡ b
  next_head = ground arith

  has_both : has a (b ∷ a ∷ []) ≡ true
  has_both = ground arith

  -- Thread 0 has read the head and the link of the first page.
  abbrev slow : (u : System) × Reach Anything (at_rest s []) u
  slow =
      (_, then 0 (then 0 (then 0 start (allocate thread_hash)) (head_page first real_a)) next_read)

  -- Thread 1 allocates twice.
  abbrev one_taken : (u : System) × Reach Anything (at_rest s []) u
  one_taken = (
    _,
    then 1
        (then 1
          (then 1 (then 1 (then 1 slow.1 (allocate thread_hash)) (head_page first real_a))
            next_read)
          (popped first))
        (returned real_a),
  )

  abbrev both_taken : (u : System) × Reach Anything (at_rest s []) u
  both_taken = (
    _,
    then 1
        (then 1
          (then 1 (then 1 (then 1 one_taken.1 (allocate thread_hash)) (head_page next_head real_b))
            next_read)
          (popped next_head))
        (returned real_b),
  )

  -- Thread 1 gives the first page back.
  abbrev given_back : (u : System) × Reach Anything (at_rest s []) u
  given_back = (
    _,
    then 1
        (then 1
          (then 1 (then 1 (then 1 both_taken.1 (deallocate {ptr = a} has_both)) expected_read)
            stored)
          (pushed refl))
        counted_up,
  )

  two_owners :
      (u : System) × Reach Anything (at_rest s []) u
      × (has b u.held ≡ true)
      × (u.pool.local_pools i ≡ b)
  two_owners = (_, then 0 given_back.1 (popped (ground arith)), ground arith, ground arith)

-- From every well-formed pool at rest with at least two free pages in a list, two threads that hash
-- to that list reach a state where the second page is in the hands of the callers and the first page
-- of the list at once, so that the next caller gets it too.
pub Reach-two_owners :
    {s : MemoryPool} {free : ℕ → List ℕ} (thread_hash a b : ℕ) (rest : List ℕ)
    → IsPool s free
    → free (thread_hash % s.num_pools) ≡ a ∷ b ∷ rest
    → (u : System) × Reach Anything (at_rest s []) u
      × (has b u.held ≡ true)
      × (u.pool.local_pools (thread_hash % s.num_pools) ≡ b)
Reach-two_owners {s} thread_hash a b rest inv shape =
    let i = thread_hash % s.num_pools in
    let lt : i < s.num_pools = mod-lt _ inv.some_pool in
    let c : Chain s.next (s.local_pools i) (a ∷ b ∷ rest) = rw shape at (inv.chains i lt) in
    let h : All (λ q. home s q ≡ i) (a ∷ b ∷ rest) = rw shape at (inv.homes i lt) in
    two_owners s thread_hash a b c.0 c.2.0 c.1 c.2.1 h.0
