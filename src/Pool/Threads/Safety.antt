-- ===== src/Pool/Threads/Safety.antt =====
-- No page has two owners: with a rule on the steps, and with one thread that allocates.
use user_level_mmap.Base.{
  ℕ, ◌<◌, ◌≡◌, ◌≢◌, refl, sym, true, false, List, [], ◌∷◌, arith, has, All, Distinct, if◌then◌else◌,
}
use user_level_mmap.Pool.{null, MemoryPool, home}
use user_level_mmap.Pool.Invariant.{Chain, IsPool}
use user_level_mmap.Pool.Threads.{idle, System, pick, NoPopper, Reach, start, later, at_rest}
use user_level_mmap.Pool.Threads.Invariant.{Place, freed, kept, with_thread, owned, Inv}
use user_level_mmap.Pool.Threads.Located.{IsAt}
use user_level_mmap.Pool.Threads.Progress.{Move-IsSound}

-- The free lists are chains from the heads, and a page is at most once in one free list, in the
-- hands of the callers or with one thread.
pub record IsExclusive (s : System) (free : ℕ → List ℕ) : Type 0 where
  pub chains : (i : ℕ) → i < s.pool.num_pools → Chain s.pool.next (s.pool.local_pools i) (free i)
  pub free_once : (i : ℕ) → i < s.pool.num_pools → Distinct (free i)
  pub one_list :
      (i j p : ℕ)
      → i < s.pool.num_pools
      → j < s.pool.num_pools
      → has p (free i) ≡ true
      → has p (free j) ≡ true
      → i ≡ j
  pub held_once : Distinct s.held
  pub free_or_held : (i p : ℕ) → i < s.pool.num_pools → has p s.held ≡ true → has p (free i) ≡ false
  pub free_or_owned :
      (i t : ℕ)
      → i < s.pool.num_pools
      → owned (s.pc t) ≢ null
      → has (owned (s.pc t)) (free i) ≡ false
  pub held_or_owned : (t : ℕ) → owned (s.pc t) ≢ null → has (owned (s.pc t)) s.held ≡ false
  pub one_owner : (t u : ℕ) → owned (s.pc t) ≢ null → owned (s.pc t) ≡ owned (s.pc u) → t ≡ u

pub Inv-IsExclusive :
    {s : System} {free : ℕ → List ℕ} {place : ℕ → Place}
    → Inv s.pool s.held s.pc free place
    → IsExclusive s free
Inv-IsExclusive {s} {free} inv = record {
  chains = chains;
  free_once = distinct;
  one_list = λ i j p lt lt' h h'. ground (arith, freed_at i p lt h, freed_at j p lt' h');
  held_once = distinct_held;
  free_or_held = λ i p lt h. ground (arith, freed_at i p lt, kept_at p h);
  free_or_owned = λ i t lt real. ground (arith, freed_at i (owned (s.pc t)) lt, thread_at t real);
  held_or_owned = λ t real. ground (arith, kept_at (owned (s.pc t)), thread_at t real);
  one_owner = λ t u real same. ground (arith, thread_at t real, thread_at u);
}
  where
    open inv use {chains, distinct, distinct_held, freed_at, kept_at, thread_at}

-- The pages that were free or with the callers, now in the state `u` with the free lists `free'`.
abbrev pub IsLossless :
    (n : ℕ) → (ℕ → List ℕ) → (held : List ℕ) → (u : System) → (ℕ → List ℕ) → Type 0
IsLossless n free held u free' =
    (x : Place) (p : ℕ)
    → p ≢ null
    → IsAt n free held (λ _. idle) x p
    → (y : Place) × IsAt u.pool.num_pools free' u.held u.pc y p

All-has : (h : ℕ → ℕ) (i p : ℕ) (xs : List ℕ) → All (λ q. h q ≡ i) xs → has p xs ≡ true → h p ≡ i
All-has h i p [] all e = absurd cc
All-has h i p (x ∷ xs) (here, all) e = ground (arith, here, All-has h i p xs all)

module _ (s : MemoryPool) (free : ℕ → List ℕ) (held : List ℕ) (inv : IsPool s free)
    (once : Distinct held) (no_null : has null held ≡ false)
    (apart : (i p : ℕ) → i < s.num_pools → has p held ≡ true → has p (free i) ≡ false) where
  abbrev pub place_at_rest : ℕ → Place
  place_at_rest p = if has p held then kept else freed (home s p)

  pub at_rest-Inv : Inv s held (λ _. idle) free place_at_rest
  at_rest-Inv = record {
    some_pool = inv.some_pool;
    chains = inv.chains;
    homes = λ i p lt h. All-has (home s) i p (free i) (inv.homes i lt) h;
    distinct = inv.distinct;
    distinct_held = once;
    null_held = no_null;
    freed_at =
        λ i p lt h. ground (arith, apart i p lt, All-has (home s) i p (free i) (inv.homes i lt) h);
    kept_at = λ p h. rw h;
    thread_at = λ t real. absurd (real refl);
    fresh = λ t. tt;
  }

  -- Where a page is at the start, `place_at_rest` says that it is.
  pub start-IsAt :
      (x : Place) (p : ℕ)
      → p ≢ null
      → IsAt s.num_pools free held (λ _. idle) x p
      → IsAt s.num_pools free held (λ _. idle) (place_at_rest p) p
  start-IsAt (freed i) p real (lt, h) = rw (at_rest-Inv.freed_at i p lt h) (lt, h)
  start-IsAt kept p real h = rw h h
  start-IsAt (with_thread t) p real h = absurd (real (sym h))

  Reach-Inv :
      {u : System}
      → Reach NoPopper (at_rest s held) u
      → (free' : ℕ → List ℕ) × (place' : ℕ → Place) × Inv u.pool u.held u.pc free' place'
        × ((x : Place) (p : ℕ)
            → p ≢ null
            → IsAt s.num_pools free held (λ _. idle) x p
            → IsAt u.pool.num_pools free' u.held u.pc (place' p) p)
  Reach-Inv start = (free, place_at_rest, at_rest-Inv, start-IsAt)
  Reach-Inv (later r (pick t mv) ok) =
      let (free', place', i, at) = Reach-Inv r in
      let (free'', place'', i', keep, at', lengths) = Move-IsSound i t mv refl ok in
      (free'', place'', i', λ x p real h. at' p real (at x p real h))

  -- From a well-formed pool at rest, with callers that hold pages that are not free, every sequence
  -- of steps of any number of threads in which no page comes back while another thread is about to
  -- take that page by an old link leads to a state where the heads and the links still spell out
  -- free lists, where no page is in two free lists, in two pairs of hands, or in both, and where
  -- every page that was free or with the callers is still in a free list, with the callers or with
  -- one of the threads.
  pub Reach-IsExclusive :
      {u : System}
      → Reach NoPopper (at_rest s held) u
      → (free' : ℕ → List ℕ) × IsExclusive u free' × IsLossless s.num_pools free held u free'
  Reach-IsExclusive r =
      let (free', place', i, at) = Reach-Inv r in
      (free', Inv-IsExclusive i, λ x p real h. (place' p, at x p real h))
