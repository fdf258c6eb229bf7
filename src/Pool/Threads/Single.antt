-- ===== src/Pool/Threads/Single.antt =====
-- With one thread that allocates, while any number of threads free, no rule is needed.
use user_level_mmap.Base.{
  ℕ, ◌<◌, ◌≡◌, ◌≢◌, refl, sym, ◌∙◌, true, false, List, [], ◌∷◌, inl, inr, arith, ◌==◌, Bool-cases,
  update, has, Distinct,
}
use user_level_mmap.Pool.{null, MemoryPool}
use user_level_mmap.Pool.Invariant.{Chain, IsPool}
use user_level_mmap.Pool.Threads.{
  Pc, idle, load_head, load_next, pop, count_down, scan, raise, Move, allocate, head_null,
  head_page, next_read, popped, pop_failed, search_pools, scan_more, scan_less, raised, retry,
  pushed, System, pick, IsUnhurried, IsBy, OneAllocator, Reach, start, later, at_rest,
}
use user_level_mmap.Pool.Threads.Invariant.{Place, IsFresh, Inv}
use user_level_mmap.Pool.Threads.Progress.{popping, Move-IsSound, own-IsFresh, own_page}
use user_level_mmap.Pool.Threads.Safety.{
  IsExclusive, Inv-IsExclusive, IsLossless, at_rest-Inv, start-IsAt,
}
use user_level_mmap.Pool.Threads.Located.{IsAt}
use user_level_mmap.Pool.Threads.Moves.{not_free}

-- Only thread `a` is in `allocate`, and the page that it is about to take is free.
abbrev IsTaker : (a u : ℕ) → (ℕ → List ℕ) → Pc → Type 0
IsTaker a u free (load_head i) = u ≡ a
IsTaker a u free (load_next i page) = (u ≡ a) × (has page (free i) ≡ true)
IsTaker a u free (pop i page next) = (u ≡ a) × (has page (free i) ≡ true)
IsTaker a u free (scan k richest max_remain has_page) = u ≡ a
IsTaker a u free (raise k) = u ≡ a
IsTaker a u free (count_down i page) = u ≡ a
IsTaker a u free _ = Unit

-- The first page of a chain is in the list.
Chain-has : (next : ℕ → ℕ) (p : ℕ) (xs : List ℕ) → p ≢ null → Chain next p xs → has p xs ≡ true
Chain-has next p [] real c = absurd (real c)
Chain-has next p (x ∷ xs) real (e, ne, c) = ground arith

module _ {s : MemoryPool} {held : List ℕ} {pc : ℕ → Pc} {free : ℕ → List ℕ} {place : ℕ → Place}
    (inv : Inv s held pc free place) (a : ℕ) (takers : (u : ℕ) → IsTaker a u free (pc u))
    (t : ℕ) where
  own-IsTaker : {p : Pc} → pc t ≡ p → IsTaker a t free p
  own-IsTaker e = rw e at (takers t)

  Move-IsUnhurried :
      {s' : MemoryPool} {held' : List ℕ} {p p' : Pc} (mv : Move s held p s' held' p')
      → pc t ≡ p
      → IsUnhurried pc mv
  Move-IsUnhurried (pushed {ptr} {expected} same) e = λ u i next q.
      let k : (u ≡ a) × (has ptr (free i) ≡ true) = rw q at (takers u) in
      let f : (i < s.num_pools) × (ptr ≢ null) × (has ptr (free i) ≡ true → s.next ptr ≡ next) =
        rw q at (inv.fresh u) in
      ground (arith, k.1, not_free inv t ptr f.1 (own_page inv t e) i f.0)
  Move-IsUnhurried mv e = tt

  module _ (free' : ℕ → List ℕ) where
    Move-IsTaker :
        {s' : MemoryPool} {held' : List ℕ} {p p' : Pc} (mv : Move s held p s' held' p')
        → pc t ≡ p
        → IsBy a t mv
        → ((i q : ℕ) → q ≢ popping p → has q (free i) ≡ true → has q (free' i) ≡ true)
        → IsTaker a t free' p'
    Move-IsTaker (allocate thread_hash) e by keep = by
    Move-IsTaker (head_null h) e by keep = own-IsTaker e
    Move-IsTaker (head_page {i} {page} h real) e by keep = (
      own-IsTaker e,
      keep i page real
          (Chain-has s.next page (free i) real (rw h at (inv.chains i (own-IsFresh inv t e)))),
    )
    Move-IsTaker (next_read {i} {page}) e by keep =
        ((own-IsTaker e).0, keep i page (own-IsFresh inv t e).1 (own-IsTaker e).1)
    Move-IsTaker (popped h) e by keep = (own-IsTaker e).0
    Move-IsTaker pop_failed e by keep = (own-IsTaker e).0
    Move-IsTaker search_pools e by keep = own-IsTaker e
    Move-IsTaker (scan_more lt more) e by keep = own-IsTaker e
    Move-IsTaker (scan_less lt less) e by keep = own-IsTaker e
    Move-IsTaker raised e by keep = own-IsTaker e
    Move-IsTaker (retry done) e by keep = own-IsTaker e
    Move-IsTaker mv e by keep = tt

    not_popping : (p : Pc) (u x : ℕ) → t ≢ u → IsTaker a t free p → u ≡ a → x ≢ null → x ≢ popping p
    not_popping (pop i page next) u x ne own same real = absurd (ne (own.0 ∙ sym same))
    not_popping p u x ne own same real = real

    -- For the other threads.
    other-IsTaker :
        (p q : Pc) (u : ℕ)
        → t ≢ u
        → IsTaker a t free p
        → IsTaker a u free q
        → IsFresh s.num_pools s.next free q
        → ((i x : ℕ) → x ≢ popping p → has x (free i) ≡ true → has x (free' i) ≡ true)
        → IsTaker a u free' q
    other-IsTaker p (load_next i page) u ne own (same, h) f keep =
        (same, keep i page (not_popping p u page ne own same f.1) h)
    other-IsTaker p (pop i page next) u ne own (same, h) f keep =
        (same, keep i page (not_popping p u page ne own same f.1) h)
    other-IsTaker p q u ne own taker f keep = taker

    update-IsTaker :
        {s' : MemoryPool} {held' : List ℕ} {p' : Pc} (mv : Move s held (pc t) s' held' p')
        → IsBy a t mv
        → ((i q : ℕ) → q ≢ popping (pc t) → has q (free i) ≡ true → has q (free' i) ≡ true)
        → (u : ℕ) → IsTaker a u free' (update pc t p' u)
    update-IsTaker mv by keep u = elim (Bool-cases (t == u)) [
      | inl here ↦ let e : u ≡ t = ground arith in rw (here, e) (Move-IsTaker mv refl by keep)
      | inr there ↦
          rw there
            (other-IsTaker (pc t) (pc u) u (ground arith) (takers t) (takers u) (inv.fresh u) keep)
    ]

module _ (s : MemoryPool) (free : ℕ → List ℕ) (held : List ℕ) (inv : IsPool s free)
    (once : Distinct held) (no_null : has null held ≡ false)
    (apart : (i p : ℕ) → i < s.num_pools → has p held ≡ true → has p (free i) ≡ false) (a : ℕ) where
  abbrev IsAlone : System → Type 0
  IsAlone u =
      (free' : ℕ → List ℕ) × (place' : ℕ → Place) × Inv u.pool u.held u.pc free' place'
      × ((t : ℕ) → IsTaker a t free' (u.pc t))
      × ((x : Place) (p : ℕ)
          → p ≢ null
          → IsAt s.num_pools free held (λ _. idle) x p
          → IsAt u.pool.num_pools free' u.held u.pc (place' p) p)

  Reach-IsAlone : {u : System} → Reach (OneAllocator a) (at_rest s held) u → IsAlone u
  Reach-IsAlone start = (
    _,
    _,
    at_rest-Inv s free held inv once no_null apart,
    λ t. tt,
    start-IsAt s free held inv once no_null apart,
  )
  Reach-IsAlone (later r (pick t mv) ok) =
      let (free', place', i, takers, at) = Reach-IsAlone r in
      let (free'', place'', i', keep, at', lengths) =
        Move-IsSound i t mv refl (Move-IsUnhurried i a takers t mv refl) in
      (
        free'',
        place'',
        i',
        update-IsTaker i a takers t free'' mv ok keep,
        λ x p real h. at' p real (at x p real h),
      )

  -- From a well-formed pool at rest, with callers that hold pages that are not free, every sequence
  -- of steps in which one thread allocates and any number of threads free leads to a state where
  -- the heads and the links still spell out free lists, where no page is in two free lists, in two
  -- pairs of hands, or in both, and where every page that was free or with the callers is still in
  -- a free list, with the callers or with one of the threads.
  pub alone-IsExclusive :
      {u : System}
      → Reach (OneAllocator a) (at_rest s held) u
      → (free' : ℕ → List ℕ) × IsExclusive u free' × IsLossless s.num_pools free held u free'
  alone-IsExclusive r =
      let (free', place', i, takers, at) = Reach-IsAlone r in
      (free', Inv-IsExclusive i, λ x p real h. (place' p, at x p real h))
