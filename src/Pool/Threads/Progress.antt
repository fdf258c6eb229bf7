-- ===== src/Pool/Threads/Progress.antt =====
-- Each step keeps the invariant, with the free lists and the places as the step changes them.
use native.Mathlib.Nat.{mod-lt}
use user_level_mmap.Base.{
  ℕ, ◌≡◌, ◌≢◌, refl, sym, true, List, ◌∷◌, arith, update, has, ap, ◌∙◌, inl, inr, ◌==◌, Bool-cases,
  length, ◌+◌,
}
use user_level_mmap.Pool.{null, MemoryPool, home}
use user_level_mmap.Pool.Threads.{
  Pc, idle, pop, count_down, free_load, push, count_up, without, Move, allocate, head_null,
  head_page, next_read, popped, pop_failed, returned, search_pools, scan_more, scan_less, raised,
  retry, returned_null, deallocate, deallocate_null, used, expected_read, stored, pushed,
  push_failed, counted_up, IsUnhurried,
}
use user_level_mmap.Pool.Threads.Invariant.{Place, freed, kept, with_thread, owned, IsFresh, Inv}
use user_level_mmap.Pool.Threads.Located.{
  IsAt, Keeps, has-without_keep, owned-update, IsAt-moved, IsAt-still,
}
use user_level_mmap.Pool.Threads.Tally.{one_at, taken, given}
use user_level_mmap.Pool.Threads.Quiet.{quiet-Inv}
use user_level_mmap.Pool.Threads.Moves.{
  tail, Chain-first, returned-Inv, stored-Inv, deallocate-Inv, used-Inv, popped-Inv, pushed-Inv,
}

-- The page that a thread is about to take.
abbrev pub popping : Pc → ℕ
popping (pop i page next) = page
popping _ = null

-- The invariant for some free lists, which still have the pages that they had, but perhaps `page`,
-- and for some places; the lists have grown and shrunk as said, and every page that was at its
-- place is at its new one.
abbrev pub IsSound :
    (n : ℕ)
    → (ℕ → List ℕ)
    → (held : List ℕ) → (ℕ → Pc)
    → (ℕ → Place)
    → (page : ℕ) → (out into : ℕ → ℕ) → MemoryPool
    → List ℕ
    → (ℕ → Pc)
    → Type 0
IsSound n free held pc place page out into s' held' pc' =
    (free' : ℕ → List ℕ) × (place' : ℕ → Place) × Inv s' held' pc' free' place'
    × ((i p : ℕ) → p ≢ page → has p (free i) ≡ true → has p (free' i) ≡ true)
    × ((p : ℕ)
        → p ≢ null
        → IsAt n free held pc (place p) p
        → IsAt s'.num_pools free' held' pc' (place' p) p)
    × ((j : ℕ) → length (free' j) + out j ≡ length (free j) + into j)

-- The length of each list after the first page of list `i` has gone.
length-popped :
    (free : ℕ → List ℕ) (page i j : ℕ) (xs : List ℕ)
    → free i ≡ page ∷ xs
    → length (update free i xs j) + one_at i j ≡ length (free j) + 0
length-popped free page i j xs e = elim (Bool-cases (i == j)) [
  | inl here ↦ let d : j ≡ i = ground arith in rw (here, d, e) (omega arith)
  | inr there ↦ rw there refl
]

-- What is free after the first page of list `i` has gone.
still_there :
    (free : ℕ → List ℕ) (page i : ℕ) (xs : List ℕ) (j p : ℕ)
    → free i ≡ page ∷ xs
    → p ≢ page
    → has p (free j) ≡ true
    → has p (update free i xs j) ≡ true
still_there free page i xs j p e ne h = elim (Bool-cases (i == j)) [
  | inl here ↦
      let d : j ≡ i = ground arith in
      let k : has p (page ∷ xs) ≡ true = rw (d, e) at h in ground (arith, k)
  | inr there ↦ rw there h
]

module _ {s : MemoryPool} {held : List ℕ} {pc : ℕ → Pc} {free : ℕ → List ℕ} {place : ℕ → Place}
    (inv : Inv s held pc free place) (t : ℕ) where
  -- What the locals of the thread say, and the page that it has.
  pub own-IsFresh : {p : Pc} → pc t ≡ p → IsFresh s.num_pools s.next free p
  own-IsFresh e = rw e at (inv.fresh t)

  pub own_page : {p : Pc} → pc t ≡ p → owned (pc t) ≡ owned p
  own_page e = ap owned e

  -- Pages other than `page` stay where they are.
  keeps :
      {p : Pc} (p' : Pc) (page : ℕ) (free' : ℕ → List ℕ) (held' : List ℕ)
      → pc t ≡ p
      → ((i q : ℕ) → q ≢ page → has q (free i) ≡ true → has q (free' i) ≡ true)
      → ((q : ℕ) → q ≢ page → has q held ≡ true → has q held' ≡ true)
      → ((q : ℕ) → q ≢ page → q ≢ null → owned p ≡ q → owned p' ≡ q)
      → Keeps s.num_pools free free' held held' pc (update pc t p') page
  keeps p' page free' held' e kf kh own = record {
    keeps_free = kf;
    keeps_held = kh;
    keeps_owned = owned-update pc t p' page e own;
  }

  -- A thread whose page does not change moves no page.
  still :
      {p : Pc} (p' : Pc)
      → pc t ≡ p
      → owned p' ≡ owned p
      → (q : ℕ) → q ≢ null
      → IsAt s.num_pools free held pc (place q) q
      → IsAt s.num_pools free held (update pc t p') (place q) q
  still p' e same =
      IsAt-still s.num_pools free free held held pc (update pc t p') place
        (keeps p' null free held e (λ i q ne h. h) (λ q ne h. h) (λ q ne real h. same ∙ h))

  moved :
      {p : Pc} (p' : Pc) (page : ℕ) (x : Place) (free' : ℕ → List ℕ) (held' : List ℕ)
      → pc t ≡ p
      → ((i q : ℕ) → q ≢ page → has q (free i) ≡ true → has q (free' i) ≡ true)
      → ((q : ℕ) → q ≢ page → has q held ≡ true → has q held' ≡ true)
      → ((q : ℕ) → q ≢ page → q ≢ null → owned p ≡ q → owned p' ≡ q)
      → IsAt s.num_pools free' held' (update pc t p') x page
      → (q : ℕ) → q ≢ null
      → IsAt s.num_pools free held pc (place q) q
      → IsAt s.num_pools free' held' (update pc t p') (update place page x q) q
  moved p' page x free' held' e kf kh own =
      IsAt-moved s.num_pools free free' held held' pc (update pc t p') place page x
        (keeps p' page free' held' e kf kh own)

  quiet :
      {p : Pc} (p' : Pc) (counts : ℕ → ℕ)
      → pc t ≡ p
      → owned p' ≡ owned p
      → IsFresh s.num_pools s.next free p'
      → IsSound s.num_pools free held pc place
          (popping p)
          (λ j. 0)
          (λ j. 0)
          (record s { local_remain_pages = counts })
          held
          (update pc t p')
  quiet p' counts e same f = (
    free,
    place,
    quiet-Inv inv t p' counts (rw e same) f,
    λ i q ne h. h,
    still p' e same,
    λ j. refl,
  )

  pub Move-IsSound :
      {s' : MemoryPool} {held' : List ℕ} {p p' : Pc} (mv : Move s held p s' held' p')
      → pc t ≡ p
      → IsUnhurried pc mv
      → IsSound s.num_pools free held pc place
          (popping p)
          (taken mv)
          (given mv)
          s'
          held'
          (update pc t p')
  Move-IsSound (allocate thread_hash) e u = quiet _ _ e refl (mod-lt _ inv.some_pool)
  Move-IsSound (head_null h) e u = quiet _ _ e refl tt
  Move-IsSound (head_page h real) e u = quiet _ _ e refl (own-IsFresh e, real)
  Move-IsSound next_read e u = let f = own-IsFresh e in quiet _ _ e refl (f.0, f.1, λ _. refl)
  Move-IsSound (popped {i} {page} {next} h) e u =
      let (lt, real, link) = own-IsFresh e in
      let c = Chain-first s.next page (free i) real (rw h at (inv.chains i lt)) in
      let was_free : has page (free i) ≡ true = ap (has page) c.0 ∙ ground arith in
      (
        _,
        _,
        popped-Inv inv t page real i next (tail (free i)) lt (own_page e) c.0
            (rw (link was_free) at c.1),
        λ j p ne f. still_there free page i (tail (free i)) j p c.0 ne f,
        moved (count_down i page) page (with_thread t) _ held e
            (λ j p ne f. still_there free page i (tail (free i)) j p c.0 ne f) (λ q ne h. h)
            (λ q ne real h. absurd (real (sym h))) (ground arith),
        λ j. length-popped free page i j (tail (free i)) c.0,
      )
  Move-IsSound pop_failed e u = let f = own-IsFresh e in quiet _ _ e refl f.0
  Move-IsSound (returned {i} {page} real) e u = (
    _,
    _,
    returned-Inv inv t page real (own_page e) _,
    λ i p ne h. h,
    moved idle page kept free (page ∷ held) e (λ i q ne h. h) (λ q ne h. ground arith)
        (λ q ne real h. absurd (ne (sym h))) (ground arith),
    λ j. refl,
  )
  Move-IsSound search_pools e u = quiet _ _ e refl inv.some_pool
  Move-IsSound (scan_more {k} lt more) e u = quiet _ _ e refl lt
  Move-IsSound (scan_less lt less) e u = quiet _ _ e refl (own-IsFresh e)
  Move-IsSound raised e u = quiet _ _ e refl (own-IsFresh e)
  Move-IsSound (retry done) e u = quiet _ _ e refl (own-IsFresh e)
  Move-IsSound (returned_null done) e u = quiet _ _ e refl tt
  Move-IsSound (deallocate {ptr} given) e u = (
    _,
    _,
    deallocate-Inv inv t ptr (λ n. ground (arith, inv.null_held)) (own_page e) given,
    λ i p ne h. h,
    moved (free_load ptr) ptr (with_thread t) free (without ptr held) e (λ i q ne h. h)
        (λ q ne h. has-without_keep ptr q held ne h) (λ q ne real h. absurd (real (sym h)))
        (ground arith),
    λ j. refl,
  )
  Move-IsSound (used page value given) e u = (
    _,
    _,
    used-Inv inv t page (λ n. ground (arith, inv.null_held)) value (own_page e) given,
    λ i p ne h. h,
    still idle e refl,
    λ j. refl,
  )
  Move-IsSound deallocate_null e u = quiet _ _ e refl tt
  Move-IsSound expected_read e u = quiet _ _ e refl (own-IsFresh e)
  Move-IsSound (stored {ptr} {expected}) e u = (
    _,
    _,
    stored-Inv inv t ptr (own-IsFresh e) (own_page e) expected,
    λ i p ne h. h,
    still (push ptr expected) e refl,
    λ j. refl,
  )
  Move-IsSound (pushed {ptr} {expected} same) e u =
      let (real, link) = own-IsFresh e in
      (
        _,
        _,
        pushed-Inv inv t ptr real expected (own_page e) link same u,
        λ i p ne h. ground arith,
        moved (count_up (home s ptr)) ptr (freed (home s ptr)) _ held e (λ i q ne h. ground arith)
            (λ q ne h. h) (λ q ne real h. absurd (ne (sym h)))
            (mod-lt _ inv.some_pool, ground arith),
        λ j. ground arith,
      )
  Move-IsSound push_failed e u = let f = own-IsFresh e in quiet _ _ e refl f.0
  Move-IsSound counted_up e u = quiet _ _ e refl tt
