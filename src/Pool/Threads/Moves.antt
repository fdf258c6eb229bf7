-- ===== src/Pool/Threads/Moves.antt =====
-- The steps that move a page from one place to another.
use native.Mathlib.Nat.{mod-lt}
use user_level_mmap.Base.{
  ℕ, ◌<◌, ◌≡◌, ◌≢◌, refl, sym, ◌∙◌, true, false, List, [], ◌∷◌, ◌⊎◌, inl, inr, arith, ◌==◌,
  Bool-cases, update, has, Distinct,
}
use user_level_mmap.Pool.{null, MemoryPool, home}
use user_level_mmap.Pool.Invariant.{Chain, Chain-update}
use user_level_mmap.Pool.Threads.{
  Pc, idle, pop, count_down, free_load, push, count_up, without, set_head, set_next,
}
use user_level_mmap.Pool.Threads.Invariant.{Place, freed, kept, with_thread, owned, IsFresh, Inv}
use user_level_mmap.Pool.Threads.Quiet.{
  has-without, has-without_ne, Distinct-without, thread_at-update, IsFresh-update, IsFresh-other,
}

abbrev pub tail : List ℕ → List ℕ
tail [] = []
tail (x ∷ xs) = xs

-- A list whose chain starts at a page has that page in front.
pub Chain-first :
    (next : ℕ → ℕ) (p : ℕ) (xs : List ℕ)
    → p ≢ null
    → Chain next p xs
    → (xs ≡ p ∷ tail xs) × Chain next (next p) (tail xs)
Chain-first next p [] real c = absurd (real c)
Chain-first next p (x ∷ xs) real (e, ne, c) = (λ k. sym e k ∷ xs, rw e c)

module _ {s : MemoryPool} {held : List ℕ} {pc : ℕ → Pc} {free : ℕ → List ℕ} {place : ℕ → Place}
    (inv : Inv s held pc free place) (t page : ℕ) (real : page ≢ null) where
  open inv use {freed_at, kept_at, thread_at}

  -- The link of a page changes that is in no list and with no other thread.
  linked-Inv :
      (v : ℕ) (p : Pc)
      → ((i : ℕ) → i < s.num_pools → has page (free i) ≡ false)
      → ((u : ℕ) → t ≢ u → owned (pc u) ≢ page)
      → owned p ≡ owned (pc t)
      → IsFresh s.num_pools (update s.next page v) free p
      → Inv (set_next s page v) held (update pc t p) free place
  linked-Inv v p out other same own = record {
    some_pool = inv.some_pool;
    chains =
        λ i lt. Chain-update s.next page v (s.local_pools i) (free i) (out i lt) (inv.chains i lt);
    homes = inv.homes;
    distinct = inv.distinct;
    distinct_held = inv.distinct_held;
    null_held = inv.null_held;
    freed_at = freed_at;
    kept_at = kept_at;
    thread_at = thread_at-update pc place t p (λ u ne. thread_at u) (rw same (thread_at t));
    fresh =
        IsFresh-update s.num_pools (update s.next page v) free pc t p
          (λ u ne.
            IsFresh-other s.num_pools s.next _ free free (pc u)
              (λ i q a e lt h. (h, ground (arith, out i lt))) (λ q e f. ground (arith, other u ne))
              (inv.fresh u))
          own;
  }

  -- A page of a thread is in no list.
  module _ (own : owned (pc t) ≡ page) where
    mine : place page ≡ with_thread t
    mine = ground (arith, thread_at t)

    pub not_free : (i : ℕ) → i < s.num_pools → has page (free i) ≡ false
    not_free i lt = ground (arith, mine, freed_at i page lt)

    not_held : has page held ≡ false
    not_held = ground (arith, mine, kept_at page)

    other : (u : ℕ) → t ≢ u → owned (pc u) ≢ page
    other u ne e = ground (arith, mine, thread_at u)

    -- The page goes to the callers.
    pub returned-Inv :
        (counts : ℕ → ℕ)
        → Inv
            (record s { local_remain_pages = counts })
            (page ∷ held)
            (update pc t idle)
            free
            (update place page kept)
    returned-Inv counts = record {
      some_pool = inv.some_pool;
      chains = inv.chains;
      homes = inv.homes;
      distinct = inv.distinct;
      distinct_held = (not_held, inv.distinct_held);
      null_held = ground (arith, inv.null_held);
      freed_at = λ i p lt h. ground (arith, freed_at i p lt, not_free i lt);
      kept_at = λ p h. ground (arith, kept_at p);
      thread_at =
          thread_at-update pc (update place page kept) t idle
            (λ u ne own'. ground (arith, other u ne, thread_at u)) (λ own'. absurd (own' refl));
      fresh = IsFresh-update s.num_pools s.next free pc t idle (λ u ne. inv.fresh u) tt;
    }

    pub stored-Inv :
        (expected : ℕ)
        → Inv (set_next s page expected) held (update pc t (push page expected)) free place
    stored-Inv expected =
        linked-Inv expected (push page expected) not_free other (sym own) (real, ground arith)

  -- A page that the callers have is in no list and with no thread, and they may write to it.
  pub used-Inv :
      (value : ℕ)
      → owned (pc t) ≡ null
      → has page held ≡ true
      → Inv (set_next s page value) held (update pc t idle) free place
  used-Inv value none_own given =
      linked-Inv value idle (λ i lt. ground (arith, kept_at page given, freed_at i page lt))
        (λ u ne e. ground (arith, kept_at page given, thread_at u)) (sym none_own) tt

  -- The page leaves the hands of the callers.
  pub deallocate-Inv :
      owned (pc t) ≡ null
      → has page held ≡ true
      → Inv s
          (without page held)
          (update pc t (free_load page))
          free
          (update place page (with_thread t))
  deallocate-Inv none_own given = record {
    some_pool = inv.some_pool;
    chains = inv.chains;
    homes = inv.homes;
    distinct = inv.distinct;
    distinct_held = Distinct-without page held inv.distinct_held;
    null_held = has-without_ne null page held inv.null_held;
    freed_at = λ i p lt h. ground (arith, freed_at i p lt, kept_at page given);
    kept_at = λ p h.
        let k = has-without page p held inv.distinct_held h in ground (arith, kept_at p k.0, k.1);
    thread_at =
        thread_at-update pc (update place page (with_thread t)) t (free_load page)
          (λ u ne own'. ground (arith, kept_at page given, thread_at u)) (λ r. ground arith);
    fresh = IsFresh-update s.num_pools s.next free pc t (free_load page) (λ u ne. inv.fresh u) real;
  }

  -- The page leaves its list.
  module _ (i next : ℕ) (rest : List ℕ) (lt_i : i < s.num_pools) (none_own : owned (pc t) ≡ null)
      (shape : free i ≡ page ∷ rest) (link : Chain s.next next rest) where
    whole : Distinct (page ∷ rest)
    whole = rw shape at (inv.distinct i lt_i)

    was_free : has page (free i) ≡ true
    was_free = rw shape (ground arith)

    still_free : (p : ℕ) → has p rest ≡ true → (has p (free i) ≡ true) × (p ≢ page)
    still_free p h = (rw shape (ground arith), λ e. ground (arith, whole.0))

    at_other : (j p : ℕ) → has p (update free i rest j) ≡ true → has p (free j) ≡ true
    at_other j p h = ground (arith, still_free p)

    pub popped-Inv :
        Inv
          (set_head s i next)
          held
          (update pc t (count_down i page))
          (update free i rest)
          (update place page (with_thread t))
    popped-Inv = record {
      some_pool = inv.some_pool;
      chains = λ j lt. elim (Bool-cases (i == j)) [
        | inl here ↦ rw here link
        | inr there ↦ rw there (inv.chains j lt)
      ];
      homes = λ j p lt h. inv.homes j p lt (at_other j p h);
      distinct = λ j lt. elim (Bool-cases (i == j)) [
        | inl here ↦ rw here whole.1
        | inr there ↦ rw there (inv.distinct j lt)
      ];
      distinct_held = inv.distinct_held;
      null_held = inv.null_held;
      freed_at = λ j p lt h.
          ground
            (arith, freed_at j p lt (at_other j p h), still_free p, freed_at i page lt_i was_free);
      kept_at = λ p h. ground (arith, kept_at p h, freed_at i page lt_i was_free);
      thread_at =
          thread_at-update pc (update place page (with_thread t)) t (count_down i page)
            (λ u ne own'. ground (arith, freed_at i page lt_i was_free, thread_at u))
            (λ r. ground arith);
      fresh =
          IsFresh-update s.num_pools s.next (update free i rest) pc t (count_down i page)
            (λ u ne.
              IsFresh-other s.num_pools s.next s.next free (update free i rest) (pc u)
                (λ j q a e lt h. (at_other j q h, refl)) (λ q e f. refl) (inv.fresh u))
            tt;
    }

  -- The page comes to the front of the list of its home.
  module _ (expected : ℕ) (own : owned (pc t) ≡ page) (link : s.next page ≡ expected)
      (same : s.local_pools (home s page) ≡ expected)
      (unhurried : (u j after : ℕ) → pc u ≢ pop j page after) where
    abbrev at_home : ℕ → List ℕ
    at_home = update free (home s page) (page ∷ free (home s page))

    home_lt : home s page < s.num_pools
    home_lt = mod-lt _ inv.some_pool

    in_front :
        (j p : ℕ)
        → j < s.num_pools
        → has p (at_home j) ≡ true
        → ((p ≡ page) × (j ≡ home s page)) ⊎ ((p ≢ page) × (has p (free j) ≡ true))
    in_front j p lt h = ground (arith, not_free own j lt)

    pub pushed-Inv :
        Inv
          (set_head s (home s page) page)
          held
          (update pc t (count_up (home s page)))
          at_home
          (update place page (freed (home s page)))
    pushed-Inv = record {
      some_pool = inv.some_pool;
      chains = λ j lt. elim (Bool-cases (home s page == j)) [
        | inl here ↦ rw here (refl, real, rw (link ∙ sym same) (inv.chains _ home_lt))
        | inr there ↦ rw there (inv.chains j lt)
      ];
      homes = λ j p lt h. ground (arith, in_front j p lt h, inv.homes j p lt);
      distinct = λ j lt. elim (Bool-cases (home s page == j)) [
        | inl here ↦ rw here (not_free own _ home_lt, inv.distinct _ home_lt)
        | inr there ↦ rw there (inv.distinct j lt)
      ];
      distinct_held = inv.distinct_held;
      null_held = inv.null_held;
      freed_at = λ j p lt h. ground (arith, in_front j p lt h, freed_at j p lt);
      kept_at = λ p h. ground (arith, kept_at p h, not_held own);
      thread_at =
          thread_at-update pc (update place page (freed (home s page))) t (count_up (home s page))
            (λ u ne own'. ground (arith, other own u ne, thread_at u)) (λ r. absurd (r refl));
      fresh =
          IsFresh-update s.num_pools s.next at_home pc t (count_up (home s page))
            (λ u ne.
              IsFresh-other s.num_pools s.next s.next free at_home (pc u)
                (λ j q a e lt h. (ground (arith, in_front j q lt h, unhurried u j a), refl))
                (λ q e f. refl) (inv.fresh u))
            tt;
    }
