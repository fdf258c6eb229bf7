-- ===== src/Cache/Timing.antt =====
-- The loop that times a manager does to memory what it would do without one.
use native.Mathlib.Nat.{mod-lt}
use user_level_mmap.Base.{ℕ, zero, suc, ◌%◌, ◌<◌, ◌≡◌, refl, arith}
use user_level_mmap.Cache.{
  num_pages, Generator, default_generator, next, Cache, Manager, use_page, finished, perform_loop,
  perform_test,
}
use user_level_mmap.Cache.Managers.{page_at, IsManager}

-- The rounds of the loop without `fix` and `unfix`: the page of each random number is used.
abbrev pub plain_loop : (n : ℕ) → Generator → Cache → Generator × Cache
plain_loop zero g c = (g, c)
plain_loop (suc n) g c =
    let g' = next g in plain_loop n g' (use_page (page_at c (g'.current % num_pages)) c)

module _ (m : Manager) (Ready : Cache → Type 0) (laws : IsManager m Ready) where
  perform_loop-plain_loop :
      (n : ℕ) (g : Generator) (c : Cache)
      → Ready c
      → (let (g', c') = plain_loop n g c in (perform_loop m n g c ≡ finished g' c') × Ready c')
  unfolding perform_loop
  perform_loop-plain_loop zero g c ready = (refl, ready)
  perform_loop-plain_loop (suc n) g c ready =
      let pid = (next g).current % num_pages in
      let lt : pid < num_pages = mod-lt _ (omega arith) in
      let (c', taken, same) = laws.access pid c lt ready in
      rw (taken, perform_loop, same)
        (perform_loop-plain_loop n (next g) (use_page (page_at c pid) c)
          (laws.still_ready pid c lt ready))

  -- From a cache that is ready for the manager, `performTest` ends after its rounds, with the same
  -- sum, the same data and the same states, tags and table as the loop that uses the pages without
  -- any locking, and the cache is ready again.
  pub perform_test-plain_loop :
      (n : ℕ) (c : Cache)
      → Ready c
      → (let (g', c') = plain_loop n default_generator c in
          (perform_test m n c ≡ finished g' c') × Ready c')
  unfolding perform_test
  perform_test-plain_loop n c ready = perform_loop-plain_loop n default_generator c ready
