-- ===== src/Cache/Program.antt =====
-- `main` of experiments/neovmcache_vs_vmcache.cc: the mappings, the table, and the three tests.
use user_level_mmap.Base.{
  ℕ, zero, suc, ◌+◌, ◌*◌, ◌%◌, ◌^◌, ◌≤◌, ◌<◌, ◌≡◌, ◌≢◌, refl, ap, Bool, Bool-cases, inl, inr, false,
  ◌&&◌, not, Option, none, some, arith, ◌==◌, ne→==, if◌then◌else◌, update,
}
use user_level_mmap.Mmap.Region.{map_failed}
use user_level_mmap.Cache.{
  page_size, num_pages, default_generator, Cache, vmcache, hash, neovmcache, finished, aborted,
  stuck, TestEnd, perform_test, is_evicted, is_unlocked,
}
use user_level_mmap.Cache.Managers.{
  IsFree, StatesReady, TagsReady, PagesReady, vmcache-IsManager, hash-IsManager,
  neovmcache-IsManager,
}
use user_level_mmap.Cache.Timing.{plain_loop, perform_test-plain_loop}
use user_level_mmap.Cache.DataFile.{FileReplies, check_data_file}

-- What the calls reply. The descriptor from `check_data_file` goes to the third `mmap` unchecked.
pub record MainReplies : Type 0 where
  pub state_mmap : ℕ
  pub tags_mmap : ℕ
  pub virt_mmap : (fd : Option ℕ) → ℕ
  pub madvise_failed : Bool
  pub mlock_failed : Bool
  pub data_file : FileReplies

-- How the program ends; `bad_access` is an access through MAP_FAILED.
pub data MainEnd : Type 0 where
  returned_zero : Cache → MainEnd
  returned_error exit_failure bad_access assert_failed endless : MainEnd

-- The loop that fills the table.
pub fill_table : (left i virt_mem : ℕ) → (ℕ → Option ℕ) → ℕ → Option ℕ
fill_table zero i virt_mem table = table
fill_table (suc left) i virt_mem table =
    fill_table left (i + 1) virt_mem
      (update table i (some ((virt_mem + page_size * i % 2 ^ 64) % 2 ^ 64)))

-- The variables before the first test; the pages from `mmap` without a file are zero, and `word`
-- are the words of the mapped file.
unfoldable pub initial : (virt_mem : ℕ) → (word : ℕ → ℕ) → Cache
initial virt_mem word = record {
  state = λ pid. 0;
  buf_tags = λ pid. 0;
  buf_table = fill_table num_pages 0 virt_mem (λ pid. none);
  virt_mem = virt_mem;
  word = word;
  acc = 0;
}

-- The rest of `main` after a test.
pub after_test : TestEnd → (Cache → MainEnd) → MainEnd
after_test (finished g c) rest = rest c
after_test aborted rest = assert_failed
after_test stuck rest = endless

-- The three tests, of `n` rounds each.
pub three_tests : (fuel n : ℕ) → Cache → MainEnd
three_tests fuel n c = after_test (perform_test (hash fuel) n c) λ c1.
    after_test (perform_test (vmcache fuel) n c1)
      λ c2. after_test (perform_test (neovmcache fuel) n c2) returned_zero

-- The test after the `mmap` of `buf_tags` looks at `state` again.
pub main : (fuel n : ℕ) → MainReplies → (word : ℕ → ℕ) → MainEnd
main fuel n r word =
    let fd = (check_data_file r.data_file).0 in
    let virt_mem = r.virt_mmap fd in
    let tests = three_tests fuel n (initial virt_mem word) in
    if r.state_mmap == map_failed
    then exit_failure
    else (if r.state_mmap == map_failed
        then exit_failure
        else (if virt_mem == map_failed
            then returned_error
            else (if r.madvise_failed
                then returned_error
                else (if r.mlock_failed
                    then returned_error
                    else (if r.tags_mmap == map_failed && not (n == 0)
                        then bad_access
                        else tests)))))

fill_table-at :
    (left i virt_mem pid : ℕ) (table : ℕ → Option ℕ)
    → virt_mem + (i + left) * page_size ≤ 2 ^ 64
    → pid < i + left
    → (pid < i → table pid ≡ some (virt_mem + pid * page_size))
    → fill_table left i virt_mem table pid ≡ some (virt_mem + pid * page_size)
unfolding fill_table
fill_table-at zero i virt_mem pid table fits lt before = before (omega arith)
fill_table-at (suc left) i virt_mem pid table fits lt before =
    fill_table-at left (i + 1) virt_mem pid _ (omega arith) (omega arith) λ lt'.
      elim (Bool-cases (i == pid)) [
        | inl here ↦ let e : i ≡ pid = ground arith in rw here (ap some (omega (arith, e)))
        | inr there ↦
            let ne : i ≢ pid = ground arith in
            rw there (before (omega (arith, lt', λ (q : i ≡ pid). ne q)))
      ]

-- The pages lie in the address space, and each of them has a free state and then a zero.
pub record IsPaged (virt_mem : ℕ) (word : ℕ → ℕ) : Type 0 where
  pub fits : virt_mem + num_pages * page_size ≤ 2 ^ 64
  pub free :
      (pid : ℕ)
      → pid < num_pages
      → IsFree (word (virt_mem + pid * page_size)) × (word (virt_mem + pid * page_size + 8) ≡ 0)

initial-TagsReady :
    (virt_mem : ℕ) (word : ℕ → ℕ) → IsPaged virt_mem word → TagsReady (initial virt_mem word)
unfolding initial is_evicted is_unlocked
initial-TagsReady virt_mem word paged pid lt = (
  (refl, refl),
  fill_table-at num_pages 0 virt_mem pid (λ pid. none) paged.fits lt (λ h. absurd (omega arith)),
)

initial-StatesReady :
    (virt_mem : ℕ) (word : ℕ → ℕ) → IsPaged virt_mem word → StatesReady (initial virt_mem word)
unfolding initial is_evicted is_unlocked
initial-StatesReady virt_mem word paged = (paged.fits, λ pid lt. (refl, refl))

initial-PagesReady :
    (virt_mem : ℕ) (word : ℕ → ℕ) → IsPaged virt_mem word → PagesReady (initial virt_mem word)
unfolding initial
initial-PagesReady virt_mem word paged = (paged.fits, paged.free)

-- The data after `k` tests.
abbrev pub plain_test : (n : ℕ) → Cache → Cache
plain_test n c = (plain_loop n default_generator c).1

module _ (fuel n : ℕ) (c : Cache) where
  three_tests-plain_test :
      TagsReady c
      → StatesReady c
      → PagesReady c
      → three_tests (suc fuel) n c ≡ returned_zero (plain_test n (plain_test n (plain_test n c)))
  unfolding three_tests after_test
  three_tests-plain_test tags states ready =
      let c1 = plain_test n c in
      let (run1, tags1) =
        perform_test-plain_loop (hash (suc fuel)) TagsReady (hash-IsManager fuel) n c tags in
      let states1 =
        (perform_test-plain_loop (vmcache (suc fuel)) StatesReady (vmcache-IsManager fuel) n c
          states).1 in
      let ready1 =
        (perform_test-plain_loop (neovmcache (suc fuel)) PagesReady (neovmcache-IsManager fuel) n c
          ready).1 in
      let (run2, states2) =
        perform_test-plain_loop (vmcache (suc fuel)) StatesReady (vmcache-IsManager fuel) n c1
          states1 in
      let ready2 =
        (perform_test-plain_loop (neovmcache (suc fuel)) PagesReady (neovmcache-IsManager fuel) n c1
          ready1).1 in
      let (run3, ready3) =
        perform_test-plain_loop (neovmcache (suc fuel)) PagesReady (neovmcache-IsManager fuel) n
          (plain_test n c1) ready2 in
      rw (run1, run2, run3)

-- The calls that `main` makes succeed.
pub record IsGranted (r : MainReplies) (virt_mem : ℕ) : Type 0 where
  pub states : r.state_mmap ≢ map_failed
  pub tags : r.tags_mmap ≢ map_failed
  pub mapped : r.virt_mmap (check_data_file r.data_file).0 ≡ virt_mem
  pub real : virt_mem ≢ map_failed
  pub advised : r.madvise_failed ≡ false
  pub locked : r.mlock_failed ≡ false

-- When the calls of `main` succeed, and each of the pages of the mapped file starts with a state
-- that is neither evicted nor locked and a zero, all three tests come to their end, with the sum and
-- the data that three runs of the loop without any locking give, and every state and tag is as it
-- was before the first one.
pub main-returned_zero :
    (fuel n virt_mem : ℕ) (r : MainReplies) (word : ℕ → ℕ)
    → IsGranted r virt_mem
    → IsPaged virt_mem word
    → main (suc fuel) n r word
      ≡ returned_zero (plain_test n (plain_test n (plain_test n (initial virt_mem word))))
unfolding main
main-returned_zero fuel n virt_mem r word ok paged =
    rw (ne→== _ _ ok.states, ok.mapped, ne→== _ _ ok.real, ok.advised, ok.locked, ne→== _ _ ok.tags)
      (three_tests-plain_test fuel n (initial virt_mem word) (initial-TagsReady virt_mem word paged)
        (initial-StatesReady virt_mem word paged) (initial-PagesReady virt_mem word paged))
