-- ===== src/Userfaultfd/Main.antt =====
-- `main` of demos/userfaultfd_demo/userfaultfd_demo.c: the region is set up, then touched.
use user_level_mmap.Base.{
  ℕ, suc, ◌+◌, ◌*◌, ◌%◌, ◌^◌, ◌≤◌, ◌<◌, ◌≡◌, ◌≢◌, ap, ◌∙◌, Bool, true, false, Option, none, some,
  List, [], ◌∷◌, arith, ◌==◌, ne→==, if◌then◌else◌, has,
}
use user_level_mmap.Mmap.Region.{map_failed}
use user_level_mmap.Userfaultfd.{touch}
use user_level_mmap.Userfaultfd.Touch.{touch-has}

-- What the process starts with and what its calls reply; `num_pages` is the argument as a number.
pub record MainReplies : Type 0 where
  pub argc : ℕ
  pub num_pages : ℕ
  pub sysconf : ℕ
  pub uffd : Option ℕ
  pub api_failed : Bool
  pub mmap_addr : ℕ
  pub register_failed : Bool
  pub create_failed : Bool

-- The calls that change the process, with their arguments.
pub data Call : Type 0 where
  map_private : (length : ℕ) → Call
  register_missing : (uffd start len : ℕ) → Call
  create_thread : (uffd : ℕ) → Call

-- How `main` ends: with the calls that it made, the first one first, and the offsets that it read,
-- or before that.
pub data MainEnd : Type 0 where
  exit_success : List Call → (offsets : List ℕ) → MainEnd
  exit_failure endless : MainEnd

-- The loop, after the calls.
pub after_calls : (fuel len : ℕ) → List Call → MainEnd
after_calls fuel len calls = elim (touch fuel len) [
  | none ↦ endless
  | some offsets ↦ exit_success calls offsets
]

-- From the mapping on, with a userfaultfd.
pub map_region : (fuel len uffd : ℕ) → MainReplies → MainEnd
map_region fuel len uffd r =
    let touched =
      after_calls fuel len
        (map_private len ∷ register_missing uffd r.mmap_addr len ∷ create_thread uffd ∷ []) in
    if r.api_failed
    then exit_failure
    else (if r.mmap_addr == map_failed
        then exit_failure
        else (if r.register_failed
            then exit_failure
            else (if r.create_failed then exit_failure else touched)))

pub main : (fuel : ℕ) → MainReplies → MainEnd
main fuel r =
    let len = r.num_pages * r.sysconf % 2 ^ 64 in
    let mapped : MainEnd = elim r.uffd [
      | none ↦ exit_failure
      | some uffd ↦ map_region fuel len uffd r
    ] in
    if r.argc == 2 then mapped else exit_failure

-- There is one argument, the pages have 4096 bytes, and every call succeeds.
pub record IsGranted (r : MainReplies) (uffd : ℕ) : Type 0 where
  pub one_argument : r.argc ≡ 2
  pub pages : r.sysconf ≡ 4096
  pub opened : r.uffd ≡ some uffd
  pub agreed : r.api_failed ≡ false
  pub mapped : r.mmap_addr ≢ map_failed
  pub registered : r.register_failed ≡ false
  pub created : r.create_failed ≡ false

after_calls-eq :
    (fuel len : ℕ) (calls : List Call) (offsets : List ℕ)
    → touch fuel len ≡ some offsets
    → after_calls fuel len calls ≡ exit_success calls offsets
unfolding after_calls
after_calls-eq fuel len calls offsets e = rw (after_calls, e)

main-after_calls :
    (fuel uffd : ℕ) (r : MainReplies)
    → IsGranted r uffd
    → (let len = r.num_pages * r.sysconf % 2 ^ 64 in
        main fuel r
        ≡ after_calls fuel len
            (map_private len ∷ register_missing uffd r.mmap_addr len ∷ create_thread uffd ∷ []))
unfolding main map_region
main-after_calls fuel uffd r ok = rw (
  ok.one_argument,
  ok.opened,
  map_region,
  ok.agreed,
  ne→== _ _ ok.mapped,
  ok.registered,
  ok.created,
)

-- When every call succeeds and pages have 4096 bytes, `main` comes to its end: it has mapped a
-- region of the pages that it was asked for, registered all of it and started the thread, in this
-- order, and then has read at the offset 15 of every page of the region.
pub main-exit_success :
    (r : MainReplies) (uffd : ℕ)
    → IsGranted r uffd
    → r.num_pages * 4096 + 1024 ≤ 2 ^ 64
    → (offsets : List ℕ) × (main (suc (4 * r.num_pages)) r
        ≡ exit_success
            (map_private (r.num_pages * 4096)
              ∷ register_missing uffd r.mmap_addr (r.num_pages * 4096)
              ∷ create_thread uffd
              ∷ [])
            offsets)
      × ((j : ℕ) → j < r.num_pages → has (j * 4096 + 15) offsets ≡ true)
main-exit_success r uffd ok room =
    let (offsets, run, all) = touch-has r.num_pages room in
    let whole : r.num_pages * r.sysconf % 2 ^ 64 ≡ r.num_pages * 4096 =
      ap (λ (x : ℕ). r.num_pages * x % 2 ^ 64) ok.pages ∙ omega (arith, room) in
    let fuel = suc (4 * r.num_pages) in
    (
      offsets,
      main-after_calls fuel uffd r ok
          ∙ ap
              (λ len.
                after_calls fuel len (
                  map_private len
                  ∷ register_missing uffd r.mmap_addr len
                  ∷ create_thread uffd
                  ∷ []))
              whole
          ∙ after_calls-eq fuel (r.num_pages * 4096) _ offsets run,
      all,
    )
