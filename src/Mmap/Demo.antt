-- ===== src/Mmap/Demo.antt =====
-- demos/user_level_mmap_demo/simple_mmap.cc: a region without a file is mapped and touched.
use user_level_mmap.Base.{
  ℕ, suc, ◌+◌, ◌*◌, ◌%◌, ◌^◌, ◌≤◌, ◌<◌, ◌≡◌, ◌≢◌, ap, ◌∙◌, true, none, some, List, arith, ◌==◌,
  ne→==, if◌then◌else◌, has,
}
use user_level_mmap.Mmap.Region.{Library, Replies, map_failed, ul_mmap}
use user_level_mmap.Mmap.Region.Map.{Replied, ul_mmap-IsMapped, ul_mmap-returns}
use user_level_mmap.Userfaultfd.{touch}
use user_level_mmap.Userfaultfd.Touch.{touch-has}

-- How the demo ends: after the reads, with a message, or in `ul_mmap`.
pub data DemoEnd : Type 0 where
  exit_success : Library → (addr : ℕ) → (offsets : List ℕ) → DemoEnd
  usage mmap_failed ended_in_ul_mmap endless : DemoEnd

-- The loop, which is that of the other demo.
pub touch_region : (fuel len addr : ℕ) → Library → DemoEnd
touch_region fuel len addr lib = elim (touch fuel len) [
  | none ↦ endless
  | some offsets ↦ exit_success lib addr offsets
]

-- PROT_READ | PROT_WRITE is 3, and MAP_PRIVATE | MAP_ANONYMOUS is 0x22.
pub demo : (fuel argc num_pages : ℕ) → Replies → Library → DemoEnd
demo fuel argc num_pages replies lib =
    let len = num_pages * 4096 % 2 ^ 64 in
    let rest : DemoEnd = elim (ul_mmap replies lib 0 len 3 0x22 none 0) [
      | none ↦ ended_in_ul_mmap
      | some (addr, lib') ↦
          if addr == map_failed then mmap_failed else touch_region fuel len addr lib'
    ] in
    if argc == 2 then rest else usage

touch_region-eq :
    (fuel len len' addr : ℕ) (lib : Library) (offsets : List ℕ)
    → len ≡ len'
    → touch fuel len' ≡ some offsets
    → touch_region fuel len addr lib ≡ exit_success lib addr offsets
unfolding touch_region
touch_region-eq fuel len len' addr lib offsets e run = rw (touch_region, e, run)

demo-touch_region :
    (fuel num_pages addr : ℕ) (replies : Replies) (lib lib' : Library)
    → ul_mmap replies lib 0 (num_pages * 4096 % 2 ^ 64) 3 0x22 none 0 ≡ some (addr, lib')
    → addr ≢ map_failed
    → demo fuel 2 num_pages replies lib ≡ touch_region fuel (num_pages * 4096 % 2 ^ 64) addr lib'
unfolding demo
demo-touch_region fuel num_pages addr replies lib lib' returned real =
    rw (demo, returned, ne→== _ _ real)

-- When every call that `ul_mmap` makes succeeds, the demo comes to its end: the region is registered
-- at the address that the demo got, and the demo has read at the offset 15 of every page of it.
pub demo-exit_success :
    (num_pages : ℕ) (replies : Replies) (lib : Library)
    → Replied replies none
    → num_pages * 4096 + 1024 ≤ 2 ^ 64
    → (lib' : Library) × (offsets : List ℕ) × (demo (suc (4 * num_pages)) 2 num_pages replies lib
        ≡ exit_success lib' replies.mmap_addr offsets)
      × (lib'.mmap_regions replies.mmap_addr ≢ none)
      × ((j : ℕ) → j < num_pages → has (j * 4096 + 15) offsets ≡ true)
demo-exit_success num_pages replies lib ok room =
    let (offsets, run, all) = touch-has num_pages room in
    let len = num_pages * 4096 % 2 ^ 64 in
    let (lib', returned) = ul_mmap-returns replies lib 0 len 3 0x22 none 0 ok in
    let m = (ul_mmap-IsMapped replies lib 0 len 3 0x22 none 0 replies.mmap_addr lib' returned).1 in
    (
      lib',
      offsets,
      demo-touch_region (suc (4 * num_pages)) num_pages replies.mmap_addr replies lib lib' returned
            m.nonfailed
          ∙ touch_region-eq (suc (4 * num_pages)) len (num_pages * 4096) replies.mmap_addr lib'
              offsets (omega (arith, room)) run,
      λ e. ground (arith, ap (λ f. f replies.mmap_addr) m.regions, e),
      all,
    )
