-- ===== src/Demos/MapPt/Slot.antt =====
-- The store of map_pt.c through its own mapping meets the PTE that a walk finds.
use user_level_mmap.Base.{ℕ, ◌/◌, ◌^◌, ◌<◌, ◌≡◌, ap, true, some, arith}
use user_level_mmap.Base.Bits.{bit_and-low}
use user_level_mmap.Ptedit.Walk.{x86_64_paging, slot, pti}
use user_level_mmap.Demos.MapPt.{mapped_entry}

-- It is the place of the entry that the frame of the PMD entry and the index of the address give.
pub mapped_entry-slot :
    (fd target pmd : ℕ)
    → target < 2 ^ 64
    → mapped_entry (some fd) true target pmd ≡ some (slot pmd (pti x86_64_paging target))
unfolding mapped_entry
mapped_entry-slot fd target pmd h =
    rw (bit_and-low 9 (target / 2 ^ 12) (omega arith) (omega arith)) (ap some (omega arith))
