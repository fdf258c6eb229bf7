-- ===== src/Ptedit/PteOps/Tests.antt =====
-- The operations on a PTE at a small page table.
use user_level_mmap.Base.{◌≡◌, false, ◌&&◌, ◌||◌, not, arith, ◌==◌}
use user_level_mmap.Ptedit.Entry.Laws.{in_frame}
use user_level_mmap.Ptedit.UserMap.{user_map, user_map-IsImplementation}
use user_level_mmap.Ptedit.Fixture.{machine, first-HasPte}
use user_level_mmap.Ptedit.PteOps.{
  pte_set_bit, pte_clear_bit, pte_get_bit, pte_get_pfn, pte_set_pfn,
}
use user_level_mmap.Ptedit.PteOps.Laws.{pte_get-after}

pte_get-after_example :
    (pte_get_bit user_map 0x123 0 63 (pte_set_bit user_map 0x123 0 1 machine)
      ≡ ((63 == 1) || pte_get_bit user_map 0x123 0 63 machine))
    × (pte_get_bit user_map 0x123 0 63 (pte_clear_bit user_map 0x123 0 1 machine)
        ≡ (not (63 == 1) && pte_get_bit user_map 0x123 0 63 machine))
    × (pte_get_pfn user_map 0x123 0 (pte_set_pfn user_map 0x123 0 0x77 machine) ≡ 0x77)
    × (in_frame 63 ≡ false
        → pte_get_bit user_map 0x123 0 63 (pte_set_pfn user_map 0x123 0 0x77 machine)
          ≡ pte_get_bit user_map 0x123 0 63 machine)
pte_get-after_example =
    pte_get-after user_map user_map-IsImplementation 0 0x123 machine first-HasPte 1 63 0x77
      (omega arith) (omega arith) (omega arith)
