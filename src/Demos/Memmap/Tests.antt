-- ===== src/Demos/Memmap/Tests.antt =====
-- memmap.c on the tables of the fixture, with two pages.
use user_level_mmap.Base.{◌≡◌, refl, false, ◌==◌, [], ◌∷◌}
use user_level_mmap.Ptedit.Entry.{get_pfn, entry_get_bit}
use user_level_mmap.Ptedit.Fixture.{machine}
use user_level_mmap.Demos.Memmap.{
  System, dumping, pml4, pdpt, pd, pt, small_page, used_memory, main, dump_tables, pt_body, pd_body,
  pdpt_body, pml4_body, for_entries,
}

-- The `pread` of the table below the entry 5 of the PML4 would fail.
abbrev system : System
system = record {
  machine = machine;
  unread = λ path. elim path [ [] ↦ false | i ∷ is ↦ i == 5 ];
  stale = λ path i. 0;
}

main_lines :
    (main system false 7).1
    ≡ used_memory 8
      ∷ small_page 0x1000
      ∷ pt 0x6007
      ∷ small_page 0
      ∷ pt 0x5007
      ∷ pd 0x4001
      ∷ pdpt 0x3001
      ∷ pml4 0x2001
      ∷ dumping 7
      ∷ []
unfolding main dump_tables pt_body pd_body pdpt_body pml4_body for_entries get_pfn entry_get_bit
main_lines = refl
