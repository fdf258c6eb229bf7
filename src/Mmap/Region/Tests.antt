-- ===== src/Mmap/Region/Tests.antt =====
-- A mapping of a file, and the attempt to take it away.
use user_level_mmap.Base.{
  ℕ, ◌%◌, ◌≡◌, ◌≢◌, refl, true, false, none, some, [], ◌∷◌, ◌==◌, if◌then◌else◌,
}
use user_level_mmap.Ptedit.UserMap.{user_map}
use user_level_mmap.Ptedit.Fixture.{machine, five_machine}
use user_level_mmap.Mmap.Fault.{PfhandleArgs, Process}
use user_level_mmap.Mmap.Region.Reads.{Reads}
use user_level_mmap.Mmap.Region.{
  init_ptedit, use_user_implementation, map_anonymous, register_missing, start_handler, Library,
  Replies, gives, ul_mmap, ul_munmap,
}
use user_level_mmap.Mmap.Region.Unmap.{ul_munmap-ul_mmap}

abbrev file : (fd position : ℕ) → ℕ
file fd position = position % 256

abbrev lib : Library
lib = record { pteditor_init_flag = false; mmap_regions = λ _. none; requests = [] }

abbrev replies : Replies
replies = record {
  init_failed = false;
  mmap_addr = 0x7000;
  new_uffd = some 4;
  api_failed = false;
  register_failed = false;
  dup = some 9;
}

-- The library after `ul_mmap` at no particular address, of 8192 bytes of the file 3.
abbrev mapped_args : PfhandleArgs
mapped_args = record {
  uffd = 4;
  fd = some 9;
  offset = 0;
  base_addr = 0x7000;
  finish = false;
  fault_cnt = 0;
}

abbrev mapped_lib : Library
mapped_lib = record {
  pteditor_init_flag = true;
  mmap_regions = λ a. if 0x7000 == a then some mapped_args else none;
  requests =
      start_handler mapped_args
      ∷ register_missing 4 0x7000 8192
      ∷ map_anonymous 0 8192 3 0
      ∷ use_user_implementation
      ∷ init_ptedit
      ∷ [];
}

mapped_run : ul_mmap replies lib 0 8192 3 2 (some 3) 0 ≡ some (0x7000, mapped_lib)
unfolding ul_mmap
mapped_run = refl

abbrev process : Process user_map
process = record { tables = machine; bytes = λ _. 0; woken = [] }

unmap_nothing : ul_munmap user_map file lib 0x7000 8192 [] process ≡ gives 0 lib
unfolding ul_munmap
unmap_nothing = refl

ul_munmap-ul_mmap_example : ul_munmap user_map file mapped_lib 0x7000 8192 [] process ≢ gives 0 lib
ul_munmap-ul_mmap_example =
    ul_munmap-ul_mmap user_map file replies lib mapped_lib lib 0 8192 3 2 (some 3) 0 0x7000 0 []
      process mapped_run

-- The same call with the address 0x2000 and the offset 0x6000, and faults in the second and the
-- first page of the region.
abbrev low_args : PfhandleArgs
low_args = record mapped_args { base_addr = 0x2000; offset = 0x6000 }

abbrev low_lib : Library
low_lib = record {
  pteditor_init_flag = true;
  mmap_regions = λ a. if 0x2000 == a then some low_args else none;
  requests =
      start_handler low_args
      ∷ register_missing 4 0x2000 8192
      ∷ map_anonymous 0 8192 3 0x6000
      ∷ use_user_implementation
      ∷ init_ptedit
      ∷ [];
}

abbrev five_process : Process user_map
five_process = record { tables = five_machine; bytes = λ _. 0; woken = [] }
