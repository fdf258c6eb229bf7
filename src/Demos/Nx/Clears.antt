-- ===== src/Demos/Nx/Clears.antt =====
-- What nx.c reads on tables in mapped physical memory.
use user_level_mmap.Base.{ℕ, ◌≡◌, ◌≢◌, false, has}
use user_level_mmap.Ptedit.Entry.{page_bit_nx}
use user_level_mmap.Ptedit.Walk.{x86_64_paging, clean_root, Machine}
use user_level_mmap.Ptedit.Walk.Spec.{above, indices}
use user_level_mmap.Ptedit.UserMap.{user_map, HasPte}
use user_level_mmap.Ptedit.PteOps.{pte_clear_bit}
use user_level_mmap.Demos.Nx.{nx_function_aligned}

module _ (nx_function pid : ℕ) (m : Machine)
    (child : HasPte pid (nx_function_aligned nx_function) m)
    (own : HasPte 0 (nx_function_aligned nx_function) m) (apart : child.place ≢ own.place)
    (outside : has child.place (
        above m.mem
          (clean_root (m.paging_root 0))
          (indices x86_64_paging (nx_function_aligned nx_function)))
      ≡ false) where
  abbrev page : ℕ
  page = nx_function_aligned nx_function

  abbrev cleared : Machine
  cleared = pte_clear_bit user_map page pid page_bit_nx m
