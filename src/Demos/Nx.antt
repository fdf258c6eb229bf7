-- ===== src/Demos/Nx.antt =====
-- PTEditor/demos/nx.c: a parent makes a page of its child executable that is not executable in either.
pub mod Clears
mod Tests
use user_level_mmap.Base.{ℕ, ◌+◌, bit_and, Bool, if◌then◌else◌}
use user_level_mmap.Ptedit.Entry.{u64, not64, page_bit_nx}
use user_level_mmap.Ptedit.Interface.{Implementation}
use user_level_mmap.Ptedit.PteOps.{pte_get_bit, pte_clear_bit}

-- `(void *)((((size_t)nx_function) + 4096) & ~0xfff)`
abbrev pub nx_function_aligned : (nx_function : ℕ) → ℕ
nx_function_aligned nx_function = bit_and (u64 (nx_function + 4096)) (not64 0xfff)

-- How the parent ends: without PTEditor, or with the NX bits that it reads: the child's before and
-- after the change, and its own.
pub data NxEnd (impl : Implementation) : Type 0 where
  not_initialized : NxEnd impl
  done : (child child_cleared own : Bool) → impl.State → NxEnd impl

module _ (impl : Implementation) where
  -- The parent after `fork`; `s` are the tables when the child has its own copy of the page.
  pub nx : (init_failed : Bool) (nx_function pid : ℕ) → impl.State → NxEnd impl
  nx init_failed nx_function pid s =
      let page = nx_function_aligned nx_function in
      let s' = pte_clear_bit impl page pid page_bit_nx s in
      if init_failed
      then not_initialized
      else done (pte_get_bit impl page pid page_bit_nx s) (pte_get_bit impl page pid page_bit_nx s')
          (pte_get_bit impl page 0 page_bit_nx s') s'
