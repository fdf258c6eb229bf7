-- ===== src/Ptedit/PteOps.antt =====
-- The functions of PTEditor/ptedit.c that read and change the PTE of an address, over either
-- implementation of `ptedit_resolve` and `ptedit_update`.
pub mod Laws
mod Tests
use user_level_mmap.Base.{ℕ, Bool, not, if◌then◌else◌}
use user_level_mmap.Ptedit.Entry.{
  Entry, test, valid_mask_pte, set_pfn, get_pfn, entry_set_bit, entry_clear_bit, entry_get_bit,
}
use user_level_mmap.Ptedit.Interface.{Implementation}

-- `vm` with a new word for the PTE, and marked so that nothing else is updated.
abbrev pub with_pte : Entry → ℕ → Entry
with_pte vm word = record vm { pte = word; valid = valid_mask_pte }

module _ (impl : Implementation) (address pid : ℕ) where
  open impl use {State, resolve, update}

  pub pte_set_bit : (bit : ℕ) → State → State
  pte_set_bit bit s =
      let vm = resolve address pid s in
      if not (test vm.valid valid_mask_pte)
      then s
      else update address pid (with_pte vm (entry_set_bit vm.pte bit)) s

  unfoldable pub pte_clear_bit : (bit : ℕ) → State → State
  pte_clear_bit bit s =
      let vm = resolve address pid s in
      if not (test vm.valid valid_mask_pte)
      then s
      else update address pid (with_pte vm (entry_clear_bit vm.pte bit)) s

  unfoldable pub pte_get_bit : (bit : ℕ) → State → Bool
  pte_get_bit bit s = entry_get_bit (resolve address pid s).pte bit

  unfoldable pub pte_get_pfn : State → ℕ
  pte_get_pfn s =
      let vm = resolve address pid s in
      if not (test vm.valid valid_mask_pte) then 0 else get_pfn vm.pte

  pub pte_set_pfn : (frame : ℕ) → State → State
  pte_set_pfn frame s =
      let vm = resolve address pid s in
      if not (test vm.valid valid_mask_pte)
      then s
      else update address pid (with_pte vm (set_pfn vm.pte frame)) s
