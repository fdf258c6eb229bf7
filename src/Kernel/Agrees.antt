-- ===== src/Kernel/Agrees.antt =====
-- The two ways to resolve an address, `ptedit_resolve_kernel` and `ptedit_resolve_user_map`, on the
-- same tables of four levels: what is assumed of the kernel and of the tables, and when two entries
-- agree.
pub mod Equal
mod Tests
use user_level_mmap.Base.{
  ℕ, ◌+◌, ◌*◌, ◌/◌, ◌%◌, ◌^◌, ◌<◌, ◌≡◌, ◌≢◌, ◌⊎◌, bit_and, inl, inr, refl, sym, ap, ◌∙◌, arith,
  Bool, true, false, ◌||◌, not, ◌==◌, ne→==, Option, none, some, List, [], ◌∷◌, if◌then◌else◌,
  Bool-cases,
}
use user_level_mmap.Ptedit.Entry.{
  not64, pfn_mask, Entry, present, size, pfn, get_pfn, test, valid_mask_pte,
}
use user_level_mmap.Ptedit.Walk.{
  x86_64_paging, Machine, root_slot, slot, clean_root, pgdi, pudi, pmdi, pti, resolve_user_map,
}
use user_level_mmap.Ptedit.Walk.Spec.{walk, indices}
use user_level_mmap.Ptedit.Walk.Frame.{get_pfn-pfn, clean_root-eq}
use user_level_mmap.Ptedit.Walk.Resolve.{IsResolved, resolve_user_map-walk, resolve_user_map-words}
use user_level_mmap.Kernel.{
  Linux, Module, VmT, get_mm, resolve_pgd, resolve_p4d, resolve_pud, resolve_pmd, resolve_pte,
  resolve_vm, vm_to_user,
}
use user_level_mmap.Kernel.Run.{cleared, found, resolve_vm-some}
use user_level_mmap.Kernel.Device.{vm_resolve, device_ioctl}
use user_level_mmap.Kernel.Implementation.{query, resolve_kernel}

-- Besides the frame number, the word has only the flags PRESENT, RW, USER, ACCESSED and DIRTY, which
-- the kernel gives the entries that lead to tables, and NX if page-table isolation sets it in the
-- entries of the top level.
abbrev pub IsTable : (isolated : Bool) → ℕ → Type 0
IsTable isolated w = bit_and w (not64 (pfn_mask + 0x67 + (if isolated then 2 ^ 63 else 0))) ≡ 0

-- The functions of the kernel for four levels on x86_64: tables are reached through the mapping of
-- physical memory, which has room for 64 TiB, the P4D is folded into the PGD, an entry of zeros is
-- none and a present one is not; a present word of the P4D with no flags but those of a table is not
-- bad; where a word maps no large page, the table below it is at its frame; and a present word tells
-- by its bit 7 whether it maps a large page.
pub record IsFourLevel (k : Linux) : Type 0 where
  pub isolated : Bool
  pub mapped : (p : ℕ) → p < 2 ^ 46 → k.phys_to_virt p ≢ 0
  pub pgd_at :
      (root addr : ℕ)
      → k.pgd_offset (k.phys_to_virt root) addr
        ≡ k.phys_to_virt (root_slot root (pgdi x86_64_paging addr))
  pub p4d_at : (place word addr : ℕ) → k.p4d_offset place word addr ≡ place
  pub pud_at :
      (place word addr : ℕ)
      → IsTable isolated word
      → k.pud_offset place word addr
        ≡ k.phys_to_virt (root_slot (get_pfn word * 4096) (pudi x86_64_paging addr))
  pub pmd_at :
      (place word addr : ℕ)
      → size word ≡ 0
      → k.pmd_offset place word addr
        ≡ k.phys_to_virt (root_slot (get_pfn word * 4096) (pmdi x86_64_paging addr))
  pub pte_at :
      (place word addr : ℕ)
      → size word ≡ 0
      → k.pte_offset_map place word addr
        ≡ k.phys_to_virt (root_slot (get_pfn word * 4096) (pti x86_64_paging addr))
  pub pgd_folded : (w : ℕ) → (k.pgd_none w ≡ false) × (k.pgd_bad w ≡ false)
  pub p4d_zero : k.p4d_none 0 ≡ true
  pub pud_zero : k.pud_none 0 ≡ true
  pub pmd_zero : k.pmd_none 0 ≡ true
  pub p4d_present :
      (w : ℕ) → present w ≡ 1 → IsTable isolated w → (k.p4d_none w ≡ false) × (k.p4d_bad w ≡ false)
  pub pud_present :
      (w : ℕ) → present w ≡ 1 → (k.pud_none w ≡ false) × (k.pud_large w ≡ (size w == 1))
  pub pmd_present :
      (w : ℕ) → present w ≡ 1 → (k.pmd_none w ≡ false) × (k.pmd_large w ≡ (size w == 1))

-- The entries above the last level on the way of the indices are zero, or present with a frame number
-- of 28 bits; the one of the top level has no flags but those of a table, and one of the PUD maps no
-- large page.
abbrev pub IsClean : (isolated : Bool) → (ℕ → ℕ) → ℕ → List ℕ → Type 0
IsClean isolated mem base [] = Unit
IsClean isolated mem base (l ∷ []) = Unit
IsClean isolated mem base (k ∷ l ∷ []) =
    let e = mem (root_slot base k) in (e ≡ 0) ⊎ ((present e ≡ 1) × (get_pfn e < 2 ^ 28))
IsClean isolated mem base (j ∷ k ∷ l ∷ []) =
    let e = mem (root_slot base j) in
    (e ≡ 0)
    ⊎ ((present e ≡ 1)
        × (get_pfn e < 2 ^ 28)
        × (size e ≡ 0)
        × IsClean isolated mem (pfn e * 4096) (k ∷ l ∷ []))
IsClean isolated mem base (i ∷ j ∷ k ∷ l ∷ is) =
    let e = mem (root_slot base i) in
    (e ≡ 0)
    ⊎ ((present e ≡ 1)
        × (get_pfn e < 2 ^ 28)
        × IsTable isolated e
        × IsClean isolated mem (pfn e * 4096) (j ∷ k ∷ l ∷ is))

-- The PTE is valid in both entries or in neither; and if it is, all words are the same.
abbrev pub Agrees : Option ℕ → (kernel user : Entry) → Type 0
Agrees none kernel user =
    (test kernel.valid valid_mask_pte ≡ false) × (test user.valid valid_mask_pte ≡ false)
Agrees (some place) kernel user =
    (test kernel.valid valid_mask_pte ≡ true)
    × (test user.valid valid_mask_pte ≡ true)
    × (kernel.pgd ≡ user.pgd)
    × (kernel.p4d ≡ user.p4d)
    × (kernel.pud ≡ user.pud)
    × (kernel.pmd ≡ user.pmd)
    × (kernel.pte ≡ user.pte)
