-- ===== src/Ptedit/Walk.antt =====
-- `ptedit_resolve_user_ext` and `ptedit_update_user_ext` of PTEditor/ptedit.c: the walk of the page
-- tables in physical memory and the update of their entries, both from user space.
pub mod Spec
pub mod Frame
pub mod Resolve
pub mod Update
mod Tests
use user_level_mmap.Base.{
  ℕ, ◌+◌, ◌*◌, ◌/◌, ◌%◌, ◌^◌, bit_and, bit_or, Bool, true, false, ◌&&◌, List, ◌∷◌, ◌==◌,
  if◌then◌else◌, update,
}
use user_level_mmap.Ptedit.Entry.{
  u64, not64, Entry, present, size, pfn, page_present, test, valid_mask_pgd, valid_mask_p4d,
  valid_mask_pud, valid_mask_pmd, valid_mask_pte,
}

-- `ptedit_paging_definition_t`
pub record PagingDefinition : Type 0 where
  pub has_pgd : Bool
  pub has_p4d : Bool
  pub has_pud : Bool
  pub has_pmd : Bool
  pub has_pt : Bool
  pub pgd_entries : ℕ
  pub p4d_entries : ℕ
  pub pud_entries : ℕ
  pub pmd_entries : ℕ
  pub pt_entries : ℕ
  pub page_offset : ℕ

-- What `ptedit_init` stores on x86_64.
abbrev pub x86_64_paging : PagingDefinition
x86_64_paging = record {
  has_pgd = true;
  has_p4d = false;
  has_pud = true;
  has_pmd = true;
  has_pt = true;
  pgd_entries = 9;
  p4d_entries = 0;
  pud_entries = 9;
  pmd_entries = 9;
  pt_entries = 9;
  page_offset = 12;
}

-- `ptedit_pfn_multiply` and `ptedit_entry_size`
abbrev pub pfn_multiply : ℕ
pfn_multiply = 4096

abbrev pub entry_size : ℕ
entry_size = 8

-- `(addr >> shift) % (1ull << entries)`
abbrev pub index : (addr shift entries : ℕ) → ℕ
index addr shift entries = addr / 2 ^ shift % 2 ^ entries

module _ (d : PagingDefinition) (addr : ℕ) where
  open d use {pgd_entries, p4d_entries, pud_entries, pmd_entries, pt_entries, page_offset}

  abbrev pub pgdi : ℕ
  pgdi = index addr (page_offset + pt_entries + pmd_entries + pud_entries + p4d_entries) pgd_entries

  abbrev pub p4di : ℕ
  p4di = index addr (page_offset + pt_entries + pmd_entries + pud_entries) p4d_entries

  abbrev pub pudi : ℕ
  pudi = index addr (page_offset + pt_entries + pmd_entries) pud_entries

  abbrev pub pmdi : ℕ
  pmdi = index addr (page_offset + pt_entries) pmd_entries

  abbrev pub pti : ℕ
  pti = index addr page_offset pt_entries

-- The address of an entry in the table whose frame an entry of the level above gives.
abbrev pub slot : (above idx : ℕ) → ℕ
slot above idx = u64 (pfn above * pfn_multiply + idx * entry_size)

-- The address of an entry in the table at the root.
abbrev pub root_slot : (root idx : ℕ) → ℕ
root_slot root idx = u64 (root + idx * entry_size)

-- `root & ~1`
abbrev pub clean_root : ℕ → ℕ
clean_root root = bit_and root (not64 1)

-- The levels of `ptedit_resolve_user_ext`, the last first. `r` is the variable `resolved`, and
-- `deref` the function pointer that reads a word of physical memory.
module _ (d : PagingDefinition) (addr : ℕ) (deref : ℕ → ℕ) where
  unfoldable pub resolve_pte : Entry → Entry
  resolve_pte r =
      if size r.pmd == 0
      then record r { pte = deref (slot r.pmd (pti d addr)); valid = bit_or r.valid valid_mask_pte }
      else r

  unfoldable pub resolve_pmd : Entry → Entry
  resolve_pmd r =
      let pmd_entry = if d.has_pmd then deref (slot r.pud (pmdi d addr)) else r.pud in
      let r' = record r {
        pmd = pmd_entry;
        valid = if d.has_pmd then bit_or r.valid valid_mask_pmd else r.valid;
      } in
      if present pmd_entry == page_present then resolve_pte r' else r'

  unfoldable pub resolve_pud : Entry → Entry
  resolve_pud r =
      let pud_entry = if d.has_pud then deref (slot r.p4d (pudi d addr)) else r.p4d in
      let r' = record r {
        pud = pud_entry;
        valid = if d.has_pud then bit_or r.valid valid_mask_pud else r.valid;
      } in
      if present pud_entry == page_present then resolve_pmd r' else r'

  unfoldable pub resolve_p4d : Entry → Entry
  resolve_p4d r =
      let p4d_entry = if d.has_p4d then deref (slot r.pgd (p4di d addr)) else r.pgd in
      let r' = record r {
        p4d = p4d_entry;
        valid = if d.has_p4d then bit_or r.valid valid_mask_p4d else r.valid;
      } in
      if present p4d_entry == page_present then resolve_pud r' else r'

  -- `paging_root` is the root that the pid selects.
  unfoldable pub resolve_user_ext : (pid paging_root : ℕ) → Entry
  resolve_user_ext pid paging_root =
      let root = clean_root paging_root in
      let resolved : Entry = record {
        pid = pid;
        vaddr = addr;
        pgd = 0;
        p4d = 0;
        pud = 0;
        pmd = 0;
        pte = 0;
        valid = 0;
      } in
      let pgd_entry = deref (root_slot root (pgdi d addr)) in
      if root == 0
      then resolved
      else if present pgd_entry == page_present
      then resolve_p4d (record resolved { pgd = pgd_entry; valid = valid_mask_pgd })
      else resolved

-- What the functions of ptedit.c act on: the words of physical memory, the roots that the kernel
-- module reports for a pid, and the addresses given to the ioctl that flushes the TLB.
pub record Machine : Type 0 where
  pub mem : ℕ → ℕ
  pub paging_root : ℕ → ℕ
  pub flushed : List ℕ

-- `ptedit_phys_write_map`
abbrev pub phys_write : ℕ → ℕ → Machine → Machine
phys_write address value m = record m { mem = update m.mem address value }

unfoldable pub invalidate_tlb : ℕ → Machine → Machine
invalidate_tlb address m = record m { flushed = address ∷ m.flushed }

-- `ptedit_phys_write_t`
abbrev pub PhysWrite : Type 0
PhysWrite = (address value : ℕ) → Machine → Machine

-- `if (wanted) pset(...)`
abbrev pub write_if : PhysWrite → Bool → ℕ → ℕ → Machine → Machine
write_if pset wanted address value m = if wanted then pset address value m else m

-- `(vm->valid & mask) && (current.valid & mask)`
abbrev pub both : Entry → Entry → ℕ → Bool
both vm current mask = test vm.valid mask && test current.valid mask

module _ (d : PagingDefinition) (addr : ℕ) where
  -- `ptedit_resolve_user_map`: the walk through the mapping of physical memory.
  unfoldable pub resolve_user_map : (pid : ℕ) → Machine → Entry
  resolve_user_map pid m = resolve_user_ext d addr m.mem pid (m.paging_root pid)

  -- `resolve` is the function that `ptedit_resolve` points to, and `pset` writes a word.
  unfoldable pub update_user_ext :
      (resolve : (pid : ℕ) → Machine → Entry) → PhysWrite → (pid : ℕ) → Entry → Machine → Machine
  update_user_ext resolve pset pid vm m =
      let current = resolve pid m in
      let root = clean_root (m.paging_root pid) in
      let m1 =
        write_if pset (both vm current valid_mask_pte) (slot current.pmd (pti d addr)) vm.pte m in
      let m2 =
        write_if pset (both vm current valid_mask_pmd && d.has_pmd) (slot current.pud (pmdi d addr))
          vm.pmd m1 in
      let m3 =
        write_if pset (both vm current valid_mask_pud && d.has_pud) (slot current.p4d (pudi d addr))
          vm.pud m2 in
      let m4 =
        write_if pset (both vm current valid_mask_p4d && d.has_p4d) (slot current.pgd (p4di d addr))
          vm.p4d m3 in
      let m5 =
        write_if pset (both vm current valid_mask_pgd && d.has_pgd) (root_slot root (pgdi d addr))
          vm.pgd m4 in
      if root == 0 then m else invalidate_tlb addr m5

  -- `ptedit_update_user_map` flushes once more.
  unfoldable pub update_user_map : (pid : ℕ) → Entry → Machine → Machine
  update_user_map pid vm m =
      invalidate_tlb addr (update_user_ext resolve_user_map phys_write pid vm m)
