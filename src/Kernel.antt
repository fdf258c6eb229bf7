-- ===== src/Kernel.antt =====
-- PTEditor/module/pteditor.c, the kernel module behind PTEditor's ioctls, on x86_64 and Linux 5.8 or
-- later. Pointers are numbers and NULL is 0; the words that they lead to are a function.
pub mod Device
pub mod Load
pub mod Run
pub mod Locks
pub mod Busy
pub mod Update
pub mod Implementation
pub mod Agrees
mod Tests
use user_level_mmap.Base.{
  ℕ, bit_or, Bool, true, false, ◌&&◌, ◌||◌, Option, none, some, List, ◌∷◌, ◌==◌, if◌then◌else◌,
  update,
}
use user_level_mmap.Ptedit.Entry.{
  Entry, test, valid_mask_pgd, valid_mask_p4d, valid_mask_pud, valid_mask_pmd, valid_mask_pte,
}

-- What the module uses of the kernel: tasks and their address spaces, where the entry of an address
-- lies in the table that another entry leads to, and the tests on entries.
pub record Linux : Type 0 where
  pub current : ℕ
  pub find_vpid : ℕ → Option ℕ
  pub pid_task : ℕ → Option ℕ
  pub mm : ℕ → Option ℕ
  pub active_mm : ℕ → Option ℕ
  pub pgd_offset : (pgd addr : ℕ) → ℕ
  pub p4d_offset : (place word addr : ℕ) → ℕ
  pub pud_offset : (place word addr : ℕ) → ℕ
  pub pmd_offset : (place word addr : ℕ) → ℕ
  pub pte_offset_map : (place word addr : ℕ) → ℕ
  pub pgd_none : ℕ → Bool
  pub pgd_bad : ℕ → Bool
  pub p4d_none : ℕ → Bool
  pub p4d_bad : ℕ → Bool
  pub pud_none : ℕ → Bool
  pub pud_large : ℕ → Bool
  pub pmd_none : ℕ → Bool
  pub pmd_large : ℕ → Bool
  pub phys_to_virt : ℕ → ℕ
  pub virt_to_phys : ℕ → ℕ

-- The calls that take or give back the lock of an address space, and those that flush the TLB.
pub data Call : Type 0 where
  read_lock read_unlock write_lock write_unlock : (mm : ℕ) → Call
  flush_kernel flush_custom : (addr : ℕ) → Call

-- The module's variables, what it changes outside of them, and the calls, the last one first.
pub record Module : Type 0 where
  pub device_busy : Bool
  pub mm_is_locked : Bool
  pub custom_tlb : Bool
  pub mem : ℕ → ℕ
  pub pgd : (mm : ℕ) → ℕ
  pub pat : ℕ
  pub calls : List Call

-- `vm_t`: the places of the entries.
pub record VmT : Type 0 where
  pub pid : ℕ
  pub pgd : ℕ
  pub p4d : ℕ
  pub pud : ℕ
  pub pmd : ℕ
  pub pte : ℕ
  pub valid : ℕ

-- A call of `mmap_read_lock` and the like.
abbrev pub called : Call → Module → Module
called c s = record s { calls = c ∷ s.calls }

-- `if(lock) ...`
abbrev pub called_if : Bool → Call → Module → Module
called_if lock c s = if lock then called c s else s

module _ (k : Linux) where
  -- `task->mm`, or else `task->active_mm`
  abbrev pub task_mm : (task : ℕ) → Option ℕ
  task_mm task = elim (k.mm task) [ none ↦ k.active_mm task | some m ↦ some m ]

  pub get_mm : (pid : ℕ) → Option ℕ
  get_mm pid =
      let found : Option ℕ = elim (k.find_vpid pid) [
        | none ↦ none
        | some vpid ↦ elim (k.pid_task vpid) [ none ↦ none | some task ↦ task_mm task ]
      ] in
      if pid == 0 then task_mm k.current else found

  -- The levels of `resolve_vm`, the last first; `true` is the 1 of `error_out`.
  module _ (mem : ℕ → ℕ) (addr : ℕ) where
    pub resolve_pte : VmT → Bool × VmT
    resolve_pte e =
        let place = k.pte_offset_map e.pmd (mem e.pmd) addr in
        if (place == 0) || k.pmd_large (mem e.pmd)
        then (true, e)
        else (false, record e { pte = place; valid = bit_or e.valid valid_mask_pte })

    pub resolve_pmd : VmT → Bool × VmT
    resolve_pmd e =
        let place = k.pmd_offset e.pud (mem e.pud) addr in
        if k.pmd_none (mem place) || k.pud_large (mem e.pud)
        then (true, e)
        else resolve_pte (record e { pmd = place; valid = bit_or e.valid valid_mask_pmd })

    pub resolve_pud : VmT → Bool × VmT
    resolve_pud e =
        let place = k.pud_offset e.p4d (mem e.p4d) addr in
        if k.pud_none (mem place)
        then (true, e)
        else resolve_pmd (record e { pud = place; valid = bit_or e.valid valid_mask_pud })

    pub resolve_p4d : VmT → Bool × VmT
    resolve_p4d e =
        let place = k.p4d_offset e.pgd (mem e.pgd) addr in
        if k.p4d_none (mem place) || k.p4d_bad (mem place)
        then (true, e)
        else resolve_pud (record e { p4d = place; valid = bit_or e.valid valid_mask_p4d })

    pub resolve_pgd : (pgd : ℕ) → VmT → Bool × VmT
    resolve_pgd pgd e =
        let place = k.pgd_offset pgd addr in
        if k.pgd_none (mem place) || k.pgd_bad (mem place)
        then (true, e)
        else resolve_p4d (record e { pgd = place; valid = bit_or e.valid valid_mask_pgd })

  pub resolve_vm : (addr : ℕ) → VmT → (lock : Bool) → Module → (Bool × VmT) × Module
  resolve_vm addr entry lock s =
      let cleared : VmT = record {
        pid = entry.pid;
        pgd = 0;
        p4d = 0;
        pud = 0;
        pmd = 0;
        pte = 0;
        valid = 0;
      } in
      elim (get_mm entry.pid) [
        | none ↦ ((true, cleared), s)
        | some mm ↦
            let locked = called_if lock (read_lock mm) s in
            (
              resolve_pgd locked.mem addr (locked.pgd mm) cleared,
              called_if lock (read_unlock mm) locked,
            )
      ]

  -- `if((old_entry.valid & mask) && (new_entry->valid & mask)) set_...(place, word)`
  abbrev pub set_if : (old : VmT) (new : Entry) (mask place word : ℕ) → (ℕ → ℕ) → ℕ → ℕ
  set_if old new mask place word mem =
      if test old.valid mask && test new.valid mask then update mem place word else mem

  pub set_entries : VmT → Entry → (ℕ → ℕ) → ℕ → ℕ
  set_entries old new mem =
      let m1 = set_if old new valid_mask_pgd old.pgd new.pgd mem in
      let m2 = set_if old new valid_mask_p4d old.p4d new.p4d m1 in
      let m3 = set_if old new valid_mask_pud old.pud new.pud m2 in
      let m4 = set_if old new valid_mask_pmd old.pmd new.pmd m3 in
      set_if old new valid_mask_pte old.pte new.pte m4

  -- The function that `invalidate_tlb` points to.
  abbrev pub invalidate_tlb : (addr : ℕ) → Module → Module
  invalidate_tlb addr s = called (if s.custom_tlb then flush_custom addr else flush_kernel addr) s

  pub update_vm : Entry → (lock : Bool) → Module → Bool × Module
  update_vm new lock s = elim (get_mm new.pid) [
    | none ↦ (true, s)
    | some mm ↦
        let locked = called_if lock (write_lock mm) s in
        let old : VmT = record {
          pid = new.pid;
          pgd = 0;
          p4d = 0;
          pud = 0;
          pmd = 0;
          pte = 0;
          valid = 0;
        } in
        let ((failed, old'), resolved) = resolve_vm new.vaddr old false locked in
        let stored = record resolved { mem = set_entries old' new resolved.mem } in
        (false, called_if lock (write_unlock mm) (invalidate_tlb new.vaddr stored))
  ]

-- `if(vm->...) user->... = *(vm->...)`
abbrev read_if : (mem : ℕ → ℕ) (place old : ℕ) → ℕ
read_if mem place old = if place == 0 then old else mem place

pub vm_to_user : (mem : ℕ → ℕ) → Entry → VmT → Entry
vm_to_user mem user vm = record user {
  pgd = read_if mem vm.pgd user.pgd;
  p4d = read_if mem vm.p4d user.p4d;
  pud = read_if mem vm.pud user.pud;
  pmd = read_if mem vm.pmd user.pmd;
  pte = read_if mem vm.pte user.pte;
  valid = vm.valid;
}
