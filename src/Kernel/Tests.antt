-- ===== src/Kernel/Tests.antt =====
-- The module with tables of four levels for one address space.
use user_level_mmap.Base.{
  ℕ, ◌≤◌, ◌≡◌, refl, true, false, ◌&&◌, not, none, some, [], arith, ◌==◌, if◌then◌else◌,
}
use user_level_mmap.Ptedit.Entry.{Entry}
use user_level_mmap.Kernel.{Linux, Module, get_mm}
use user_level_mmap.Kernel.Busy.{Exclusive, opened, busy, start, step, device_open-Exclusive}
use user_level_mmap.Kernel.Device.{
  device_open, vm_resolve, vm_update, get_root, entry, device_ioctl,
}
use user_level_mmap.Kernel.Load.{Lookup, Loaded, unloaded, pteditor_init, pteditor_init-failed}
use user_level_mmap.Kernel.Locks.{SameHeld, device_ioctl-SameHeld}
use user_level_mmap.Kernel.Update.{HasPlaces, vm_resolve-vm_update}

-- An entry's word is the place of the entry of the next level.
abbrev linux : Linux
linux = record {
  current = 1;
  find_vpid = λ pid. if pid == 7 then some 7 else none;
  pid_task = λ vpid. some 2;
  mm = λ task. if task == 1 then some 9 else none;
  active_mm = λ task. some 9;
  pgd_offset = λ pgd addr. pgd;
  p4d_offset = λ place word addr. place;
  pud_offset = λ place word addr. word;
  pmd_offset = λ place word addr. word;
  pte_offset_map = λ place word addr. word;
  pgd_none = λ word. false;
  pgd_bad = λ word. false;
  p4d_none = λ word. word == 0;
  p4d_bad = λ word. false;
  pud_none = λ word. word == 0;
  pud_large = λ word. false;
  pmd_none = λ word. word == 0;
  pmd_large = λ word. false;
  phys_to_virt = λ a. a;
  virt_to_phys = λ a. a;
}

abbrev words : ℕ → ℕ
words a =
    if a == 0x1000
    then 0x2000
    else (if a == 0x2000
        then 0x3000
        else (if a == 0x3000 then 0x4000 else (if a == 0x4000 then 0x55 else 0)))

abbrev loaded : Module
loaded = record {
  device_busy = false;
  mm_is_locked = false;
  custom_tlb = false;
  mem = words;
  pgd = λ mm. 0x1000;
  pat = 0;
  calls = [];
}

loaded-HasPlaces : HasPlaces linux words 0x1000 0x123 0x1000 0x1000 0x2000 0x3000 0x4000
loaded-HasPlaces = record {
  at1 = refl;
  ok1 = refl;
  at2 = refl;
  ok2 = refl;
  at3 = refl;
  ok3 = refl;
  at4 = refl;
  ok4 = refl;
  at5 = refl;
  ok5 = refl;
  nonnull = (omega arith, omega arith, omega arith, omega arith, omega arith);
  apart = (omega arith, omega arith, omega arith, omega arith);
}

abbrev new : Entry
new = record { pid = 7; vaddr = 0x123; pgd = 0; p4d = 0; pud = 0; pmd = 0; pte = 0x77; valid = 16 }

new-mm : get_mm linux 7 ≡ some 9
unfolding get_mm
new-mm = refl

vm_resolve-vm_update_example :
    (device_ioctl linux (vm_resolve new) (device_ioctl linux (vm_update new) loaded).1).0
    ≡ entry (record {
      pid = 7;
      vaddr = 0x123;
      pgd = 0x2000;
      p4d = 0x2000;
      pud = 0x3000;
      pmd = 0x4000;
      pte = 0x77;
      valid = 31;
    })
vm_resolve-vm_update_example =
    vm_resolve-vm_update linux 0x1000 0x123 0x1000 0x1000 0x2000 0x3000 0x4000 9 new new loaded
      new-mm refl loaded-HasPlaces refl refl refl refl

device_ioctl-SameHeld_example : SameHeld (device_ioctl linux (get_root 7) loaded).1.calls []
device_ioctl-SameHeld_example = device_ioctl-SameHeld linux (get_root 7) loaded (λ e. cc) (λ e. cc)

abbrev taken : Module
taken = record loaded { device_busy = true }

open_loaded : device_open loaded ≡ (true, taken)
unfolding device_open
open_loaded = refl

open_taken : device_open taken ≡ (false, taken)
unfolding device_open
open_taken = refl

device_open-Exclusive_example : (1 ≤ 1) × Exclusive linux taken.device_busy 1
device_open-Exclusive_example =
    device_open-Exclusive linux loaded taken 1 refl
      (step (step start (opened open_loaded)) (busy open_taken))

-- Linux 5.8 on a processor that can flush single addresses.
abbrev lookup : Lookup
lookup = record {
  kallsyms_found = true;
  register_failed = false;
  flush_found = true;
  invpcid_single = true;
  cr4_found = false;
  probe_failed = false;
  umem_found = true;
}

abbrev registered : Loaded
registered = record { device = true; probe = true; umem_entry = true; has_umem = true }

loads : pteditor_init lookup unloaded ≡ (true, registered)
unfolding pteditor_init
loads = refl

-- The same without `flush_tlb_mm_range`.
abbrev no_flush : Lookup
no_flush = record lookup { flush_found = false }

abbrev left_behind : Loaded
left_behind = record unloaded { device = true }

fails : pteditor_init no_flush unloaded ≡ (false, left_behind)
unfolding pteditor_init
fails = refl

pteditor_init-failed_example :
    (left_behind.device ≡ (true && not false))
    × (left_behind.probe ≡ false)
    × (left_behind.umem_entry ≡ false)
pteditor_init-failed_example = pteditor_init-failed no_flush left_behind fails
