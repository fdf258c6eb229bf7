-- ===== src/Kernel/Agrees/Tests.antt =====
-- The module on the tables of the fixture, with the kernel's functions as on x86_64.
use user_level_mmap.Base.{
  ℕ, ◌+◌, ◌-◌, ◌*◌, ◌/◌, ◌^◌, ◌≡◌, bit_and, not, if◌then◌else◌, refl, false, some, [], arith, ◌==◌,
  inr, ap,
}
use user_level_mmap.Ptedit.Entry.{not64, pfn_mask, size, get_pfn}
use user_level_mmap.Ptedit.Walk.{x86_64_paging, root_slot, pgdi, pudi, pmdi, pti, resolve_user_map}
use user_level_mmap.Ptedit.Walk.Spec.{walk, indices}
use user_level_mmap.Ptedit.Fixture.{tables, tables-words, machine}
use user_level_mmap.Kernel.{Linux, Module, get_mm}
use user_level_mmap.Kernel.Implementation.{resolve_kernel}
use user_level_mmap.Kernel.Agrees.{IsFourLevel, Agrees}
use user_level_mmap.Kernel.Agrees.Equal.{resolve_kernel-resolve_user_map}

-- Physical memory is mapped from 0x1000000 on.
abbrev virt : ℕ → ℕ
virt p = p + 0x1000000

-- The frame below an entry: of one that maps a large page, without the bits inside of that page.
abbrev below : (word frames : ℕ) → ℕ
below word frames = if size word == 1 then get_pfn word / frames * frames else get_pfn word

abbrev linux : Linux
linux = record {
  current = 1;
  find_vpid = λ pid. some pid;
  pid_task = λ vpid. some vpid;
  mm = λ task. some 9;
  active_mm = λ task. some 9;
  pgd_offset = λ pgd addr. virt (root_slot (pgd - 0x1000000) (pgdi x86_64_paging addr));
  p4d_offset = λ place word addr. place;
  pud_offset = λ place word addr. virt (root_slot (get_pfn word * 4096) (pudi x86_64_paging addr));
  pmd_offset =
      λ place word addr. virt (root_slot (below word (2 ^ 18) * 4096) (pmdi x86_64_paging addr));
  pte_offset_map =
      λ place word addr. virt (root_slot (below word (2 ^ 9) * 4096) (pti x86_64_paging addr));
  pgd_none = λ word. false;
  pgd_bad = λ word. false;
  p4d_none = λ word. word == 0;
  p4d_bad = λ word. not (bit_and word (not64 (pfn_mask + 0x67 + 0)) == 0);
  pud_none = λ word. word == 0;
  pud_large = λ word. size word == 1;
  pmd_none = λ word. word == 0;
  pmd_large = λ word. size word == 1;
  phys_to_virt = virt;
  virt_to_phys = λ v. v - 0x1000000;
}

linux-IsFourLevel : IsFourLevel linux
linux-IsFourLevel = record {
  isolated = false;
  mapped = λ p lt e. omega (arith, e);
  pgd_at =
      λ root addr. ap (λ r. virt (root_slot r (pgdi x86_64_paging addr))) {y = root} (omega arith);
  p4d_at = λ place word addr. refl;
  pud_at = λ place word addr table. refl;
  pmd_at = λ place word addr small. rw small refl;
  pte_at = λ place word addr small. rw small refl;
  pgd_folded = λ w. (refl, refl);
  p4d_zero = refl;
  pud_zero = refl;
  pmd_zero = refl;
  p4d_present = λ w on table. (ground arith, rw table refl);
  pud_present = λ w on. (ground arith, refl);
  pmd_present = λ w on. (ground arith, refl);
}

abbrev loaded : Module
loaded = record {
  device_busy = false;
  mm_is_locked = false;
  custom_tlb = false;
  mem = λ v. tables (v - 0x1000000);
  pgd = λ mm. virt 0x1000;
  pat = 0;
  calls = [];
}

has_mm : get_mm linux 7 ≡ some 9
unfolding get_mm
has_mm = refl

resolve_kernel-resolve_user_map_example :
    Agrees
      (walk machine.mem 0x1000 (indices x86_64_paging 0x123))
      (resolve_kernel linux 0x123 7 loaded)
      (resolve_user_map x86_64_paging 0x123 7 machine)
unfolding get_pfn linux-IsFourLevel
resolve_kernel-resolve_user_map_example =
    resolve_kernel-resolve_user_map linux linux-IsFourLevel loaded machine
      (λ p lt. ap tables {x = p + 0x1000000 - 0x1000000} {y = p} (omega arith)) tables-words 0x1000
      0x123 7 (omega arith) 9 has_mm refl refl (λ e. omega (arith, e))
      (inr (refl, omega arith, refl, inr (refl, omega arith, refl, inr (refl, omega arith))))
