-- ===== src/Kernel/Device.antt =====
-- The file operations of the device: open, release and the ioctls.
use user_level_mmap.Base.{
  ℕ, ◌+◌, ◌-◌, ◌/◌, ◌∷◌, ◌*◌, ◌%◌, ◌^◌, Bool, true, false, ◌&&◌, not, none, some, ◌==◌,
  if◌then◌else◌, ltb, update,
}
use user_level_mmap.Ptedit.Entry.{Entry}
use user_level_mmap.Kernel.{
  Linux, read_lock, read_unlock, write_lock, write_unlock, Module, VmT, called_if, get_mm,
  resolve_vm, update_vm, invalidate_tlb, vm_to_user,
}

-- `real_page_size`
abbrev pub real_page_size : ℕ
real_page_size = 4096

-- `true` is the success of `device_open`, `false` its -EBUSY.
unfoldable pub device_open : Module → Bool × Module
device_open s = if s.device_busy then (false, s) else (true, record s { device_busy = true })

unfoldable pub device_release : Module → Module
device_release s = record s { device_busy = false }

-- The commands, with what they read from the caller.
pub data Ioctl : Type 0 where
  vm_resolve vm_update : Entry → Ioctl
  vm_lock vm_unlock : Ioctl
  read_page : (pfn : ℕ) → Ioctl
  write_page : (pfn : ℕ) → (content : ℕ → ℕ) → Ioctl
  get_root : (pid : ℕ) → Ioctl
  set_root : (pid root : ℕ) → Ioctl
  get_pagesize : Ioctl
  tlb : (addr : ℕ) → Ioctl
  get_pat : Ioctl
  set_pat : (pat : ℕ) → Ioctl
  switch_tlb : (implementation : ℕ) → Ioctl
  unknown : Ioctl

-- The value of the ioctl, with what it writes to the caller: 0, -1, 1, or the size of a page.
pub data Reply : Type 0 where
  ok refused no_mm : Reply
  entry : Entry → Reply
  page : (content : ℕ → ℕ) → Reply
  value : ℕ → Reply

-- The words of memory after a page was written at `start`, `content i` as the word at byte `8 * i`.
abbrev pub store_page : (start : ℕ) → (content : ℕ → ℕ) → (ℕ → ℕ) → ℕ → ℕ
store_page start content mem a =
    if not (ltb a start) && ltb a (start + real_page_size) && ((a - start) % 8 == 0)
    then content ((a - start) / 8)
    else mem a

module _ (k : Linux) where
  -- Where a page lies: `phys_to_virt(page.pfn * real_page_size)`.
  abbrev pub page_place : (pfn : ℕ) → ℕ
  page_place pfn = k.phys_to_virt (pfn * real_page_size % 2 ^ 64)

  -- The address space that is locked as a whole; a task that runs has one.
  abbrev pub locked_mm : ℕ
  locked_mm = elim (k.active_mm k.current) [ none ↦ 0 | some mm ↦ mm ]

  unfoldable pub device_ioctl : Ioctl → Module → Reply × Module
  device_ioctl (vm_resolve user) s =
      let vm : VmT = record {
        pid = user.pid;
        pgd = 0;
        p4d = 0;
        pud = 0;
        pmd = 0;
        pte = 0;
        valid = 0;
      } in
      let ((failed, vm'), s') = resolve_vm k user.vaddr vm (not s.mm_is_locked) s in
      (entry (vm_to_user s'.mem user vm'), s')
  device_ioctl (vm_update user) s =
      let (failed, s') = update_vm k user (not s.mm_is_locked) s in (ok, s')
  device_ioctl vm_lock s = if s.mm_is_locked then (refused, s) else (
    ok,
    record s { calls = read_lock locked_mm ∷ write_lock locked_mm ∷ s.calls; mm_is_locked = true },
  )
  device_ioctl vm_unlock s = if not s.mm_is_locked then (refused, s) else (
    ok,
    record s {
      calls = read_unlock locked_mm ∷ write_unlock locked_mm ∷ s.calls;
      mm_is_locked = false;
    },
  )
  device_ioctl (read_page pfn) s = (page (λ i. s.mem (page_place pfn + 8 * i)), s)
  device_ioctl (write_page pfn content) s =
      (ok, record s { mem = store_page (page_place pfn) content s.mem })
  device_ioctl (get_root pid) s = elim (get_mm k pid) [
    | none ↦ (no_mm, s)
    | some mm ↦
        let locked = called_if (not s.mm_is_locked) (read_lock mm) s in
        (value (k.virt_to_phys (s.pgd mm)), called_if (not s.mm_is_locked) (read_unlock mm) locked)
  ]
  device_ioctl (set_root pid root) s = elim (get_mm k pid) [
    | none ↦ (no_mm, s)
    | some mm ↦
        let locked = called_if (not s.mm_is_locked) (write_lock mm) s in
        let rooted = record locked { pgd = update locked.pgd mm (k.phys_to_virt root) } in
        (ok, called_if (not s.mm_is_locked) (write_unlock mm) rooted)
  ]
  device_ioctl get_pagesize s = (value real_page_size, s)
  device_ioctl (tlb addr) s = (ok, invalidate_tlb k addr s)
  device_ioctl get_pat s = (value s.pat, s)
  device_ioctl (set_pat pat) s = (ok, record s { pat = pat })
  device_ioctl (switch_tlb implementation) s =
      let wanted = implementation % 2 ^ 32 in
      if not (wanted == 0) && not (wanted == 1)
      then (refused, s)
      else (ok, record s { custom_tlb = not (wanted == 0) })
  device_ioctl unknown s = (refused, s)
