-- ===== src/Kernel/Locks.antt =====
-- The locks of address spaces that the ioctls take and give back.
use user_level_mmap.Base.{
  ℕ, suc, ◌-◌, ◌≡◌, ◌≢◌, refl, Bool, true, false, not, Option, none, some, List, [], ◌∷◌, arith,
  ◌==◌, if◌then◌else◌,
}
use user_level_mmap.Ptedit.Entry.{Entry}
use user_level_mmap.Kernel.{
  Linux, Call, read_lock, read_unlock, write_lock, write_unlock, flush_kernel, flush_custom, Module,
  VmT, get_mm, resolve_vm, update_vm,
}
use user_level_mmap.Kernel.Run.{
  cleared, resolve_vm-some, resolve_vm-none, update_vm-some, update_vm-none,
}
use user_level_mmap.Kernel.Device.{
  Ioctl, vm_resolve, vm_update, vm_lock, vm_unlock, read_page, write_page, get_root, set_root,
  get_pagesize, tlb, get_pat, set_pat, switch_tlb, unknown, device_ioctl,
}

-- How often the lock of an address space is held for writing and for reading after some calls.
abbrev pub writers : (mm : ℕ) → List Call → ℕ
writers mm [] = 0
writers mm (write_lock m ∷ cs) = let rest = writers mm cs in if m == mm then suc rest else rest
writers mm (write_unlock m ∷ cs) = let rest = writers mm cs in if m == mm then rest - 1 else rest
writers mm (read_lock m ∷ cs) = writers mm cs
writers mm (read_unlock m ∷ cs) = writers mm cs
writers mm (flush_kernel a ∷ cs) = writers mm cs
writers mm (flush_custom a ∷ cs) = writers mm cs

abbrev pub readers : (mm : ℕ) → List Call → ℕ
readers mm [] = 0
readers mm (read_lock m ∷ cs) = let rest = readers mm cs in if m == mm then suc rest else rest
readers mm (read_unlock m ∷ cs) = let rest = readers mm cs in if m == mm then rest - 1 else rest
readers mm (write_lock m ∷ cs) = readers mm cs
readers mm (write_unlock m ∷ cs) = readers mm cs
readers mm (flush_kernel a ∷ cs) = readers mm cs
readers mm (flush_custom a ∷ cs) = readers mm cs

-- The calls that take or give back a lock.
abbrev pub locks : List Call → List Call
locks [] = []
locks (flush_kernel a ∷ cs) = locks cs
locks (flush_custom a ∷ cs) = locks cs
locks (read_lock m ∷ cs) = read_lock m ∷ locks cs
locks (read_unlock m ∷ cs) = read_unlock m ∷ locks cs
locks (write_lock m ∷ cs) = write_lock m ∷ locks cs
locks (write_unlock m ∷ cs) = write_unlock m ∷ locks cs

-- The same locks are held after two lists of calls.
abbrev pub SameHeld : List Call → List Call → Type 0
SameHeld cs ds = (mm : ℕ) → (writers mm cs ≡ writers mm ds) × (readers mm cs ≡ readers mm ds)

-- A lock that is taken, and given back after some flushes, is held as before.
given_back : (m : ℕ) (cs : List Call) → SameHeld (read_unlock m ∷ read_lock m ∷ cs) cs
given_back m cs = λ mm. ground arith

given_back_flushed :
    (m a : ℕ) (c : Bool) (cs : List Call)
    → SameHeld
        (write_unlock m ∷ (if c then flush_custom a else flush_kernel a) ∷ write_lock m ∷ cs)
        cs
given_back_flushed m a true cs = λ mm. ground arith
given_back_flushed m a false cs = λ mm. ground arith

given_back_write : (m : ℕ) (cs : List Call) → SameHeld (write_unlock m ∷ write_lock m ∷ cs) cs
given_back_write m cs = λ mm. ground arith

module _ (k : Linux) where
  SameHeld-resolve_vm :
      (addr : ℕ) (e : VmT) (lock : Bool) (s : Module)
      → SameHeld (resolve_vm k addr e lock s).1.calls s.calls
  SameHeld-resolve_vm addr e lock s = of_mm (get_mm k e.pid) refl lock
    where
      of_mm :
          (o : Option ℕ)
          → get_mm k e.pid ≡ o
          → (l : Bool) → SameHeld (resolve_vm k addr e l s).1.calls s.calls
      of_mm none q l = rw (resolve_vm-none k addr e l s q) (λ mm. (refl, refl))
      of_mm (some m) q true = rw (resolve_vm-some k addr m e s q).0 (given_back m s.calls)
      of_mm (some m) q false = rw (resolve_vm-some k addr m e s q).1 (λ mm. (refl, refl))

  SameHeld-flush :
      (custom : Bool) (a : ℕ) (cs : List Call)
      → SameHeld ((if custom then flush_custom a else flush_kernel a) ∷ cs) cs
  SameHeld-flush true a cs = λ mm. (refl, refl)
  SameHeld-flush false a cs = λ mm. (refl, refl)

  SameHeld-update_vm :
      (new : Entry) (lock : Bool) (s : Module) → SameHeld (update_vm k new lock s).1.calls s.calls
  SameHeld-update_vm new lock s = of_mm (get_mm k new.pid) refl lock
    where
      of_mm :
          (o : Option ℕ)
          → get_mm k new.pid ≡ o
          → (l : Bool) → SameHeld (update_vm k new l s).1.calls s.calls
      of_mm none q l = rw (update_vm-none k new l s q) (λ mm. (refl, refl))
      of_mm (some m) q true =
          rw (update_vm-some k m new s q).0 (given_back_flushed m new.vaddr s.custom_tlb s.calls)
      of_mm (some m) q false =
          rw (update_vm-some k m new s q).1 (SameHeld-flush s.custom_tlb new.vaddr s.calls)

  -- Every ioctl but the two that lock and unlock as a whole gives back each lock that it takes,
  -- whatever becomes of its call.
  pub device_ioctl-SameHeld :
      (c : Ioctl) (s : Module)
      → c ≢ vm_lock
      → c ≢ vm_unlock
      → SameHeld (device_ioctl k c s).1.calls s.calls
  unfolding device_ioctl
  device_ioctl-SameHeld (vm_resolve user) s nl nu =
      SameHeld-resolve_vm user.vaddr (cleared user.pid) (not s.mm_is_locked) s
  device_ioctl-SameHeld (vm_update user) s nl nu = SameHeld-update_vm user (not s.mm_is_locked) s
  device_ioctl-SameHeld vm_lock s nl nu = absurd (nl refl)
  device_ioctl-SameHeld vm_unlock s nl nu = absurd (nu refl)
  device_ioctl-SameHeld (read_page pfn) s nl nu = λ mm. (refl, refl)
  device_ioctl-SameHeld (write_page pfn content) s nl nu = λ mm. (refl, refl)
  device_ioctl-SameHeld (get_root pid) s nl nu = of_mm (get_mm k pid) refl s.mm_is_locked refl
    where
      of_mm :
          (o : Option ℕ)
          → get_mm k pid ≡ o
          → (b : Bool) → s.mm_is_locked ≡ b
          → SameHeld (device_ioctl k (get_root pid) s).1.calls s.calls
      of_mm none q b e = rw (q, device_ioctl) (λ mm. (refl, refl))
      of_mm (some m) q true e = rw (q, device_ioctl, e) (λ mm. (refl, refl))
      of_mm (some m) q false e = rw (q, device_ioctl, e) (given_back m s.calls)
  device_ioctl-SameHeld (set_root pid root) s nl nu = of_mm (get_mm k pid) refl s.mm_is_locked refl
    where
      of_mm :
          (o : Option ℕ)
          → get_mm k pid ≡ o
          → (b : Bool) → s.mm_is_locked ≡ b
          → SameHeld (device_ioctl k (set_root pid root) s).1.calls s.calls
      of_mm none q b e = rw (q, device_ioctl) (λ mm. (refl, refl))
      of_mm (some m) q true e = rw (q, device_ioctl, e) (λ mm. (refl, refl))
      of_mm (some m) q false e = rw (q, device_ioctl, e) (given_back_write m s.calls)
  device_ioctl-SameHeld get_pagesize s nl nu = λ mm. (refl, refl)
  device_ioctl-SameHeld (tlb addr) s nl nu = SameHeld-flush s.custom_tlb addr s.calls
  device_ioctl-SameHeld get_pat s nl nu = λ mm. (refl, refl)
  device_ioctl-SameHeld (set_pat pat) s nl nu = λ mm. (refl, refl)
  device_ioctl-SameHeld (switch_tlb implementation) s nl nu = λ mm. ground arith
  device_ioctl-SameHeld unknown s nl nu = λ mm. (refl, refl)
