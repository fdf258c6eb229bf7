-- ===== src/Kernel/Busy.antt =====
-- The use of the device over time: who may open it, and what happens while it is open.
use mathlib.Core.Path.{subst}
use user_level_mmap.Base.{
  ℕ, suc, ◌≤◌, ◌≡◌, refl, sym, Bool, true, false, not, Option, none, some, arith, if◌then◌else◌,
}
use user_level_mmap.Ptedit.Entry.{Entry}
use user_level_mmap.Kernel.{Linux, Module, get_mm, resolve_vm, update_vm}
use user_level_mmap.Kernel.Run.{
  cleared, resolve_vm-some, resolve_vm-none, update_vm-some, update_vm-none,
}
use user_level_mmap.Kernel.Device.{
  device_open, device_release, Ioctl, vm_resolve, vm_update, vm_lock, vm_unlock, read_page,
  write_page, get_root, set_root, get_pagesize, tlb, get_pat, set_pat, switch_tlb, unknown,
  device_ioctl,
}

module _ (k : Linux) where
  -- One use of the device: the module's state and the count of files that are open. The kernel
  -- releases and runs ioctls only on a file that was opened.
  pub data Step : (s : Module) (files : ℕ) (s' : Module) (files' : ℕ) → Type 0 where
    opened : {s s' : Module} {n : ℕ} → device_open s ≡ (true, s') → Step s n s' (suc n)
    busy : {s s' : Module} {n : ℕ} → device_open s ≡ (false, s') → Step s n s' n
    ioctl : {s : Module} {n : ℕ} (c : Ioctl) → Step s (suc n) (device_ioctl k c s).1 (suc n)
    released : {s : Module} {n : ℕ} → Step s (suc n) (device_release s) n

  -- From the module as it was loaded, with no file open.
  pub data Reachable (loaded : Module) : (s : Module) (files : ℕ) → Type 0 where
    start : Reachable loaded loaded 0
    step :
        {s s' : Module} {n n' : ℕ} → Reachable loaded s n → Step s n s' n' → Reachable loaded s' n'

  same-device_busy_resolve :
      (addr pid : ℕ) (lock : Bool) (s : Module)
      → (resolve_vm k addr (cleared pid) lock s).1.device_busy ≡ s.device_busy
  same-device_busy_resolve addr pid lock s = of_mm (get_mm k pid) refl lock
    where
      of_mm :
          (o : Option ℕ)
          → get_mm k pid ≡ o
          → (l : Bool) → (resolve_vm k addr (cleared pid) l s).1.device_busy ≡ s.device_busy
      of_mm none q l = rw (resolve_vm-none k addr (cleared pid) l s q) refl
      of_mm (some m) q true = rw (resolve_vm-some k addr m (cleared pid) s q).0 refl
      of_mm (some m) q false = rw (resolve_vm-some k addr m (cleared pid) s q).1 refl

  same-device_busy_update :
      (new : Entry) (lock : Bool) (s : Module)
      → (update_vm k new lock s).1.device_busy ≡ s.device_busy
  same-device_busy_update new lock s = of_mm (get_mm k new.pid) refl lock
    where
      of_mm :
          (o : Option ℕ)
          → get_mm k new.pid ≡ o
          → (l : Bool) → (update_vm k new l s).1.device_busy ≡ s.device_busy
      of_mm none q l = rw (update_vm-none k new l s q) refl
      of_mm (some m) q true = rw (update_vm-some k m new s q).0 refl
      of_mm (some m) q false = rw (update_vm-some k m new s q).1 refl

  -- No ioctl changes whether the device is taken.
  device_busy-device_ioctl :
      (c : Ioctl) (s : Module) → (device_ioctl k c s).1.device_busy ≡ s.device_busy
  unfolding device_ioctl
  device_busy-device_ioctl (vm_resolve user) s =
      same-device_busy_resolve user.vaddr user.pid (not s.mm_is_locked) s
  device_busy-device_ioctl (vm_update user) s = same-device_busy_update user (not s.mm_is_locked) s
  device_busy-device_ioctl vm_lock s = ground arith
  device_busy-device_ioctl vm_unlock s = ground arith
  device_busy-device_ioctl (read_page pfn) s = refl
  device_busy-device_ioctl (write_page pfn content) s = refl
  device_busy-device_ioctl (get_root pid) s = ground arith
  device_busy-device_ioctl (set_root pid root) s = ground arith
  device_busy-device_ioctl get_pagesize s = refl
  device_busy-device_ioctl (tlb addr) s = refl
  device_busy-device_ioctl get_pat s = refl
  device_busy-device_ioctl (set_pat pat) s = refl
  device_busy-device_ioctl (switch_tlb implementation) s = ground arith
  device_busy-device_ioctl unknown s = refl

  -- What `device_busy` says of the files: set with one file open, clear with none.
  abbrev pub Exclusive : Bool → ℕ → Type 0
  Exclusive taken files = files ≡ (if taken then 1 else 0)

  opened-clear :
      (s s' : Module)
      → device_open s ≡ (true, s')
      → (s.device_busy ≡ false) × (s'.device_busy ≡ true)
  unfolding device_open
  opened-clear s s' e = of_flag s.device_busy refl
    where
      opening : Bool → Bool × Module
      opening b = if b then (false, s) else (true, record s { device_busy = true })

      of_flag : (b : Bool) → s.device_busy ≡ b → (s.device_busy ≡ false) × (s'.device_busy ≡ true)
      of_flag true q =
          let e' : ◌≡◌ {A = Bool × Module} (false, s) (true, s') =
            subst (λ b. ◌≡◌ {A = Bool × Module} (opening b) (true, s')) q e in
          let flag : false ≡ true = λ i. (e' i).0 in cc flag
      of_flag false q =
          let e' : ◌≡◌ {A = Bool × Module} (true, record s { device_busy = true }) (true, s') =
            subst (λ b. ◌≡◌ {A = Bool × Module} (opening b) (true, s')) q e in
          let r = sym e' in (q, λ i. (r i).1.device_busy)

  refused-same : (s s' : Module) → device_open s ≡ (false, s') → s'.device_busy ≡ s.device_busy
  unfolding device_open
  refused-same s s' e = of_flag s.device_busy refl
    where
      opening : Bool → Bool × Module
      opening b = if b then (false, s) else (true, record s { device_busy = true })

      of_flag : (b : Bool) → s.device_busy ≡ b → s'.device_busy ≡ s.device_busy
      of_flag true q =
          let e' : ◌≡◌ {A = Bool × Module} (false, s) (false, s') =
            subst (λ b. ◌≡◌ {A = Bool × Module} (opening b) (false, s')) q e in
          let r = sym e' in λ i. (r i).1.device_busy
      of_flag false q =
          let e' : ◌≡◌ {A = Bool × Module} (true, record s { device_busy = true }) (false, s') =
            subst (λ b. ◌≡◌ {A = Bool × Module} (opening b) (false, s')) q e in
          let flag : true ≡ false = λ i. (e' i).0 in cc flag

  Exclusive-Step :
      {s s' : Module} {n n' : ℕ}
      → Exclusive s.device_busy n
      → Step s n s' n'
      → Exclusive s'.device_busy n'
  unfolding device_open device_release
  Exclusive-Step {s} {s'} {n} inv (opened e) =
      let (before, after) = opened-clear s s' e in
      let none_open : n ≡ 0 = rw before at inv in rw (after, none_open) refl
  Exclusive-Step {s} {s'} inv (busy e) = rw (refused-same s s' e) inv
  Exclusive-Step {s} inv (ioctl c) = rw (device_busy-device_ioctl c s) inv
  Exclusive-Step {s} {n' = n'} inv released = ground arith

  -- In every state that uses of the device lead to, one after the other and with any ioctls among
  -- them, at most one file is open, and `device_busy` is set exactly when one is.
  pub device_open-Exclusive :
      (loaded s : Module) (files : ℕ)
      → loaded.device_busy ≡ false
      → Reachable loaded s files
      → (files ≤ 1) × Exclusive s.device_busy files
  device_open-Exclusive loaded s files clear reach = let e = held reach in (ground arith, e)
    where
      held : {s' : Module} {n : ℕ} → Reachable loaded s' n → Exclusive s'.device_busy n
      held start = rw clear refl
      held (step before now) = Exclusive-Step (held before) now
