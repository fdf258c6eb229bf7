-- ===== src/Kernel/Run.antt =====
-- The two operations on page tables where the process has an address space.
use user_level_mmap.Base.{ℕ, ◌≡◌, refl, Bool, true, false, none, some, ◌∷◌, if◌then◌else◌}
use user_level_mmap.Ptedit.Entry.{Entry}
use user_level_mmap.Kernel.{
  Linux, read_lock, read_unlock, write_lock, write_unlock, flush_kernel, flush_custom, Call, Module,
  VmT, get_mm, resolve_pgd, resolve_vm, set_entries, update_vm,
}

-- An entry of which nothing was found yet.
abbrev pub cleared : (pid : ℕ) → VmT
cleared pid = record { pid = pid; pgd = 0; p4d = 0; pud = 0; pmd = 0; pte = 0; valid = 0 }

module _ (k : Linux) where
  -- The entries that the tables of an address space hold for an address.
  abbrev pub found : (mm addr pid : ℕ) → Module → Bool × VmT
  found mm addr pid s = resolve_pgd k s.mem addr (s.pgd mm) (cleared pid)

  pub resolve_vm-some :
      (addr mm : ℕ) (e : VmT) (s : Module)
      → get_mm k e.pid ≡ some mm
      → (resolve_vm k addr e true s
          ≡ (found mm addr e.pid s, record s { calls = read_unlock mm ∷ read_lock mm ∷ s.calls }))
        × (resolve_vm k addr e false s ≡ (found mm addr e.pid s, s))
  unfolding resolve_vm
  resolve_vm-some addr mm e s q = (rw (q, resolve_vm) refl, rw (q, resolve_vm) refl)

  -- The memory and the flush of an update.
  abbrev pub stored : (mm : ℕ) → Entry → Module → ℕ → ℕ
  stored mm new s = set_entries k (found mm new.vaddr new.pid s).1 new s.mem

  abbrev pub flushed : Entry → Module → Call
  flushed new s = if s.custom_tlb then flush_custom new.vaddr else flush_kernel new.vaddr

  pub update_vm-some :
      (mm : ℕ) (new : Entry) (s : Module)
      → get_mm k new.pid ≡ some mm
      → (update_vm k new true s ≡ (
        false,
        record s {
          mem = stored mm new s;
          calls = write_unlock mm ∷ flushed new s ∷ write_lock mm ∷ s.calls;
        },
      ))
        × (update_vm k new false s
            ≡ (false, record s { mem = stored mm new s; calls = flushed new s ∷ s.calls }))
  unfolding update_vm
  update_vm-some mm new s q =
      let locked : Module = record s { calls = write_lock mm ∷ s.calls } in
      (
        rw (q, update_vm, (resolve_vm-some new.vaddr mm (cleared new.pid) locked q).1) refl,
        rw (q, update_vm, (resolve_vm-some new.vaddr mm (cleared new.pid) s q).1) refl,
      )

  pub resolve_vm-none :
      (addr : ℕ) (e : VmT) (lock : Bool) (s : Module)
      → get_mm k e.pid ≡ none
      → resolve_vm k addr e lock s ≡ ((true, cleared e.pid), s)
  unfolding resolve_vm
  resolve_vm-none addr e lock s q = rw (q, resolve_vm) refl

  pub update_vm-none :
      (new : Entry) (lock : Bool) (s : Module)
      → get_mm k new.pid ≡ none
      → update_vm k new lock s ≡ (true, s)
  unfolding update_vm
  update_vm-none new lock s q = rw (q, update_vm) refl
