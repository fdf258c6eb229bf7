-- ===== src/Kernel/Update.antt =====
-- An update of a PTE by the module, and what the module reads afterwards.
use user_level_mmap.Base.{
  ℕ, ◌≡◌, ◌≢◌, refl, ap, ◌∙◌, Bool, true, false, ◌||◌, not, some, ◌==◌, eq→==, ne→==, update,
}
use user_level_mmap.Ptedit.Entry.{Entry, valid_mask_pte}
use user_level_mmap.Kernel.{
  Linux, Module, get_mm, resolve_pgd, resolve_p4d, resolve_pud, resolve_pmd, resolve_pte,
  set_entries, update_vm, resolve_vm, vm_to_user,
}
use user_level_mmap.Kernel.Run.{cleared, found, stored, resolve_vm-some, update_vm-some}
use user_level_mmap.Kernel.Device.{vm_resolve, vm_update, entry, device_ioctl}

-- The tables lead from `pgd` to a PTE through the entries at five places, and the place of the PTE
-- is none of the others.
pub record HasPlaces (k : Linux) (mem : ℕ → ℕ) (pgd addr p1 p2 p3 p4 p5 : ℕ) : Type 0 where
  pub at1 : k.pgd_offset pgd addr ≡ p1
  pub ok1 : (k.pgd_none (mem p1) || k.pgd_bad (mem p1)) ≡ false
  pub at2 : k.p4d_offset p1 (mem p1) addr ≡ p2
  pub ok2 : (k.p4d_none (mem p2) || k.p4d_bad (mem p2)) ≡ false
  pub at3 : k.pud_offset p2 (mem p2) addr ≡ p3
  pub ok3 : k.pud_none (mem p3) ≡ false
  pub at4 : k.pmd_offset p3 (mem p3) addr ≡ p4
  pub ok4 : (k.pmd_none (mem p4) || k.pud_large (mem p3)) ≡ false
  pub at5 : k.pte_offset_map p4 (mem p4) addr ≡ p5
  pub ok5 : ((p5 == 0) || k.pmd_large (mem p4)) ≡ false
  pub nonnull : (p1 ≢ 0) × (p2 ≢ 0) × (p3 ≢ 0) × (p4 ≢ 0) × (p5 ≢ 0)
  pub apart : (p5 ≢ p1) × (p5 ≢ p2) × (p5 ≢ p3) × (p5 ≢ p4)

module _ (k : Linux) (pgd addr p1 p2 p3 p4 p5 : ℕ) where
  resolve_pgd-places :
      (mem : ℕ → ℕ) (pid : ℕ)
      → HasPlaces k mem pgd addr p1 p2 p3 p4 p5
      → resolve_pgd k mem addr pgd (cleared pid) ≡ (
        false,
        record { pid = pid; pgd = p1; p4d = p2; pud = p3; pmd = p4; pte = p5; valid = 31 },
      )
  unfolding resolve_pgd resolve_p4d resolve_pud resolve_pmd resolve_pte
  resolve_pgd-places mem pid h =
      rw (h.at1, h.ok1, h.at2, h.ok2, h.at3, h.ok3, h.at4, h.ok4, h.at5, h.ok5) refl

  pub HasPlaces-update :
      (mem : ℕ → ℕ) (v : ℕ)
      → HasPlaces k mem pgd addr p1 p2 p3 p4 p5
      → HasPlaces k (update mem p5 v) pgd addr p1 p2 p3 p4 p5
  HasPlaces-update mem v h =
      let (n1, n2, n3, n4) = h.apart in
      let e1 = ne→== p5 p1 n1 in
      let e2 = ne→== p5 p2 n2 in
      let e3 = ne→== p5 p3 n3 in
      let e4 = ne→== p5 p4 n4 in
      record {
        at1 = h.at1;
        ok1 = rw e1 h.ok1;
        at2 = rw e1 h.at2;
        ok2 = rw e2 h.ok2;
        at3 = rw e2 h.at3;
        ok3 = rw e3 h.ok3;
        at4 = rw e3 h.at4;
        ok4 = rw (e4, e3) h.ok4;
        at5 = rw e4 h.at5;
        ok5 = rw e4 h.ok5;
        nonnull = h.nonnull;
        apart = h.apart;
      }

  -- The memory after an update of the PTE alone, and the tables' roots.
  pub vm_update-stored :
      (mm : ℕ) (new : Entry) (s : Module)
      → get_mm k new.pid ≡ some mm
      → s.pgd mm ≡ pgd
      → HasPlaces k s.mem pgd addr p1 p2 p3 p4 p5
      → new.valid ≡ valid_mask_pte
      → new.vaddr ≡ addr
      → ((device_ioctl k (vm_update new) s).1.mem ≡ update s.mem p5 new.pte)
        × ((device_ioctl k (vm_update new) s).1.pgd ≡ s.pgd)
  unfolding device_ioctl set_entries
  vm_update-stored mm new s q root h only at = either (not s.mm_is_locked)
    where
      places : found k mm new.vaddr new.pid s ≡ (
        false,
        record { pid = new.pid; pgd = p1; p4d = p2; pud = p3; pmd = p4; pte = p5; valid = 31 },
      )
      places = rw (at, root) (resolve_pgd-places s.mem new.pid h)

      in_place : stored k mm new s ≡ update s.mem p5 new.pte
      in_place = rw (places, set_entries, only) refl

      either :
          (lock : Bool)
          → ((update_vm k new lock s).1.mem ≡ update s.mem p5 new.pte)
            × ((update_vm k new lock s).1.pgd ≡ s.pgd)
      either true = rw (update_vm-some k mm new s q).0 (in_place, refl)
      either false = rw (update_vm-some k mm new s q).1 (in_place, refl)

  -- What the module reports of an address whose tables lead to a PTE.
  pub vm_resolve-places :
      (mm : ℕ) (query : Entry) (s : Module)
      → get_mm k query.pid ≡ some mm
      → s.pgd mm ≡ pgd
      → HasPlaces k s.mem pgd addr p1 p2 p3 p4 p5
      → query.vaddr ≡ addr
      → (device_ioctl k (vm_resolve query) s).0
        ≡ entry (record {
          pid = query.pid;
          vaddr = query.vaddr;
          pgd = s.mem p1;
          p4d = s.mem p2;
          pud = s.mem p3;
          pmd = s.mem p4;
          pte = s.mem p5;
          valid = 31;
        })
  unfolding device_ioctl vm_to_user
  vm_resolve-places mm query s q root h at = either (not s.mm_is_locked)
    where
      places : found k mm query.vaddr query.pid s ≡ (
        false,
        record { pid = query.pid; pgd = p1; p4d = p2; pud = p3; pmd = p4; pte = p5; valid = 31 },
      )
      places = rw (at, root) (resolve_pgd-places s.mem query.pid h)

      words :
          vm_to_user s.mem query (record {
            pid = query.pid;
            pgd = p1;
            p4d = p2;
            pud = p3;
            pmd = p4;
            pte = p5;
            valid = 31;
          })
          ≡ record {
            pid = query.pid;
            vaddr = query.vaddr;
            pgd = s.mem p1;
            p4d = s.mem p2;
            pud = s.mem p3;
            pmd = s.mem p4;
            pte = s.mem p5;
            valid = 31;
          }
      words =
          let (n1, n2, n3, n4, n5) = h.nonnull in
          rw (vm_to_user, ne→== p1 0 n1, ne→== p2 0 n2, ne→== p3 0 n3, ne→== p4 0 n4, ne→== p5 0 n5)
            refl

      either :
          (lock : Bool)
          → entry (
              vm_to_user
                (resolve_vm k query.vaddr (cleared query.pid) lock s).1.mem
                query
                (resolve_vm k query.vaddr (cleared query.pid) lock s).0.1)
            ≡ entry (record {
              pid = query.pid;
              vaddr = query.vaddr;
              pgd = s.mem p1;
              p4d = s.mem p2;
              pud = s.mem p3;
              pmd = s.mem p4;
              pte = s.mem p5;
              valid = 31;
            })
      either true =
          rw ((resolve_vm-some k query.vaddr mm (cleared query.pid) s q).0, places) (ap entry words)
      either false =
          rw ((resolve_vm-some k query.vaddr mm (cleared query.pid) s q).1, places) (ap entry words)

  -- Given a process whose tables lead to a PTE, an ioctl that resolves an address after one that
  -- updated its PTE reports the new word for the PTE and, for the levels above, the words as they
  -- were before.
  pub vm_resolve-vm_update :
      (mm : ℕ) (new query : Entry) (s : Module)
      → get_mm k new.pid ≡ some mm
      → s.pgd mm ≡ pgd
      → HasPlaces k s.mem pgd addr p1 p2 p3 p4 p5
      → new.valid ≡ valid_mask_pte
      → new.vaddr ≡ addr
      → query.pid ≡ new.pid
      → query.vaddr ≡ addr
      → (device_ioctl k (vm_resolve query) (device_ioctl k (vm_update new) s).1).0
        ≡ entry (record {
          pid = query.pid;
          vaddr = query.vaddr;
          pgd = s.mem p1;
          p4d = s.mem p2;
          pud = s.mem p3;
          pmd = s.mem p4;
          pte = new.pte;
          valid = 31;
        })
  unfolding device_ioctl set_entries vm_to_user
  vm_resolve-vm_update mm new query s q root h only at same at' =
      let after = (device_ioctl k (vm_update new) s).1 in
      let (mem', pgd') = vm_update-stored mm new s q root h only at in
      let later =
        vm_resolve-places mm query after (rw same q) (rw pgd' root)
          (rw mem' (HasPlaces-update s.mem new.pte h)) at' in
      let (n1, n2, n3, n4) = h.apart in
      let w1 : after.mem p1 ≡ s.mem p1 = rw (mem', ne→== p5 p1 n1) in
      let w2 : after.mem p2 ≡ s.mem p2 = rw (mem', ne→== p5 p2 n2) in
      let w3 : after.mem p3 ≡ s.mem p3 = rw (mem', ne→== p5 p3 n3) in
      let w4 : after.mem p4 ≡ s.mem p4 = rw (mem', ne→== p5 p4 n4) in
      let w5 : after.mem p5 ≡ new.pte = rw (mem', eq→== p5 p5 refl) in
      later ∙ λ i.
      entry
        (record query { pgd = w1 i; p4d = w2 i; pud = w3 i; pmd = w4 i; pte = w5 i; valid = 31 })
