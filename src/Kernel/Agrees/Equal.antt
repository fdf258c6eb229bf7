-- ===== src/Kernel/Agrees/Equal.antt =====
-- `ptedit_resolve_kernel` and `ptedit_resolve_user_map`, level by level, on the same tables.
use native.Mathlib.Nat.{mod-lt}
use user_level_mmap.Base.{
  ℕ, ◌*◌, ◌^◌, ◌<◌, ◌≡◌, ◌≢◌, inl, inr, refl, sym, ap, ◌∙◌, arith, Bool, true, false, not, ◌==◌,
  ne→==, none, some, Bool-cases,
}
use user_level_mmap.Ptedit.Entry.{Entry, present, size, pfn, get_pfn, test, valid_mask_pte}
use user_level_mmap.Ptedit.Walk.{
  x86_64_paging, Machine, root_slot, clean_root, pgdi, pudi, pmdi, pti, resolve_user_map,
}
use user_level_mmap.Ptedit.Walk.Spec.{walk, indices}
use user_level_mmap.Ptedit.Walk.Frame.{get_pfn-pfn}
use user_level_mmap.Ptedit.Walk.Resolve.{IsResolved, resolve_user_map-walk, resolve_user_map-words}
use user_level_mmap.Kernel.{
  Linux, Module, VmT, get_mm, resolve_pgd, resolve_p4d, resolve_pud, resolve_pmd, resolve_pte,
  resolve_vm, vm_to_user,
}
use user_level_mmap.Kernel.Run.{cleared, found, resolve_vm-some}
use user_level_mmap.Kernel.Device.{device_ioctl}
use user_level_mmap.Kernel.Implementation.{query, resolve_kernel}
use user_level_mmap.Kernel.Agrees.{IsFourLevel, IsTable, IsClean, Agrees}

in_memory : (base i : ℕ) → base < 2 ^ 45 → i < 512 → root_slot base i < 2 ^ 46
in_memory base i low lt = omega arith

below_frame : (word i : ℕ) → i < 512 → root_slot (pfn word * 4096) i < 2 ^ 46
below_frame word i lt =
    let frame : pfn word < 2 ^ 28 = mod-lt _ (omega arith) in
    in_memory (pfn word * 4096) i (omega arith) lt

module _ (k : Linux) where
  -- What the ioctl reports for a process with an address space.
  resolve_kernel-found :
      (address pid mm : ℕ) (s : Module)
      → get_mm k pid ≡ some mm
      → resolve_kernel k address pid s
        ≡ vm_to_user s.mem (query k address pid) (found k mm address pid s).1
  unfolding resolve_kernel device_ioctl
  resolve_kernel-found address pid mm s q = either (not s.mm_is_locked)
    where
      either :
          (lock : Bool)
          → vm_to_user
              (resolve_vm k address (cleared pid) lock s).1.mem
              (query k address pid)
              (resolve_vm k address (cleared pid) lock s).0.1
            ≡ vm_to_user s.mem (query k address pid) (found k mm address pid s).1
      either true = rw (resolve_vm-some k address mm (cleared pid) s q).0 refl
      either false = rw (resolve_vm-some k address mm (cleared pid) s q).1 refl

  module _ (four : IsFourLevel k) (s : Module) (m : Machine)
      (direct : (p : ℕ) → p < 2 ^ 46 → s.mem (k.phys_to_virt p) ≡ m.mem p)
      (words : (x : ℕ) → m.mem x < 2 ^ 64) (root v pid : ℕ) (low : root < 2 ^ 45) where
    abbrev p4 : ℕ
    p4 = root_slot root (pgdi x86_64_paging v)

    abbrev e4 : ℕ
    e4 = m.mem p4

    abbrev p3 : ℕ
    p3 = root_slot (pfn e4 * 4096) (pudi x86_64_paging v)

    abbrev e3 : ℕ
    e3 = m.mem p3

    abbrev p2 : ℕ
    p2 = root_slot (pfn e3 * 4096) (pmdi x86_64_paging v)

    abbrev e2 : ℕ
    e2 = m.mem p2

    abbrev p1 : ℕ
    p1 = root_slot (pfn e2 * 4096) (pti x86_64_paging v)

    at_p4 : p4 < 2 ^ 46
    at_p4 = in_memory root _ low (mod-lt _ (omega arith))

    at_p3 : p3 < 2 ^ 46
    at_p3 = below_frame e4 _ (mod-lt _ (omega arith))

    at_p2 : p2 < 2 ^ 46
    at_p2 = below_frame e3 _ (mod-lt _ (omega arith))

    at_p1 : p1 < 2 ^ 46
    at_p1 = below_frame e2 _ (mod-lt _ (omega arith))

    -- Where the module looks for the entry that another one leads to.
    below :
        (e i : ℕ)
        → e < 2 ^ 64
        → get_pfn e < 2 ^ 28
        → k.phys_to_virt (root_slot (get_pfn e * 4096) i)
          ≡ k.phys_to_virt (root_slot (pfn e * 4096) i)
    below e i h narrow = ap (λ f. k.phys_to_virt (root_slot (f * 4096) i)) (get_pfn-pfn e h narrow)

    -- What the module has found after each level.
    abbrev at4 : VmT
    at4 = record (cleared pid) { pgd = k.phys_to_virt p4; valid = 1 }

    abbrev at_p4d : VmT
    at_p4d = record at4 { p4d = k.phys_to_virt p4; valid = 3 }

    abbrev at3 : VmT
    at3 = record at_p4d { pud = k.phys_to_virt p3; valid = 7 }

    abbrev at2 : VmT
    at2 = record at3 { pmd = k.phys_to_virt p2; valid = 15 }

    step4 : resolve_pgd k s.mem v (k.phys_to_virt root) (cleared pid) ≡ resolve_p4d k s.mem v at4
    unfolding resolve_pgd
    step4 =
        rw (four.pgd_at root v, direct p4 at_p4, (four.pgd_folded e4).0, (four.pgd_folded e4).1)
          refl

    none4 : e4 ≡ 0 → resolve_p4d k s.mem v at4 ≡ (true, at4)
    unfolding resolve_p4d
    none4 z =
        rw
          (direct p4 at_p4, four.p4d_at (k.phys_to_virt p4) e4 v, direct p4 at_p4, z, four.p4d_zero)
          refl

    step_p4d :
        present e4 ≡ 1
        → IsTable four.isolated e4
        → resolve_p4d k s.mem v at4 ≡ resolve_pud k s.mem v at_p4d
    unfolding resolve_p4d
    step_p4d on table =
        let (some4, good4) = four.p4d_present e4 on table in
        rw (direct p4 at_p4, four.p4d_at (k.phys_to_virt p4) e4 v, direct p4 at_p4, some4, good4)
          refl

    module _ (narrow4 : get_pfn e4 < 2 ^ 28) (table4 : IsTable four.isolated e4) where
      place3 : k.pud_offset (k.phys_to_virt p4) e4 v ≡ k.phys_to_virt p3
      place3 = four.pud_at (k.phys_to_virt p4) e4 v table4 ∙ below e4 _ (words p4) narrow4

      none3 : e3 ≡ 0 → resolve_pud k s.mem v at_p4d ≡ (true, at_p4d)
      unfolding resolve_pud
      none3 z = rw (direct p4 at_p4, place3, direct p3 at_p3, z, four.pud_zero) refl

      step3 : present e3 ≡ 1 → resolve_pud k s.mem v at_p4d ≡ resolve_pmd k s.mem v at3
      unfolding resolve_pud
      step3 on = rw (direct p4 at_p4, place3, direct p3 at_p3, (four.pud_present e3 on).0) refl

    module _ (narrow3 : get_pfn e3 < 2 ^ 28) (small3 : size e3 ≡ 0) where
      place2 : k.pmd_offset (k.phys_to_virt p3) e3 v ≡ k.phys_to_virt p2
      place2 = four.pmd_at (k.phys_to_virt p3) e3 v small3 ∙ below e3 _ (words p3) narrow3

      none2 : e2 ≡ 0 → resolve_pmd k s.mem v at3 ≡ (true, at3)
      unfolding resolve_pmd
      none2 z = rw (direct p3 at_p3, place2, direct p2 at_p2, z, four.pmd_zero) refl

      step2 :
          present e3 ≡ 1 → present e2 ≡ 1 → resolve_pmd k s.mem v at3 ≡ resolve_pte k s.mem v at2
      unfolding resolve_pmd
      step2 on3 on =
          let no_large : k.pud_large e3 ≡ false = (four.pud_present e3 on3).1 ∙ rw small3 refl in
          rw (direct p3 at_p3, place2, direct p2 at_p2, (four.pmd_present e2 on).0, no_large) refl

    last_large : present e2 ≡ 1 → size e2 ≡ 1 → resolve_pte k s.mem v at2 ≡ (true, at2)
    unfolding resolve_pte
    last_large on2 large =
        let is_large : k.pmd_large e2 ≡ true = (four.pmd_present e2 on2).1 ∙ rw large refl in
        rw (direct p2 at_p2, is_large) (ground arith)

    module _ (narrow2 : get_pfn e2 < 2 ^ 28) (on2 : present e2 ≡ 1) (small2 : size e2 ≡ 0) where
      place1 : k.pte_offset_map (k.phys_to_virt p2) e2 v ≡ k.phys_to_virt p1
      place1 = four.pte_at (k.phys_to_virt p2) e2 v small2 ∙ below e2 _ (words p2) narrow2

      last_small :
          resolve_pte k s.mem v at2 ≡ (false, record at2 { pte = k.phys_to_virt p1; valid = 31 })
      unfolding resolve_pte
      last_small =
          let not_large : k.pmd_large e2 ≡ false = (four.pmd_present e2 on2).1 ∙ rw small2 refl in
          rw
            (direct p2 at_p2, place1, ne→== (k.phys_to_virt p1) 0 (four.mapped p1 at_p1), not_large)
            refl

    -- What the ioctl copies to the caller where all levels were found.
    copied :
        vm_to_user s.mem (query k v pid) (record at2 { pte = k.phys_to_virt p1; valid = 31 })
        ≡ record {
          pid = pid;
          vaddr = v;
          pgd = e4;
          p4d = e4;
          pud = e3;
          pmd = e2;
          pte = m.mem p1;
          valid = 31;
        }
    unfolding vm_to_user
    copied =
        rw
          (
            ne→== (k.phys_to_virt p4) 0 (four.mapped p4 at_p4),
            ne→== (k.phys_to_virt p3) 0 (four.mapped p3 at_p3),
            ne→== (k.phys_to_virt p2) 0 (four.mapped p2 at_p2),
            ne→== (k.phys_to_virt p1) 0 (four.mapped p1 at_p1),
            direct p4 at_p4,
            direct p3 at_p3,
            direct p2 at_p2,
            direct p1 at_p1,
          )
          refl

    module _ (mm : ℕ) (has_mm : get_mm k pid ≡ some mm) (pgd : s.pgd mm ≡ k.phys_to_virt root)
        (rooted : clean_root (m.paging_root pid) ≡ root) (real : root ≢ 0) where
      abbrev user : Entry
      user = resolve_user_map x86_64_paging v pid m

      reported :
          (r : Bool × VmT)
          → resolve_p4d k s.mem v at4 ≡ r
          → resolve_kernel k v pid s ≡ vm_to_user s.mem (query k v pid) r.1
      reported r e =
          resolve_kernel-found v pid mm s has_mm
          ∙ ap
              (λ (g : ℕ).
                vm_to_user s.mem (query k v pid) (resolve_pgd k s.mem v g (cleared pid)).1)
              pgd
          ∙ ap (λ (x : Bool × VmT). vm_to_user s.mem (query k v pid) x.1) (step4 ∙ e)

      user-IsResolved : IsResolved v m.mem (walk m.mem root (indices x86_64_paging v)) user
      user-IsResolved = rw rooted at (resolve_user_map-walk v pid m (λ e. real (sym rooted ∙ e)))

      -- Both find no PTE.
      none_found :
          (e : VmT)
          → test e.valid valid_mask_pte ≡ false
          → resolve_p4d k s.mem v at4 ≡ (true, e)
          → walk m.mem root (indices x86_64_paging v) ≡ none
          → Agrees (walk m.mem root (indices x86_64_paging v)) (resolve_kernel k v pid s) user
      unfolding vm_to_user
      none_found e unset stuck ends =
          let u : test user.valid valid_mask_pte ≡ false = rw ends at user-IsResolved in
          rw ends (rw (reported (true, e) stuck) unset, u)

      -- Both find the PTE.
      both_found :
          present e4 ≡ 1
          → present e3 ≡ 1
          → present e2 ≡ 1
          → size e2 ≡ 0
          → resolve_p4d k s.mem v at4 ≡ (false, record at2 { pte = k.phys_to_virt p1; valid = 31 })
          → Agrees (walk m.mem root (indices x86_64_paging v)) (resolve_kernel k v pid s) user
      both_found on4 on3 on2 small found_all =
          let leads : walk m.mem root (indices x86_64_paging v) ≡ some p1 =
            rw (on4, on3, on2, small) refl in
          let kernel =
            reported (false, record at2 { pte = k.phys_to_virt p1; valid = 31 }) found_all
            ∙ copied in
          let words_of : user ≡ record {
            pid = pid;
            vaddr = v;
            pgd = e4;
            p4d = e4;
            pud = e3;
            pmd = e2;
            pte = m.mem p1;
            valid = 29;
          } =
            (rw rooted at (resolve_user_map-words v pid m)) real on4 on3 on2 small in
          rw (leads, kernel, words_of) (refl, refl, refl, refl, refl, refl, refl)

      -- On tables of four levels whose entries above the last level are zero or present with frame
      -- numbers of 28 bits, the top one with no flags but those of a table, and that map no page of
      -- 1 GiB, with the root below 32 TiB, for a process with an address space:
      -- `ptedit_resolve_kernel` and `ptedit_resolve_user_map` mark the PTE as valid both or neither,
      -- and if they do, they report the same words for all five levels.
      pub resolve_kernel-resolve_user_map :
          IsClean four.isolated m.mem root (indices x86_64_paging v)
          → Agrees (walk m.mem root (indices x86_64_paging v)) (resolve_kernel k v pid s) user
      resolve_kernel-resolve_user_map (inl z4) = none_found at4 refl (none4 z4) (rw z4 refl)
      resolve_kernel-resolve_user_map (inr (on4, narrow4, table4, inl z3)) =
          none_found at_p4d refl (step_p4d on4 table4 ∙ none3 narrow4 table4 z3) (rw (on4, z3) refl)
      resolve_kernel-resolve_user_map
            (inr (on4, narrow4, table4, inr (on3, narrow3, small3, inl z2))) =
          none_found at3 refl
            (step_p4d on4 table4 ∙ step3 narrow4 table4 on3 ∙ none2 narrow3 small3 z2)
            (rw (on4, on3, z2) refl)
      resolve_kernel-resolve_user_map
            (inr (on4, narrow4, table4, inr (on3, narrow3, small3, inr (on2, narrow2)))) =
          let down =
            step_p4d on4 table4 ∙ step3 narrow4 table4 on3 ∙ step2 narrow3 small3 on3 on2 in
          elim (Bool-cases (size e2 == 1)) [
            | inl large ↦
                let e : size e2 ≡ 1 = ground arith in
                none_found at2 refl (down ∙ last_large on2 e) (rw (on4, on3, on2, e) refl)
            | inr small ↦
                let e : size e2 ≡ 0 = ground arith in
                both_found on4 on3 on2 e (down ∙ last_small narrow2 on2 e)
          ]
