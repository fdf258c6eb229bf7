-- ===== src/Ptedit/Walk/Resolve.antt =====
-- The walk of `ptedit_resolve_user_ext` on x86_64 against its description on the list of indices.
use user_level_mmap.Base.{
  ℕ, ◌≡◌, ◌≢◌, refl, true, false, Option, none, some, inl, inr, ◌==◌, ne→==, Bool-cases,
}
use user_level_mmap.Ptedit.Entry.{Entry, present, size, test, valid_mask_pte}
use user_level_mmap.Ptedit.Walk.{
  x86_64_paging, pti, pgdi, pudi, pmdi, slot, root_slot, clean_root, resolve_user_ext, resolve_p4d,
  resolve_pud, resolve_pmd, resolve_pte, Machine, resolve_user_map,
}
use user_level_mmap.Ptedit.Walk.Spec.{walk, indices}

-- What a resolved entry says of the place of the last entry, if the tables lead to one.
abbrev pub IsResolved : (addr : ℕ) → (ℕ → ℕ) → Option ℕ → Entry → Type 0
IsResolved addr mem none r = test r.valid valid_mask_pte ≡ false
IsResolved addr mem (some a) r =
    (test r.valid valid_mask_pte ≡ true)
    × (r.pte ≡ mem a)
    × (slot r.pmd (pti x86_64_paging addr) ≡ a)

-- For a root that is not null, `ptedit_resolve_user_ext` marks the PTE as valid exactly when the
-- tables lead to a last entry, and then `pte` is the word at that place, and the frame of `pmd`
-- and the index of the address give that place.
pub resolve_user_ext-walk :
    (addr pid paging_root : ℕ) (mem : ℕ → ℕ)
    → clean_root paging_root ≢ 0
    → IsResolved addr mem
        (walk mem (clean_root paging_root) (indices x86_64_paging addr))
        (resolve_user_ext x86_64_paging addr mem pid paging_root)
unfolding resolve_user_ext resolve_p4d resolve_pud resolve_pmd resolve_pte
resolve_user_ext-walk addr pid paging_root mem real =
    let d = x86_64_paging in
    let root = clean_root paging_root in
    let pgd = mem (root_slot root (pgdi d addr)) in
    let pud = mem (slot pgd (pudi d addr)) in
    let pmd = mem (slot pud (pmdi d addr)) in
    elim (Bool-cases (present pgd == 1)) [
      | inr off ↦ rw (ne→== root 0 real, off)
      | inl on ↦ elim (Bool-cases (present pud == 1)) [
        | inr off' ↦ rw (ne→== root 0 real, on, off')
        | inl on' ↦ elim (Bool-cases (present pmd == 1)) [
          | inr off'' ↦ rw (ne→== root 0 real, on, on', off'')
          | inl on'' ↦ elim (Bool-cases (size pmd == 0)) [
            | inr large ↦ rw (ne→== root 0 real, on, on', on'', large)
            | inl small ↦ rw (ne→== root 0 real, on, on', on'', small) (refl, refl, refl)
          ]
        ]
      ]
    ]

-- The same of `ptedit_resolve_user_map`, on the words of a machine.
pub resolve_user_map-walk :
    (addr pid : ℕ) (m : Machine)
    → clean_root (m.paging_root pid) ≢ 0
    → IsResolved addr m.mem
        (walk m.mem (clean_root (m.paging_root pid)) (indices x86_64_paging addr))
        (resolve_user_map x86_64_paging addr pid m)
unfolding resolve_user_map
resolve_user_map-walk addr pid m real =
    resolve_user_ext-walk addr pid (m.paging_root pid) m.mem real

-- The words that `ptedit_resolve_user_map` reports where all levels are present.
pub resolve_user_map-words :
    (addr pid : ℕ) (m : Machine)
    → (let root = clean_root (m.paging_root pid) in
        let e4 = m.mem (root_slot root (pgdi x86_64_paging addr)) in
        let e3 = m.mem (slot e4 (pudi x86_64_paging addr)) in
        let e2 = m.mem (slot e3 (pmdi x86_64_paging addr)) in
        root ≢ 0
        → present e4 ≡ 1
        → present e3 ≡ 1
        → present e2 ≡ 1
        → size e2 ≡ 0
        → resolve_user_map x86_64_paging addr pid m ≡ record {
          pid = pid;
          vaddr = addr;
          pgd = e4;
          p4d = e4;
          pud = e3;
          pmd = e2;
          pte = m.mem (slot e2 (pti x86_64_paging addr));
          valid = 29;
        })
unfolding resolve_user_map resolve_user_ext resolve_p4d resolve_pud resolve_pmd resolve_pte
resolve_user_map-words addr pid m real on4 on3 on2 small =
    rw (ne→== _ 0 real, on4, on3, on2, small) refl
