-- ===== src/Ptedit/Pread/Equal.antt =====
-- Two walks on x86_64 whose reads give the same words wherever the first one reads.
use user_level_mmap.Base.{
  ℕ, ◌*◌, ◌≡◌, ◌≢◌, refl, ◌&&◌, List, [], ◌∷◌, inl, inr, ◌==◌, ne→==, Bool-cases, All,
  if◌then◌else◌,
}
use user_level_mmap.Ptedit.Entry.{Entry, present, size, pfn}
use user_level_mmap.Ptedit.Walk.{
  x86_64_paging, pti, pgdi, pudi, pmdi, slot, root_slot, clean_root, resolve_user_ext, resolve_p4d,
  resolve_pud, resolve_pmd, resolve_pte,
}
use user_level_mmap.Ptedit.Walk.Spec.{walk, indices}

-- The addresses that the walk reads, as far as the tables go.
abbrev pub reads : (ℕ → ℕ) → ℕ → List ℕ → List ℕ
reads mem base [] = []
reads mem base (i ∷ []) = root_slot base i ∷ []
reads mem base (i ∷ j ∷ []) =
    let entry = mem (root_slot base i) in
    root_slot base i
    ∷ (if (present entry == 1) && (size entry == 0)
        then root_slot (pfn entry * 4096) j ∷ []
        else [])
reads mem base (i ∷ j ∷ k ∷ is) =
    let entry = mem (root_slot base i) in
    let rest = reads mem (pfn entry * 4096) (j ∷ k ∷ is) in
    root_slot base i ∷ (if present entry == 1 then rest else [])

module _ (deref deref' : ℕ → ℕ) where
  abbrev pub Same : ℕ → Type 0
  Same a = deref' a ≡ deref a

  -- Both walks lead to the same place.
  pub walk-Same :
      (base : ℕ) (is : List ℕ)
      → All Same (reads deref base is)
      → walk deref' base is ≡ walk deref base is
  walk-Same base [] same = refl
  walk-Same base (i ∷ []) same = refl
  walk-Same base (i ∷ j ∷ []) (here, rest) = rw here refl
  walk-Same base (i ∷ j ∷ k ∷ is) (here, rest) =
      elim (Bool-cases (present (deref (root_slot base i)) == 1)) [
        | inr off ↦ rw (here, off) refl
        | inl on ↦
            let below =
              walk-Same (pfn (deref (root_slot base i)) * 4096) (j ∷ k ∷ is) (rw on at rest) in
            rw (here, on) below
      ]

  module _ (addr : ℕ) where
    resolve_pmd-Same :
        (r : Entry)
        → All Same
            (reads deref (pfn r.pud * 4096) (pmdi x86_64_paging addr ∷ pti x86_64_paging addr ∷ []))
        → resolve_pmd x86_64_paging addr deref' r ≡ resolve_pmd x86_64_paging addr deref r
    unfolding resolve_pmd resolve_pte
    resolve_pmd-Same r (here, rest) =
        let e = deref (slot r.pud (pmdi x86_64_paging addr)) in
        elim (Bool-cases (present e == 1)) [
          | inr off ↦ rw (here, off) refl
          | inl on ↦ elim (Bool-cases (size e == 0)) [
            | inr large ↦ rw (here, on, large) refl
            | inl small ↦ let (last, _) = rw (on, small) at rest in rw (here, on, small, last) refl
          ]
        ]

    resolve_pud-Same :
        (r : Entry)
        → All Same (
            reads deref
              (pfn r.p4d * 4096)
              (pudi x86_64_paging addr ∷ pmdi x86_64_paging addr ∷ pti x86_64_paging addr ∷ []))
        → resolve_pud x86_64_paging addr deref' r ≡ resolve_pud x86_64_paging addr deref r
    unfolding resolve_pud
    resolve_pud-Same r (here, rest) =
        elim (Bool-cases (present (deref (slot r.p4d (pudi x86_64_paging addr))) == 1)) [
          | inr off ↦ rw (here, off) refl
          | inl on ↦ rw (here, on) (resolve_pmd-Same _ (rw on at rest))
        ]

    -- Both report the same entry.
    pub resolve_user_ext-Same :
        (pid paging_root : ℕ)
        → clean_root paging_root ≢ 0
        → All Same (reads deref (clean_root paging_root) (indices x86_64_paging addr))
        → resolve_user_ext x86_64_paging addr deref' pid paging_root
          ≡ resolve_user_ext x86_64_paging addr deref pid paging_root
    unfolding resolve_user_ext resolve_p4d
    resolve_user_ext-Same pid paging_root real (here, rest) =
        let root = clean_root paging_root in
        elim (Bool-cases (present (deref (root_slot root (pgdi x86_64_paging addr))) == 1)) [
          | inr off ↦ rw (ne→== root 0 real, here, off) refl
          | inl on ↦ rw (ne→== root 0 real, here, on) (resolve_pud-Same _ (rw on at rest))
        ]
