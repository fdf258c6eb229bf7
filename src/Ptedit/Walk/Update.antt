-- ===== src/Ptedit/Walk/Update.antt =====
-- `ptedit_update_user_map` with only the PTE marked, on x86_64: what it writes, and what a walk
-- reads afterwards.
use user_level_mmap.Base.{
  ℕ, ◌^◌, ◌<◌, ◌≡◌, ◌≢◌, ap, ◌∙◌, true, false, Option, none, some, ◌∷◌, arith, ne→==, update, has,
}
use user_level_mmap.Ptedit.Entry.{Entry, test, valid_mask_pte}
use user_level_mmap.Ptedit.Walk.{
  x86_64_paging, clean_root, Machine, resolve_user_map, update_user_ext, update_user_map,
  invalidate_tlb,
}
use user_level_mmap.Ptedit.Walk.Spec.{walk, above, indices, walk-update, above-update}
use user_level_mmap.Ptedit.Walk.Resolve.{IsResolved, resolve_user_ext-walk}

abbrev pub written : (ℕ → ℕ) → ℕ → Option ℕ → ℕ → ℕ
written mem v none = mem
written mem v (some a) = update mem a v

-- The walk of the page tables of a process for an address.
abbrev pub walk_of : Machine → (pid addr : ℕ) → Option ℕ
walk_of m pid addr = walk m.mem (clean_root (m.paging_root pid)) (indices x86_64_paging addr)

module _ (addr pid : ℕ) (vm : Entry) (m : Machine) (only_pte : vm.valid ≡ valid_mask_pte)
    (real : clean_root (m.paging_root pid) ≢ 0) where
  update-written :
      (o : Option ℕ)
      → IsResolved addr m.mem o (resolve_user_map x86_64_paging addr pid m)
      → update_user_map x86_64_paging addr pid vm m
        ≡ record m { mem = written m.mem vm.pte o; flushed = addr ∷ addr ∷ m.flushed }
  unfolding update_user_map update_user_ext invalidate_tlb
  update-written none no_pte = ground (arith, ne→== _ _ real)
  update-written (some a) (marked, _, place) = ground (arith, ne→== _ _ real)

-- Asked to update the PTE alone below a root that is not null, `ptedit_update_user_map` stores the
-- new word at the one place that the tables lead to, or nowhere if they lead to none, and flushes
-- the address twice.
pub update_user_map-walk :
    (addr pid : ℕ) (vm : Entry) (m : Machine)
    → vm.valid ≡ valid_mask_pte
    → clean_root (m.paging_root pid) ≢ 0
    → update_user_map x86_64_paging addr pid vm m ≡ record m {
      mem = written m.mem vm.pte (walk_of m pid addr);
      flushed = addr ∷ addr ∷ m.flushed;
    }
unfolding resolve_user_map
update_user_map-walk addr pid vm m only_pte real =
    update-written addr pid vm m only_pte real (walk_of m pid addr)
      (resolve_user_ext-walk addr pid (m.paging_root pid) m.mem real)

-- The place that the walk leads to is not one of the entries that it passes.
abbrev pub IsLeaf : Machine → (pid addr a : ℕ) → Type 0
IsLeaf m pid addr a =
    (walk_of m pid addr ≡ some a)
    × (has a (above m.mem (clean_root (m.paging_root pid)) (indices x86_64_paging addr)) ≡ false)

pub IsResolved-leaf :
    (addr pid a : ℕ) (m : Machine)
    → clean_root (m.paging_root pid) ≢ 0
    → walk_of m pid addr ≡ some a
    → IsResolved addr m.mem (some a) (resolve_user_map x86_64_paging addr pid m)
unfolding resolve_user_map
IsResolved-leaf addr pid a m real e =
    rw e at (resolve_user_ext-walk addr pid (m.paging_root pid) m.mem real)

module _ (addr pid a : ℕ) (vm : Entry) (m : Machine) (only_pte : vm.valid ≡ valid_mask_pte)
    (real : clean_root (m.paging_root pid) ≢ 0) (leaf : IsLeaf m pid addr a) where
  updated : Machine
  updated = record m { mem = update m.mem a vm.pte; flushed = addr ∷ addr ∷ m.flushed }

  updated-eq : update_user_map x86_64_paging addr pid vm m ≡ updated
  unfolding updated
  updated-eq = rw leaf.0 at (update_user_map-walk addr pid vm m only_pte real)

  -- A walk that the written word is not above leads to the same place as before.
  walk_of-updated :
      (pid' addr' : ℕ)
      → has a (above m.mem (clean_root (m.paging_root pid')) (indices x86_64_paging addr')) ≡ false
      → walk_of updated pid' addr' ≡ walk_of m pid' addr'
  unfolding updated
  walk_of-updated pid' addr' out =
      walk-update m.mem a vm.pte (clean_root (m.paging_root pid')) (indices x86_64_paging addr') out

  -- What `ptedit_update_user_map` stored into a PTE that the tables lead to is what
  -- `ptedit_resolve_user_map` reads next, where the place of the PTE is not also an entry that the
  -- walk passes.
  pub resolve-update :
      (let r =
          resolve_user_map x86_64_paging addr pid (update_user_map x86_64_paging addr pid vm m) in
        (test r.valid valid_mask_pte ≡ true) × (r.pte ≡ vm.pte))
  unfolding updated
  resolve-update = rw updated-eq (
      let (marked, word, _) =
        IsResolved-leaf addr pid a updated real (walk_of-updated pid addr leaf.1 ∙ leaf.0) in
      (marked, word ∙ ground arith))

  -- The update leaves the PTE of an address alone whose walk leads to another place, if the
  -- written word is not one of the entries that this walk passes.
  pub resolve-update_ne :
      (pid' addr' b : ℕ)
      → clean_root (m.paging_root pid') ≢ 0
      → walk_of m pid' addr' ≡ some b
      → has a (above m.mem (clean_root (m.paging_root pid')) (indices x86_64_paging addr')) ≡ false
      → a ≢ b
      → (resolve_user_map x86_64_paging addr' pid'
          (update_user_map x86_64_paging addr pid vm m)).pte
        ≡ (resolve_user_map x86_64_paging addr' pid' m).pte
  unfolding updated
  resolve-update_ne pid' addr' b real' e out ne = rw updated-eq (
      let after = IsResolved-leaf addr' pid' b updated real' (walk_of-updated pid' addr' out ∙ e) in
      let before = IsResolved-leaf addr' pid' b m real' e in after.1 ∙ ground (arith, before.1))

  -- The update keeps the walk of its own address.
  pub IsLeaf-update : IsLeaf (update_user_map x86_64_paging addr pid vm m) pid addr a
  unfolding updated
  IsLeaf-update = rw updated-eq (
    walk_of-updated pid addr leaf.1 ∙ leaf.0,
    ap (has a) (
          above-update m.mem a vm.pte (clean_root (m.paging_root pid)) (indices x86_64_paging addr)
            leaf.1)
        ∙ leaf.1,
  )

  -- The update keeps the walk of every address that it is not above.
  pub walk_of-update :
      (pid' addr' : ℕ)
      → has a (above m.mem (clean_root (m.paging_root pid')) (indices x86_64_paging addr')) ≡ false
      → (let m' = update_user_map x86_64_paging addr pid vm m in
          (walk_of m' pid' addr' ≡ walk_of m pid' addr')
          × (above m'.mem (clean_root (m'.paging_root pid')) (indices x86_64_paging addr')
              ≡ above m.mem (clean_root (m.paging_root pid')) (indices x86_64_paging addr')))
  unfolding updated
  walk_of-update pid' addr' out = rw updated-eq (
    walk_of-updated pid' addr' out,
    above-update m.mem a vm.pte (clean_root (m.paging_root pid')) (indices x86_64_paging addr') out,
  )

  -- The update keeps the words of memory within their width.
  pub mem-update-lt :
      vm.pte < 2 ^ 64
      → ((x : ℕ) → m.mem x < 2 ^ 64)
      → (x : ℕ) → (update_user_map x86_64_paging addr pid vm m).mem x < 2 ^ 64
  unfolding updated
  mem-update-lt small words x = rw updated-eq (ground (arith, words x))

  -- The update does not move the roots.
  pub paging_root-update : (update_user_map x86_64_paging addr pid vm m).paging_root ≡ m.paging_root
  unfolding updated
  paging_root-update = rw updated-eq
