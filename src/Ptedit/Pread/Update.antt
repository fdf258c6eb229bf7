-- ===== src/Ptedit/Pread/Update.antt =====
-- What `ptedit_resolve_user` and `ptedit_update_user` do on x86_64, where calls fail and where none
-- does.
use mathlib.Core.Path.{subst}
use user_level_mmap.Base.{
  ℕ, ◌*◌, ◌≡◌, ◌≢◌, refl, sym, ap, ◌∙◌, true, false, ◌&&◌, Option, none, some, List, [], ◌∷◌, inl,
  inr, ◌==◌, ne→==, Bool-cases, All, All-map, if◌then◌else◌, arith, update,
}
use user_level_mmap.Ptedit.Entry.{Entry, present, size, pfn, test, valid_mask_pte}
use user_level_mmap.Ptedit.Walk.{
  x86_64_paging, root_slot, clean_root, Machine, resolve_user_map, update_user_ext, update_user_map,
  invalidate_tlb,
}
use user_level_mmap.Ptedit.Walk.Spec.{walk, indices}
use user_level_mmap.Ptedit.Walk.Resolve.{IsResolved, resolve_user_ext-walk}
use user_level_mmap.Ptedit.Walk.Update.{written, walk_of, update_user_map-walk}
use user_level_mmap.Ptedit.Pread.{Umem, phys_read_pread, resolve_user, update_user}
use user_level_mmap.Ptedit.Pread.Equal.{reads, Same, walk-Same, resolve_user_ext-Same}

-- Memory after a word was to be stored at the place of a walk.
abbrev pub stored : Umem → (ℕ → ℕ) → ℕ → Option ℕ → ℕ → ℕ
stored u mem v none = mem
stored u mem v (some a) = if u.write_failed a then mem else update mem a v

module _ (u : Umem) (addr pid : ℕ) (m : Machine) (real : clean_root (m.paging_root pid) ≢ 0) where
  abbrev root : ℕ
  root = clean_root (m.paging_root pid)

  -- Where the walk leads that takes the words that cannot be read as zeros.
  abbrev pub seen : Option ℕ
  seen = walk (phys_read_pread u m.mem) root (indices x86_64_paging addr)

  module _ (vm : Entry) (only_pte : vm.valid ≡ valid_mask_pte) where
    update-stored :
        (o : Option ℕ)
        → IsResolved addr (phys_read_pread u m.mem) o (resolve_user u x86_64_paging addr pid m)
        → update_user u x86_64_paging addr pid vm m
          ≡ record m { mem = stored u m.mem vm.pte o; flushed = addr ∷ addr ∷ m.flushed }
    unfolding update_user update_user_ext invalidate_tlb
    update-stored none no_pte = ground (arith, ne→== _ _ real)
    update-stored (some a) (marked, _, place) = ground (arith, ne→== _ _ real)

    -- Asked to update the PTE alone below a root that is not null, whatever calls fail,
    -- `ptedit_update_user` stores the new word at most at one place: the one that the walk leads to in
    -- which a word that cannot be read is 0, unless `pwrite` fails there. It flushes the address twice
    -- in every case.
    pub update_user-walk :
        update_user u x86_64_paging addr pid vm m
        ≡ record m { mem = stored u m.mem vm.pte seen; flushed = addr ∷ addr ∷ m.flushed }
    unfolding resolve_user
    update_user-walk =
        update-stored seen
          (resolve_user_ext-walk addr pid (m.paging_root pid) (phys_read_pread u m.mem) real)

  -- Where `pread` fails at the place that the walk leads to, `ptedit_resolve_user` reports the PTE as
  -- valid and its word as 0.
  pub resolve_user-unread :
      (a : ℕ)
      → seen ≡ some a
      → u.read_failed a ≡ true
      → (let r = resolve_user u x86_64_paging addr pid m in
          (test r.valid valid_mask_pte ≡ true) × (r.pte ≡ 0))
  unfolding resolve_user
  resolve_user-unread a leads unread =
      let (marked, word, _) =
        rw leads at
          (resolve_user_ext-walk addr pid (m.paging_root pid) (phys_read_pread u m.mem) real) in
      (marked, word ∙ rw unread refl)

-- Neither `pread` nor `pwrite` fails at the address.
abbrev pub Reached : Umem → ℕ → Type 0
Reached u a = (u.read_failed a ≡ false) × (u.write_failed a ≡ false)

-- What holds of the addresses that a walk reads holds of the place that it leads to.
walk-All :
    (P : ℕ → Type 0) (mem : ℕ → ℕ) (base a : ℕ) (is : List ℕ)
    → All P (reads mem base is)
    → walk mem base is ≡ some a
    → P a
walk-All P mem base a [] reached leads = cc
walk-All P mem base a (i ∷ []) (here, reached) leads =
    let e : root_slot base i ≡ a = cc leads in subst P e here
walk-All P mem base a (i ∷ j ∷ []) (here, reached) leads =
    let entry = mem (root_slot base i) in
    elim (Bool-cases ((present entry == 1) && (size entry == 0))) [
      | inr off ↦ let no : none ≡ some a = rw off at leads in cc
      | inl on ↦
          let e : some (root_slot (pfn entry * 4096) j) ≡ some a = rw on at leads in
          let (last, _) = rw on at reached in
          let q : root_slot (pfn entry * 4096) j ≡ a = cc e in subst P q last
    ]
walk-All P mem base a (i ∷ j ∷ k ∷ is) (here, reached) leads =
    let entry = mem (root_slot base i) in
    elim (Bool-cases (present entry == 1)) [
      | inr off ↦ let no : none ≡ some a = rw off at leads in cc
      | inl on ↦
          walk-All P mem (pfn entry * 4096) a (j ∷ k ∷ is) (rw on at reached) (rw on at leads)
    ]

stored-written :
    (u : Umem) (mem : ℕ → ℕ) (v : ℕ) (o : Option ℕ)
    → ((a : ℕ) → o ≡ some a → u.write_failed a ≡ false)
    → stored u mem v o ≡ written mem v o
stored-written u mem v none ok = refl
stored-written u mem v (some a) ok = rw (ok a refl) refl

-- Where neither `pread` nor `pwrite` fails at an address that the walk from the root reads, that
-- root not being null: `ptedit_resolve_user` reports the same entry as `ptedit_resolve_user_map`, and
-- `ptedit_update_user`, asked to update the PTE alone, changes the same as `ptedit_update_user_map`.
pub resolve_user-update_user :
    (u : Umem) (addr pid : ℕ) (vm : Entry) (m : Machine)
    → vm.valid ≡ valid_mask_pte
    → clean_root (m.paging_root pid) ≢ 0
    → All (Reached u) (reads m.mem (clean_root (m.paging_root pid)) (indices x86_64_paging addr))
    → (resolve_user u x86_64_paging addr pid m ≡ resolve_user_map x86_64_paging addr pid m)
      × (update_user u x86_64_paging addr pid vm m ≡ update_user_map x86_64_paging addr pid vm m)
unfolding resolve_user resolve_user_map
resolve_user-update_user u addr pid vm m only_pte real reached =
    let base = clean_root (m.paging_root pid) in
    let same =
      All-map (Reached u) (Same m.mem (phys_read_pread u m.mem))
        (reads m.mem base (indices x86_64_paging addr)) (λ a h. rw h.0 refl) reached in
    let leads : seen u addr pid m real ≡ walk_of m pid addr =
      walk-Same m.mem (phys_read_pread u m.mem) base (indices x86_64_paging addr) same in
    let result =
      stored-written u m.mem vm.pte (walk_of m pid addr)
        (λ a e. (walk-All (Reached u) m.mem base a (indices x86_64_paging addr) reached e).1) in
    (
      resolve_user_ext-Same m.mem (phys_read_pread u m.mem) addr pid (m.paging_root pid) real same,
      update_user-walk u addr pid m real vm only_pte
          ∙ ap (λ (w : ℕ → ℕ). record m { mem = w; flushed = addr ∷ addr ∷ m.flushed })
              (ap (stored u m.mem vm.pte) leads ∙ result)
          ∙ sym (update_user_map-walk addr pid vm m only_pte real),
    )
