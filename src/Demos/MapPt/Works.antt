-- ===== src/Demos/MapPt/Works.antt =====
-- What map_pt.c reports.
use user_level_mmap.Base.{
  ℕ, ◌%◌, ◌^◌, ◌<◌, ◌≡◌, refl, ◌∙◌, sym, ap, arith, true, false, eq→==, some,
}
use user_level_mmap.Ptedit.Entry.{Entry, set_pfn, get_pfn}
use user_level_mmap.Ptedit.Entry.Laws.{get_pfn-set_pfn, get_pfn-lt}
use user_level_mmap.Ptedit.Walk.{
  x86_64_paging, clean_root, Machine, resolve_user_map, phys_write, invalidate_tlb,
}
use user_level_mmap.Ptedit.Walk.Resolve.{IsResolved}
use user_level_mmap.Ptedit.Walk.Spec.{walk-update, indices}
use user_level_mmap.Ptedit.Walk.Update.{walk_of, IsResolved-leaf}
use user_level_mmap.Ptedit.UserMap.{
  user_map, user_map-IsImplementation, user_map-IsSeparate, LaidOut,
}
use user_level_mmap.Demos.{Memory, load, memset}
use user_level_mmap.Mmap.Fault.{translate, readable}
use user_level_mmap.Demos.Bytes.{memset-at, readable-set_pfn}
use user_level_mmap.Demos.MapPt.{done, map_pt, change_entry, mapped_entry}
use user_level_mmap.Demos.MapPt.Slot.{mapped_entry-slot}

module _ (pages : ℕ → Type 0) (mem : Memory user_map) (laid : LaidOut pages mem.tables)
    (target secret : ℕ) (on : pages target) (on' : pages secret) (small : target < 2 ^ 64)
    (aligned : target % 4096 ≡ 0) (aligned' : secret % 4096 ≡ 0) (fd : ℕ)
    (resolve : (address pid : ℕ) → Machine → Entry)
    (reports : (address : ℕ)
      → pages address
      → IsResolved address mem.tables.mem
          (some (laid.place address))
          (resolve address 0 mem.tables))
    (seen : readable (user_map.resolve target 0 mem.tables).pte ≡ true) where
  abbrev place : ℕ
  place = laid.place target

  abbrev pte_of : ℕ → ℕ
  pte_of address = (resolve address 0 mem.tables).pte

  found : pte_of target ≡ mem.tables.mem place
  found = (reports target on).1

  -- `mapped_entry` points to the PTE of `target`.
  entry-eq : mapped_entry (some fd) true target (resolve target 0 mem.tables).pmd ≡ some place
  entry-eq =
      mapped_entry-slot fd target (resolve target 0 mem.tables).pmd small
      ∙ ap some (reports target on).2

  -- The tables after a word was stored there.
  abbrev stored : ℕ → Machine
  stored word = invalidate_tlb target (phys_write place word mem.tables)

  pte-stored : (word : ℕ) → (resolve_user_map x86_64_paging target 0 (stored word)).pte ≡ word
  unfolding invalidate_tlb
  pte-stored word =
      let leads : walk_of (stored word) 0 target ≡ some place =
        walk-update mem.tables.mem place word (clean_root (mem.tables.paging_root 0))
          (indices x86_64_paging target) (laid.below target target on on)
        ∙ laid.leads target on in
      (IsResolved-leaf target 0 place (stored word) laid.rooted leads).1 ∙ ground arith

  filled : Memory user_map
  filled = memset user_map secret b'S' 4096 (memset user_map target b'B' 4096 mem)

  -- The word that the program stores.
  abbrev new_word : ℕ
  new_word = set_pfn (mem.tables.mem place) (get_pfn (pte_of secret))

  -- `ptedit_resolve` and the hardware read the same PTE of `secret`.
  same_secret : pte_of secret ≡ (user_map.resolve secret 0 mem.tables).pte
  same_secret =
      (reports secret on').1
      ∙ sym
          (IsResolved-leaf secret 0 (laid.place secret) mem.tables laid.rooted
            (laid.leads secret on')).1

  secret-lt : get_pfn (pte_of secret) < 2 ^ 40
  secret-lt = get_pfn-lt _ (rw (reports secret on').1 (laid.words (laid.place secret)))

  load-target : load user_map (record filled { tables = stored new_word }) target ≡ some b'S'
  unfolding filled translate memset
  load-target =
      let on_target : readable (resolve_user_map x86_64_paging target 0 (stored new_word)).pte
          ≡ true =
        ap readable (pte-stored new_word)
        ∙ readable-set_pfn (mem.tables.mem place) (get_pfn (pte_of secret)) (laid.words place)
            secret-lt
        ∙ ap readable
            (sym (IsResolved-leaf target 0 place mem.tables laid.rooted (laid.leads target on)).1)
        ∙ seen in
      let frame_eq : get_pfn (resolve_user_map x86_64_paging target 0 (stored new_word)).pte
          ≡ get_pfn (user_map.resolve secret 0 mem.tables).pte =
        ap get_pfn (pte-stored new_word)
        ∙ get_pfn-set_pfn (mem.tables.mem place) (get_pfn (pte_of secret)) (laid.words place)
            secret-lt
        ∙ ap get_pfn same_secret in
      rw (on_target, frame_eq, aligned)
        (ap some (
          memset-at user_map user_map-IsImplementation (memset user_map target b'B' 4096 mem) secret
            b'S' (user_map-IsSeparate.laid_Mapped pages secret mem.tables laid on') aligned' 0
            (omega arith)))

  -- Given separate PTEs for the two pages from `mmap`, that of `target` readable by the program, a
  -- `ptedit_resolve` that reports for them what the tables hold, and an `mmap` of /proc/umem that
  -- succeeds: both checks of map_pt succeed. The word in the mapped table is the PTE that
  -- `ptedit_resolve` reported, and after the store `target` reads as the secret. In the end all words
  -- of the tables are as before.
  pub map_pt-done :
      (final : Memory user_map) × (map_pt resolve false (some fd) true target secret mem
        ≡ done true true final)
      × ((x : ℕ) → final.tables.mem x ≡ mem.tables.mem x)
  unfolding map_pt change_entry filled memset invalidate_tlb
  map_pt-done = (
    record filled { tables = phys_write place (pte_of target) (stored new_word) },
    rw (entry-eq, change_entry, load-target, eq→== _ _ (sym found)) refl,
    λ x. ground (arith, found, ap mem.tables.mem {x = place} {y = x}),
  )
