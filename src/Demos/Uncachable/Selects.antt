-- ===== src/Demos/Uncachable/Selects.antt =====
-- The memory types that uncachable.c measures.
use user_level_mmap.Base.{ℕ, ◌^◌, ◌<◌, ◌≡◌, refl, ap, ◌∙◌, arith, false, Option, some, List, ◌∷◌}
use user_level_mmap.Ptedit.Entry.{Entry}
use user_level_mmap.Ptedit.Interface.{Implementation, IsImplementation}
use user_level_mmap.Ptedit.MemoryType.{get_mt, find_first_mt, apply_mt, extract_mt}
use user_level_mmap.Ptedit.MemoryType.First.{find_first_mt-get_mt}
use user_level_mmap.Ptedit.MemoryType.Select.{extract_at-apply_at, apply_at-lt}
use user_level_mmap.Demos.{Memory, memset}
use user_level_mmap.Demos.Uncachable.{
  mt_uc, mt_wb, UncachableReplies, done, type_of, typed, huge_part, select_types, uncachable,
}

module _ (impl : Implementation) (laws : IsImplementation impl) (r : UncachableReplies) where
  open impl use {State, resolve, update}
  open r use {mts, pt}

  module _ (s : State) (entry : Entry) (mt : ℕ) (mapped : laws.Mapped 0 pt s)
      (fits : entry.pte < 2 ^ 64) where
    abbrev word : ℕ
    word = apply_mt entry.pte mt

    word-lt : word < 2 ^ 64
    word-lt = apply_at-lt 7 (omega arith) (omega arith) entry.pte mt fits

    typed-Mapped : laws.Mapped 0 pt (update pt 0 (typed impl r entry mt) s)
    typed-Mapped = laws.update_Mapped 0 pt (typed impl r entry mt) s refl word-lt mapped

    -- After an update with a type selected, the tables give that type.
    type_of-typed :
        (type : ℕ)
        → mt < 8
        → get_mt mts mt ≡ some type
        → type_of impl r pt (update pt 0 (typed impl r entry mt) s) ≡ some type
    type_of-typed type small e =
        ap (λ w. get_mt mts (extract_mt w))
          (laws.resolve_update 0 pt (typed impl r entry mt) s refl word-lt mapped)
        ∙ ap (get_mt mts)
            (extract_at-apply_at 7 (omega arith) (omega arith) entry.pte mt fits small)
        ∙ e

  select_types-done :
      (filled : Memory impl) (uc wb : ℕ)
      → find_first_mt mts mt_uc ≡ some uc
      → find_first_mt mts mt_wb ≡ some wb
      → (let entry = resolve pt 0 filled.tables in
          let s1 = update pt 0 (typed impl r entry uc) filled.tables in
          let s2 = update pt 0 (typed impl r (typed impl r entry uc) wb) s1 in
          let (measured, s3) = huge_part impl r uc s2 in
          select_types impl r filled
          ≡ done
              (type_of impl r pt filled.tables
                ∷ type_of impl r pt s1
                ∷ type_of impl r pt s2
                ∷ measured)
              (record filled { tables = s3 }))
  unfolding select_types
  select_types-done filled uc wb e e' = rw (select_types, e, e') refl

  -- Given PTEditor, a table that has the types UC and WB, and a PTE for the page: `main` comes to its
  -- end, and measures the page first with the type that it had, then as UC and then as WB.
  pub uncachable-done :
      (mem : Memory impl) (i j : ℕ)
      → r.init_failed ≡ false
      → laws.Mapped 0 pt mem.tables
      → get_mt mts i ≡ some mt_uc
      → get_mt mts j ≡ some mt_wb
      → (others : List (Option ℕ)) × (final : Memory impl) × (uncachable impl r mem
          ≡ done (type_of impl r pt mem.tables ∷ some mt_uc ∷ some mt_wb ∷ others) final)
  unfolding uncachable memset
  uncachable-done mem i j started mapped has_uc has_wb =
      let s0 = mem.tables in
      let entry = resolve pt 0 s0 in
      let fits : entry.pte < 2 ^ 64 = laws.resolve_lt 0 pt s0 mapped in
      let (uc, found, uc_type, uc_lt) = find_first_mt-get_mt mts mt_uc i has_uc in
      let (wb, found', wb_type, wb_lt) = find_first_mt-get_mt mts mt_wb j has_wb in
      let mapped1 = typed-Mapped s0 entry uc mapped fits in
      let s1 = update pt 0 (typed impl r entry uc) s0 in
      let fits1 = word-lt s0 entry uc mapped fits in
      let first : type_of impl r pt s1 ≡ some mt_uc =
        type_of-typed s0 entry uc mapped fits mt_uc uc_lt uc_type in
      let second = type_of-typed s1 (typed impl r entry uc) wb mapped1 fits1 mt_wb wb_lt wb_type in
      let s2 = update pt 0 (typed impl r (typed impl r entry uc) wb) s1 in
      let filled = memset impl pt b'A' 4096 mem in
      let (others, s3) = huge_part impl r uc s2 in
      let final : Memory impl = record filled { tables = s3 } in
      let run : select_types impl r filled
          ≡ done (type_of impl r pt s0 ∷ type_of impl r pt s1 ∷ type_of impl r pt s2 ∷ others)
              final =
        select_types-done filled uc wb found found' in
      (
        others,
        final,
        simp started (run ∙ λ d. done (type_of impl r pt s0 ∷ first d ∷ second d ∷ others) final),
      )
