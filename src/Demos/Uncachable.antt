-- ===== src/Demos/Uncachable.antt =====
-- PTEditor/demos/uncachable.c: a page is made uncachable and cachable again, then a page of 2 MiB is.
pub mod Selects
mod Tests
use user_level_mmap.Base.{ℕ, Option, none, some, List, [], ◌∷◌, Bool, if◌then◌else◌}
use user_level_mmap.Ptedit.Entry.{Entry, valid_mask_pmd}
use user_level_mmap.Ptedit.Interface.{Implementation}
use user_level_mmap.Ptedit.PteOps.{with_pte}
use user_level_mmap.Ptedit.MemoryType.{
  get_mt, find_first_mt, apply_mt, apply_mt_huge, extract_mt, extract_mt_huge,
}
use user_level_mmap.Demos.{Memory, memset}

-- PTEDIT_MT_UC and PTEDIT_MT_WB
abbrev pub mt_uc : ℕ
mt_uc = 0

abbrev pub mt_wb : ℕ
mt_wb = 6

-- What the system replies: whether `ptedit_init` fails, the table of memory types, and the addresses
-- from `mmap`, the second one if there is a page of 2 MiB.
pub record UncachableReplies : Type 0 where
  pub init_failed : Bool
  pub mts : ℕ
  pub pt : ℕ
  pub huge_page : Option ℕ

-- How `main` ends: without PTEditor, by `goto error`, or at its end; `measured` are the memory types
-- that the tables give the page at the measurements of its access time, in order.
pub data UncachableEnd (impl : Implementation) : Type 0 where
  not_initialized : UncachableEnd impl
  error done : (measured : List (Option ℕ)) → Memory impl → UncachableEnd impl

abbrev pub with_pmd : Entry → ℕ → Entry
with_pmd vm word = record vm { pmd = word; valid = valid_mask_pmd }

module _ (impl : Implementation) (r : UncachableReplies) where
  open impl use {State, resolve, update}
  open r use {init_failed, mts, pt, huge_page}

  -- The type of the page, and that of the page of 2 MiB.
  abbrev pub type_of : (address : ℕ) → State → Option ℕ
  type_of address s = get_mt mts (extract_mt (resolve address 0 s).pte)

  abbrev pub huge_type_of : (address : ℕ) → State → Option ℕ
  huge_type_of address s = get_mt mts (extract_mt_huge (resolve address 0 s).pmd)

  -- `entry.pte = ptedit_apply_mt(entry.pte, mt)` and the line after it.
  abbrev pub typed : (entry : Entry) (mt : ℕ) → Entry
  typed entry mt = with_pte entry (apply_mt entry.pte mt)

  -- The part for the page of 2 MiB: the tables and what is measured of it.
  unfoldable pub huge_part : (uc : ℕ) → State → List (Option ℕ) × State
  huge_part uc s = elim huge_page [
    | none ↦ ([], s)
    | some huge ↦
        let entry = resolve huge 0 s in
        let s1 = update huge 0 (with_pmd entry (apply_mt_huge entry.pmd uc)) s in
        let s2 = update huge 0 (with_pmd entry entry.pmd) s1 in
        (huge_type_of huge s ∷ huge_type_of huge s1 ∷ huge_type_of huge s2 ∷ [], s2)
  ]

  -- From the first measurement on.
  unfoldable pub select_types : Memory impl → UncachableEnd impl
  select_types filled =
      let s0 = filled.tables in
      let entry = resolve pt 0 s0 in
      elim (find_first_mt mts mt_uc) [
        | none ↦ error (type_of pt s0 ∷ []) filled
        | some uc ↦
            let entry1 = typed entry uc in
            let s1 = update pt 0 entry1 s0 in
            elim (find_first_mt mts mt_wb) [
              | none ↦ error (type_of pt s0 ∷ type_of pt s1 ∷ []) (record filled { tables = s1 })
              | some wb ↦
                  let s2 = update pt 0 (typed entry1 wb) s1 in
                  let (measured, s3) = huge_part uc s2 in
                  done (type_of pt s0 ∷ type_of pt s1 ∷ type_of pt s2 ∷ measured)
                    (record filled { tables = s3 })
            ]
      ]

  pub uncachable : Memory impl → UncachableEnd impl
  uncachable mem =
      let filled = memset impl pt b'A' 4096 mem in
      if init_failed then not_initialized else select_types filled
