-- ===== src/Demos/MapPt.antt =====
-- PTEditor/demos/map_pt.c: a page table is mapped, and an entry of it is changed by a plain store.
pub mod Slot
pub mod Works
use user_level_mmap.Base.{ℕ, ◌*◌, ◌/◌, ◌^◌, bit_and, Bool, Option, none, some, ◌==◌, if◌then◌else◌}
use user_level_mmap.Ptedit.Entry.{Entry, u64, pfn, set_pfn, get_pfn}
use user_level_mmap.Ptedit.Walk.{Machine, phys_write, invalidate_tlb}
use user_level_mmap.Ptedit.UserMap.{user_map}
use user_level_mmap.Demos.{Memory, load, memset, PhysMapping, pmap, shown_at}

-- How `main` ends: without PTEditor, by an access that faults, as behind MAP_FAILED, or with the
-- outcome of its two checks.
pub data MapPtEnd : Type 0 where
  not_initialized killed : MapPtEnd
  done : (worked success : Bool) → Memory user_map → MapPtEnd

-- The physical address behind `mapped_entry`, if `ptedit_pmap` maps the table.
pub mapped_entry : (umem : Option ℕ) (granted : Bool) (target pmd : ℕ) → Option ℕ
mapped_entry umem granted target pmd = elim (pmap umem granted 4096 (u64 (pfn pmd * 4096)) 4096) [
  | none ↦ none
  | some pt ↦ some (shown_at pt (bit_and (target / 2 ^ 12) 0x1ff * 8))
]

-- From `*mapped_entry` on, with the place that it points to.
pub change_entry :
    (entry target : ℕ) (target_entry secret_entry : Entry) → Memory user_map → MapPtEnd
change_entry entry target target_entry secret_entry mem =
    let word = set_pfn (mem.tables.mem entry) (get_pfn secret_entry.pte) in
    let changed = record mem {
      tables = invalidate_tlb target (phys_write entry word mem.tables);
    } in
    elim (load user_map changed target) [
      | none ↦ killed
      | some c ↦
          done (mem.tables.mem entry == target_entry.pte) (c == b'S')
            (record changed { tables = phys_write entry target_entry.pte changed.tables })
    ]

-- `ptedit_resolve` is the function that `resolve` points to; `target` and `secret` are what the two
-- calls of `mmap` return, `umem` is the descriptor of /proc/umem and `granted` whether its `mmap` in
-- `ptedit_pmap` succeeds; the tables are those that the stores of `memset` leave behind.
pub map_pt :
    (resolve : (address pid : ℕ) → Machine → Entry) (init_failed : Bool) (umem : Option ℕ)
    (granted : Bool) (target secret : ℕ)
    → Memory user_map
    → MapPtEnd
map_pt resolve init_failed umem granted target secret mem =
    let mem' = memset user_map secret b'S' 4096 (memset user_map target b'B' 4096 mem) in
    let secret_entry = resolve secret 0 mem'.tables in
    let target_entry = resolve target 0 mem'.tables in
    let rest : MapPtEnd = elim (mapped_entry umem granted target target_entry.pmd) [
      | none ↦ killed
      | some entry ↦ change_entry entry target target_entry secret_entry mem'
    ] in
    if init_failed then not_initialized else rest
