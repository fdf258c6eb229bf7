-- ===== src/Demos/Memmap.antt =====
-- PTEditor/demos/memmap.c on x86_64: the walk over all page tables of a process that prints the pages
-- that are mapped.

pub mod Address
pub mod Loop
pub mod Levels
pub mod Usage
pub mod Resolve
mod Tests
use user_level_mmap.Base.{
  ℕ, zero, suc, ◌+◌, ◌*◌, ◌/◌, ◌%◌, ◌^◌, bit_or, Bool, true, false, not, List, [], ◌∷◌,
  if◌then◌else◌,
}
use user_level_mmap.Ptedit.Entry.{u64, page_bit_present, get_pfn, entry_get_bit}
use user_level_mmap.Ptedit.Walk.{Machine}

-- What is printed: the words of the entries, level by level, the addresses of pages, and the sum.
pub data Line : Type 0 where
  not_initialized : Line
  dumping : (pid : ℕ) → Line
  pml4 pdpt pd pt : (entry : ℕ) → Line
  small_page large_page : (address : ℕ) → Line
  used_memory : (kilobytes : ℕ) → Line

-- The lines printed so far, the last one first, and `mem_usage`.
pub record Output : Type 0 where
  pub lines : List Line
  pub mem_usage : ℕ

-- PTEDIT_PAGE_BIT_PSE
abbrev pub page_bit_pse : ℕ
page_bit_pse = 7

abbrev pub is_present : ℕ → Bool
is_present entry = entry_get_bit entry page_bit_present

abbrev pub is_normal_page : ℕ → Bool
is_normal_page entry = not (entry_get_bit entry page_bit_pse)

-- FIRST_LEVEL_ENTRIES, and the bound of the other loops.
abbrev pub first_level_entries : ℕ
first_level_entries = 256

abbrev pub level_entries : ℕ
level_entries = 512

abbrev pub page_size : ℕ
page_size = 4096

-- A loop over a table from index `i` on, with `left` rounds to go.
pub for_entries :
    (left i : ℕ) → (table : ℕ → ℕ) → (body : (i entry : ℕ) → Output → Output) → Output → Output
for_entries zero i table body out = out
for_entries (suc left) i table body out =
    for_entries left (i + 1) table body (if is_present (table i) then body i (table i) out else out)

abbrev pub print : Line → Output → Output
print line out = record out { lines = line ∷ out.lines }

abbrev pub add_usage : ℕ → Output → Output
add_usage bytes out = record out { mem_usage = (out.mem_usage + bytes) % 2 ^ 64 }

-- `(pti << 12) | (pdi << 21) | (pdpti << 30) | (pml4i << 39)`
abbrev pub small_address : (pml4i pdpti pdi pti : ℕ) → ℕ
small_address pml4i pdpti pdi pti =
    bit_or (bit_or (bit_or (u64 (pti * 2 ^ 12)) (u64 (pdi * 2 ^ 21))) (u64 (pdpti * 2 ^ 30)))
      (u64 (pml4i * 2 ^ 39))

abbrev pub large_address : (pml4i pdpti pdi : ℕ) → ℕ
large_address pml4i pdpti pdi =
    bit_or (bit_or (u64 (pdi * 2 ^ 21)) (u64 (pdpti * 2 ^ 30))) (u64 (pml4i * 2 ^ 39))

-- The tables, and the calls of `ptedit_read_physical_page`, each named by the indices of the entries
-- that lead to the table: whether its `pread` fails, and what the array holds before the call, which
-- nobody wrote at first and which later is what an earlier call left.
pub record System : Type 0 where
  pub machine : Machine
  pub unread : (path : List ℕ) → Bool
  pub stale : (path : List ℕ) → (i : ℕ) → ℕ

module _ (s : System) where
  open s use {machine, unread, stale}

  -- The array after `ptedit_read_physical_page`: words of the table, or what it held where `pread`
  -- fails.
  abbrev pub table_of : (path : List ℕ) (pfn : ℕ) → ℕ → ℕ
  table_of path pfn i =
      if unread path then stale path i else machine.mem (u64 (pfn * page_size) + i * 8)

  pub pt_body : (pml4i pdpti pdi pti pt_entry : ℕ) → Output → Output
  pt_body pml4i pdpti pdi pti pt_entry out =
      add_usage 4096
        (print (small_page (small_address pml4i pdpti pdi pti)) (print (pt pt_entry) out))

  pub pd_body : (pml4i pdpti pdi pd_entry : ℕ) → Output → Output
  pd_body pml4i pdpti pdi pd_entry out =
      let dumped = print (pd pd_entry) out in
      if is_normal_page pd_entry
      then for_entries level_entries 0 (table_of (pml4i ∷ pdpti ∷ pdi ∷ []) (get_pfn pd_entry))
          (pt_body pml4i pdpti pdi) dumped
      else add_usage (2 * 1024 * 1024) (print (large_page (large_address pml4i pdpti pdi)) dumped)

  pub pdpt_body : (pml4i pdpti pdpt_entry : ℕ) → Output → Output
  pdpt_body pml4i pdpti pdpt_entry out =
      for_entries level_entries 0 (table_of (pml4i ∷ pdpti ∷ []) (get_pfn pdpt_entry))
        (pd_body pml4i pdpti) (print (pdpt pdpt_entry) out)

  pub pml4_body : (pml4i pml4_entry : ℕ) → Output → Output
  pml4_body pml4i pml4_entry out =
      for_entries level_entries 0 (table_of (pml4i ∷ []) (get_pfn pml4_entry)) (pdpt_body pml4i)
        (print (pml4 pml4_entry) out)

  -- From the root of the process on.
  pub dump_tables : (pid : ℕ) → Output
  dump_tables pid =
      for_entries first_level_entries 0 (table_of [] (machine.paging_root pid / page_size))
        pml4_body (record { lines = dumping pid ∷ []; mem_usage = 0 })

  -- `main` with its value, once the argument was read.
  pub main : (init_failed : Bool) (pid : ℕ) → ℕ × List Line
  main init_failed pid =
      let out = dump_tables pid in
      if init_failed
      then (1, not_initialized ∷ [])
      else (0, used_memory (out.mem_usage / 1024) ∷ out.lines)
