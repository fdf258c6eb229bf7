-- ===== src/Ptedit/Entry.antt =====
-- Page-table entries as 64-bit words: the structs, masks and bit positions of ptedit.h and
-- module/pteditor.h, and the operations on one entry. A bit field is the quotient and remainder
-- that its place in the word gives.
pub mod Laws
mod Tests
use user_level_mmap.Base.{ℕ, ◌+◌, ◌-◌, ◌*◌, ◌/◌, ◌%◌, ◌^◌, bit_and, bit_or, Bool, not, ◌==◌}

-- Wrap-around and complement of a size_t.
abbrev pub u64 : ℕ → ℕ
u64 x = x % 2 ^ 64

abbrev pub not64 : ℕ → ℕ
not64 x = 2 ^ 64 - 1 - x

-- `ptedit_entry_t`: the entries of all levels for one address, and which of them are valid.
pub record Entry : Type 0 where
  pub pid : ℕ
  pub vaddr : ℕ
  pub pgd : ℕ
  pub p4d : ℕ
  pub pud : ℕ
  pub pmd : ℕ
  pub pte : ℕ
  pub valid : ℕ

-- `PTEDIT_VALID_MASK_*`
abbrev pub valid_mask_pgd : ℕ
valid_mask_pgd = 1

abbrev pub valid_mask_p4d : ℕ
valid_mask_p4d = 2

abbrev pub valid_mask_pud : ℕ
valid_mask_pud = 4

abbrev pub valid_mask_pmd : ℕ
valid_mask_pmd = 8

abbrev pub valid_mask_pte : ℕ
valid_mask_pte = 16

-- `PTEDIT_PAGE_BIT_*`
abbrev pub page_bit_present : ℕ
page_bit_present = 0

abbrev pub page_bit_rw : ℕ
page_bit_rw = 1

abbrev pub page_bit_user : ℕ
page_bit_user = 2

abbrev pub page_bit_pwt : ℕ
page_bit_pwt = 3

abbrev pub page_bit_pcd : ℕ
page_bit_pcd = 4

abbrev pub page_bit_pat : ℕ
page_bit_pat = 7

abbrev pub page_bit_pat_large : ℕ
page_bit_pat_large = 12

abbrev pub page_bit_nx : ℕ
page_bit_nx = 63

-- Fields of `ptedit_pgd_t`, which is also the type of the P4D, PUD and PMD, and of `ptedit_pte_t`.
abbrev pub present : ℕ → ℕ
present entry = entry % 2

abbrev pub size : ℕ → ℕ
size entry = entry / 2 ^ 7 % 2

abbrev pub pfn : ℕ → ℕ
pfn entry = entry / 2 ^ 12 % 2 ^ 28

abbrev pub page_present : ℕ
page_present = 1

-- `!!(word & mask)`
abbrev pub test : ℕ → ℕ → Bool
test word mask = not (bit_and word mask == 0)

abbrev pub pfn_mask : ℕ
pfn_mask = (2 ^ 40 - 1) * 2 ^ 12

pub set_pfn : (pte frame : ℕ) → ℕ
set_pfn pte frame = bit_or (bit_and pte (not64 pfn_mask)) (u64 (frame * 2 ^ 12))

unfoldable pub get_pfn : ℕ → ℕ
get_pfn pte = bit_and pte pfn_mask / 2 ^ 12

-- `ptedit_pte_entry_set_bit`, of ptedit_header.h
pub entry_set_bit : (pte bit : ℕ) → ℕ
entry_set_bit pte bit = bit_or pte (2 ^ bit)

-- The update of the word in `ptedit_pte_clear_bit`
pub entry_clear_bit : (pte bit : ℕ) → ℕ
entry_clear_bit pte bit = bit_and pte (not64 (2 ^ bit))

-- The test of the word in `ptedit_pte_get_bit`
unfoldable pub entry_get_bit : (pte bit : ℕ) → Bool
entry_get_bit pte bit = test pte (2 ^ bit)
