-- ===== src/Ptedit/MemoryType.antt =====
-- The memory types of PTEditor/ptedit.c on x86_64: the PAT, a word with eight types, and the three
-- bits of an entry that select one of them.
pub mod Select
pub mod Table
pub mod First
mod Tests
use user_level_mmap.Base.{
  ℕ, zero, suc, ◌+◌, ◌-◌, ◌*◌, ◌/◌, ◌%◌, ◌^◌, bit_and, bit_or, Bool, Option, none, some, ◌==◌,
  if◌then◌else◌, ltb,
}
use user_level_mmap.Base.Bits.{bit_at}
use user_level_mmap.Ptedit.Entry.{
  u64, not64, test, page_bit_pwt, page_bit_pcd, page_bit_pat, page_bit_pat_large,
}

-- `(mts >> (mt * 8)) & 7`; the shift is not defined from 64 on.
unfoldable pub get_mt : (mts mt : ℕ) → Option ℕ
get_mt mts mt = if ltb mt 8 then some (bit_and (mts / 2 ^ (mt * 8)) 7) else none

-- The mask `7 << (mt * 8)` is an `int`, so that the shift is not defined for `mt` from 4 on.
pub set_mt : (mts mt value : ℕ) → Option ℕ
set_mt mts mt value =
    if ltb mt 4
    then some (bit_or (bit_and mts (not64 (7 * 2 ^ (mt * 8)))) (u64 (value * 2 ^ (mt * 8))))
    else none

-- The loop of `ptedit_find_mt` over `i` with `left` rounds to go.
pub find_loop : (left i : ℕ) → (mts type found : ℕ) → ℕ
find_loop zero i mts type found = found
find_loop (suc left) i mts type found =
    find_loop left (i + 1) mts type
      (if bit_and (mts / 2 ^ (i * 8)) 7 == type then bit_or found (2 ^ i) else found)

pub find_mt : (mts type : ℕ) → ℕ
find_mt mts type = find_loop 8 0 mts type 0

-- The index of the least bit that is set, from `i` on with `left` rounds to go: `__builtin_ffs` less
-- 1.
pub first_bit : (left i : ℕ) → (word : ℕ) → Option ℕ
first_bit zero i word = none
first_bit (suc left) i word =
    let rest = first_bit left (i + 1) word in if bit_at word i == 1 then some i else rest

-- `none` is the -1 of the code; the builtin looks at the 32 bits of an `int`.
unfoldable pub find_first_mt : (mts type : ℕ) → Option ℕ
find_first_mt mts type = first_bit 32 0 (find_mt mts type)

-- `if (mt & mask) entry |= (1ull << bit)`
abbrev pub bit_if : (mt mask bit entry : ℕ) → ℕ
bit_if mt mask bit entry = if test mt mask then bit_or entry (2 ^ bit) else entry

-- The two functions differ in the place of the PAT bit.
module _ (pat_bit : ℕ) where
  pub apply_at : (entry mt : ℕ) → ℕ
  apply_at entry mt =
      let cleared =
        bit_and entry
          (not64 (bit_or (bit_or (2 ^ page_bit_pwt) (2 ^ page_bit_pcd)) (2 ^ pat_bit))) in
      bit_if mt 4 pat_bit (bit_if mt 2 page_bit_pcd (bit_if mt 1 page_bit_pwt cleared))

  pub extract_at : (entry : ℕ) → ℕ
  extract_at entry =
      bit_or
        (bit_or (if test entry (2 ^ page_bit_pwt) then 1 else 0)
          (if test entry (2 ^ page_bit_pcd) then 1 * 2 ^ 1 else 0))
        (if test entry (2 ^ pat_bit) then 1 * 2 ^ 2 else 0)

abbrev pub apply_mt : (entry mt : ℕ) → ℕ
apply_mt = apply_at page_bit_pat

abbrev pub apply_mt_huge : (entry mt : ℕ) → ℕ
apply_mt_huge = apply_at page_bit_pat_large

abbrev pub extract_mt : (entry : ℕ) → ℕ
extract_mt = extract_at page_bit_pat

abbrev pub extract_mt_huge : (entry : ℕ) → ℕ
extract_mt_huge = extract_at page_bit_pat_large
