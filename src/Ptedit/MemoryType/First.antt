-- ===== src/Ptedit/MemoryType/First.antt =====
-- The first index of a memory type in the table.
use user_level_mmap.Base.{
  ℕ, zero, suc, ◌+◌, ◌≤◌, ◌<◌, ◌≡◌, refl, some, false, inl, inr, arith, ◌==◌, Bool-cases,
}
use user_level_mmap.Base.Bits.{bit_at}
use user_level_mmap.Ptedit.MemoryType.{get_mt, find_mt, first_bit, find_first_mt}
use user_level_mmap.Ptedit.MemoryType.Table.{find_mt-get_mt}

first_later : (word i j : ℕ) → i ≤ j → (bit_at word i == 1) ≡ false → bit_at word j ≡ 1 → i + 1 ≤ j
first_later word i j low off on = ground arith

-- A bit that is set is found, or an earlier one is.
first_bit-some :
    (left i word j : ℕ)
    → i ≤ j
    → j < i + left
    → bit_at word j ≡ 1
    → (k : ℕ) × (first_bit left i word ≡ some k) × (bit_at word k ≡ 1)
unfolding first_bit
first_bit-some zero i word j low high on = absurd (omega arith)
first_bit-some (suc left) i word j low high on = elim (Bool-cases (bit_at word i == 1)) [
  | inl here ↦ (i, rw here refl, ground arith)
  | inr off ↦
      let later : i + 1 ≤ j = first_later word i j low off on in
      let (k, found, set) = first_bit-some left (i + 1) word j later (omega arith) on in
      (k, rw off found, set)
]

get_mt-lt : (mts j type : ℕ) → get_mt mts j ≡ some type → j < 8
unfolding get_mt
get_mt-lt mts j type e = ground arith

-- Where a type stands anywhere in the table, `ptedit_find_first_mt` gives an index at which
-- `ptedit_get_mt` reads that type.
pub find_first_mt-get_mt :
    (mts type j : ℕ)
    → get_mt mts j ≡ some type
    → (k : ℕ) × (find_first_mt mts type ≡ some k) × (get_mt mts k ≡ some type) × (k < 8)
unfolding find_first_mt
find_first_mt-get_mt mts type j e =
    let lt = get_mt-lt mts j type e in
    let (k, found, set) =
      first_bit-some 32 0 (find_mt mts type) j (omega arith) (omega (arith, lt))
        ((find_mt-get_mt mts type j).1 e) in
    let same = (find_mt-get_mt mts type k).0 set in (k, found, same, get_mt-lt mts k type same)
