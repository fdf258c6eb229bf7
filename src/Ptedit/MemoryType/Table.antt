-- ===== src/Ptedit/MemoryType/Table.antt =====
-- The table of memory types: changing one of its types, and searching it.
use native.Mathlib.Nat.{div-le_self}
use user_level_mmap.Base.{
  ℕ, zero, suc, ◌+◌, ◌-◌, ◌*◌, ◌/◌, ◌^◌, ◌≤◌, ◌<◌, ◌≡◌, ◌≢◌, refl, ◌↔◌, ap, ◌∙◌, bit_and, bit_or,
  ◌&&◌, not, some, inl, inr, arith, ltb, lt→ltb, ◌==◌, if◌then◌else◌, Bool-cases,
}
use user_level_mmap.Base.Bits.{
  bit_at, bit_at-le-one, bit_at-eq-zero, bit_at-zero, bit_at-bit_and, bit_at-bit_or,
  bit_at-complement, bit_at-two_pow, bit_at-ones, bit_at-shl, bit_at-shr, bit_and-lt, bit_or-lt,
  eq_of_bits, bit_and_comm,
}
use user_level_mmap.Ptedit.Entry.{u64, not64}
use user_level_mmap.Ptedit.MemoryType.{get_mt, set_mt, find_loop, find_mt}

shifted-lt : (mt value : ℕ) → mt < 4 → value < 8 → value * 2 ^ (mt * 8) < 2 ^ 64
shifted-lt zero value lt small = omega arith
shifted-lt (suc zero) value lt small = omega arith
shifted-lt (suc (suc zero)) value lt small = omega arith
shifted-lt (suc (suc (suc zero))) value lt small = omega arith
shifted-lt (suc (suc (suc (suc n)))) value lt small = absurd (omega arith)

-- The word of the table after a type was changed.
abbrev changed : (mts mt value : ℕ) → ℕ
changed mts mt value = bit_or (bit_and mts (not64 (7 * 2 ^ (mt * 8)))) (u64 (value * 2 ^ (mt * 8)))

module _ (mts mt value : ℕ) (fits : mts < 2 ^ 64) (low : mt < 4) (small : value < 8) where
  bit_at-changed :
      (j : ℕ)
      → j < 64
      → bit_at (changed mts mt value) j ≡ (
          if not (ltb j (mt * 8)) && ltb (j - mt * 8) 3
          then bit_at value (j - mt * 8)
          else bit_at mts j)
  bit_at-changed j lt =
      let whole : u64 (value * 2 ^ (mt * 8)) ≡ value * 2 ^ (mt * 8) =
        omega (arith, shifted-lt mt value low small) in
      rw whole (
        bit_at-bit_or (bit_and mts (not64 (7 * 2 ^ (mt * 8)))) (value * 2 ^ (mt * 8)) j
        ∙ ground (
          arith,
          bit_at-bit_and mts (not64 (7 * 2 ^ (mt * 8))) j,
          bit_at-complement 64 (7 * 2 ^ (mt * 8)) j (shifted-lt mt 7 low (omega arith)) lt,
          bit_at-shl 7 (mt * 8) j,
          bit_at-shl value (mt * 8) j,
          bit_at-ones 3 (j - mt * 8),
          bit_at-eq-zero 3 value (j - mt * 8) small,
          bit_at-le-one mts j,
          bit_at-le-one value (j - mt * 8),
        ))

  changed-lt : changed mts mt value < 2 ^ 64
  changed-lt = bit_or-lt 64 _ (u64 (value * 2 ^ (mt * 8))) (bit_and-lt 64 mts _ fits) (omega arith)

-- The type at an index of the table.
abbrev field : (mts mt : ℕ) → ℕ
field mts mt = bit_and (mts / 2 ^ (mt * 8)) 7

bit_at-field : (mts mt i : ℕ) → i < 3 → bit_at (field mts mt) i ≡ bit_at mts (mt * 8 + i)
bit_at-field mts mt i lt = ground (
  arith,
  bit_at-bit_and (mts / 2 ^ (mt * 8)) 7 i,
  bit_at-ones 3 i,
  bit_at-shr mts (mt * 8) i,
  bit_at-le-one mts (mt * 8 + i),
)

field-lt : (mts mt : ℕ) → mts < 2 ^ 64 → field mts mt < 2 ^ 3
field-lt mts mt h =
    let x = mts / 2 ^ (mt * 8) in
    let le : x ≤ mts = div-le_self mts (2 ^ (mt * 8)) in
    let comm : bit_and x 7 ≡ bit_and 7 x = bit_and_comm 64 x 7 (omega arith) (omega arith) in
    omega (arith, comm, bit_and-lt 3 7 x (omega arith))

-- Given a table of 64 bits, an index below 4 and a type of three bits, `ptedit_set_mt` leads to a
-- table in which `ptedit_get_mt` reads that type at that index, and at every other index the type of
-- before.
pub get_mt-set_mt :
    (mts mt value : ℕ)
    → mts < 2 ^ 64
    → mt < 4
    → value < 8
    → (mts' : ℕ) × (set_mt mts mt value ≡ some mts')
      × (get_mt mts' mt ≡ some value)
      × ((other : ℕ) → other ≢ mt → get_mt mts' other ≡ get_mt mts other)
unfolding get_mt set_mt
get_mt-set_mt mts mt value fits low small = (
  changed mts mt value,
  rw (lt→ltb mt 4 low) refl,
  rw (lt→ltb mt 8 (omega arith)) (
      ap some (
        eq_of_bits 3 (field (changed mts mt value) mt) value
          (field-lt _ mt (changed-lt mts mt value fits low small)) small
          (λ i lt.
            let here : mt * 8 + i - mt * 8 ≡ i = omega arith in
            bit_at-field (changed mts mt value) mt i lt
            ∙ ground (
              arith,
              here,
              bit_at-changed mts mt value fits low small (mt * 8 + i) (omega arith),
            )))),
  λ other ne. elim (Bool-cases (ltb other 8)) [
    | inl inside ↦ rw inside (
        ap some (
          eq_of_bits 3 (field (changed mts mt value) other) (field mts other)
            (field-lt _ other (changed-lt mts mt value fits low small)) (field-lt mts other fits)
            (λ i lt.
              bit_at-field (changed mts mt value) other i lt
              ∙ ground (
                arith,
                bit_at-field mts other i lt,
                bit_at-changed mts mt value fits low small (other * 8 + i) (ground arith),
              ))))
    | inr outside ↦ rw outside
  ],
)

bit_at-find_loop :
    (mts type left i found j : ℕ)
    → bit_at (find_loop left i mts type found) j
      ≡ (if (not (ltb j i) && ltb j (i + left)) && (field mts j == type) then 1 else bit_at found j)
unfolding find_loop
bit_at-find_loop mts type zero i found j = ground arith
bit_at-find_loop mts type (suc left) i found j =
    bit_at-find_loop mts type left (i + 1)
      (if field mts i == type then bit_or found (2 ^ i) else found) j
    ∙ ground (
      arith,
      bit_at-bit_or found (2 ^ i) j,
      bit_at-two_pow i j,
      bit_at-le-one found j,
      ap (field mts) {x = i} {y = j},
    )

-- `ptedit_find_mt` sets the bit of an index exactly where `ptedit_get_mt` reads the type that is
-- searched for at that index of the table.
pub find_mt-get_mt :
    (mts type j : ℕ) → (bit_at (find_mt mts type) j ≡ 1) ↔ (get_mt mts j ≡ some type)
unfolding find_mt get_mt
find_mt-get_mt mts type j =
    let e = bit_at-find_loop mts type 8 0 0 j in
    elim (Bool-cases (ltb j 8)) [
      | inl inside ↦
          rw (inside, e, bit_at-zero j)
            (λ q. ap some (ground arith), λ q. let same : field mts j ≡ type = cc in ground arith)
      | inr outside ↦ rw (outside, e, bit_at-zero j) (λ q. absurd (ground arith), λ q. cc)
    ]
