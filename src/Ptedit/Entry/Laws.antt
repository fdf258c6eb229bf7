-- ===== src/Ptedit/Entry/Laws.antt =====
-- The operations on one page-table entry, bit by bit.
use native.Mathlib.Nat.{mod-eq_of_lt}
use user_level_mmap.Base.{
  ℕ, ◌+◌, ◌-◌, ◌*◌, ◌^◌, ◌<◌, ◌≡◌, ◌∙◌, Bool, false, ◌&&◌, not, arith, ltb, ◌==◌, if◌then◌else◌,
  bit_and, ap, Bool-cases, inl, inr, ne→==,
}
use user_level_mmap.Base.Bits.{
  bit_at, bit_at-le-one, bit_at-bit_and, bit_at-bit_or, bit_at-zero, bit_at-eq-zero, eq_of_bits,
  bit_at-shl, bit_at-shr, bit_at-ones, bit_at-complement, bit_at-two_pow, two_pow-lt,
  eq_zero_of_bits, bit_and_comm, bit_and-lt, bit_or-lt,
}
use user_level_mmap.Ptedit.Entry.{
  u64, not64, pfn_mask, set_pfn, get_pfn, entry_set_bit, entry_clear_bit, entry_get_bit,
}

-- Whether a position lies in the frame number of an entry.
abbrev pub in_frame : ℕ → Bool
in_frame i = not (ltb i 12) && ltb i 52

bit_at-pfn_mask : (i : ℕ) → bit_at pfn_mask i ≡ (if in_frame i then 1 else 0)
bit_at-pfn_mask i = ground (arith, bit_at-shl (2 ^ 40 - 1) 12 i, bit_at-ones 40 (i - 12))

-- Bit by bit, `ptedit_set_pfn` writes the frame number to the positions 12 to 51 and keeps the
-- others, for a frame number that fits.
pub bit_at-set_pfn :
    (pte frame i : ℕ)
    → pte < 2 ^ 64
    → frame < 2 ^ 40
    → i < 64
    → bit_at (set_pfn pte frame) i ≡ (if in_frame i then bit_at frame (i - 12) else bit_at pte i)
unfolding set_pfn
bit_at-set_pfn pte frame i hp hf hi =
    let whole : u64 (frame * 2 ^ 12) ≡ frame * 2 ^ 12 = mod-eq_of_lt (omega arith) in
    ground (
      arith,
      whole,
      bit_at-bit_or (bit_and pte (not64 pfn_mask)) (frame * 2 ^ 12) i,
      bit_at-bit_and pte (not64 pfn_mask) i,
      bit_at-complement 64 pfn_mask i (omega arith) hi,
      bit_at-pfn_mask i,
      bit_at-shl frame 12 i,
      bit_at-eq-zero 40 frame (i - 12) hf,
      bit_at-le-one pte i,
      bit_at-le-one frame (i - 12),
    )

pub set_pfn-lt : (pte frame : ℕ) → pte < 2 ^ 64 → set_pfn pte frame < 2 ^ 64
unfolding set_pfn
set_pfn-lt pte frame hp =
    bit_or-lt 64 (bit_and pte (not64 pfn_mask)) (u64 (frame * 2 ^ 12))
      (bit_and-lt 64 pte (not64 pfn_mask) hp) (omega arith)

pub bit_at-get_pfn :
    (pte i : ℕ) → bit_at (get_pfn pte) i ≡ (if ltb i 40 then bit_at pte (12 + i) else 0)
unfolding get_pfn
bit_at-get_pfn pte i =
    bit_at-shr (bit_and pte pfn_mask) 12 i
    ∙ ground (
      arith,
      bit_at-bit_and pte pfn_mask (12 + i),
      bit_at-pfn_mask (12 + i),
      bit_at-le-one pte (12 + i),
    )

pub get_pfn-lt : (pte : ℕ) → pte < 2 ^ 64 → get_pfn pte < 2 ^ 40
unfolding get_pfn
get_pfn-lt pte h =
    omega (
      arith,
      bit_and_comm 64 pte pfn_mask h (omega arith),
      bit_and-lt 52 pfn_mask pte (omega arith),
    )

-- The frame number that was set is the frame number that is read, for one of 40 bits.
pub get_pfn-set_pfn :
    (pte frame : ℕ) → pte < 2 ^ 64 → frame < 2 ^ 40 → get_pfn (set_pfn pte frame) ≡ frame
get_pfn-set_pfn pte frame hp hf =
    eq_of_bits 40 (get_pfn (set_pfn pte frame)) frame (get_pfn-lt _ (set_pfn-lt pte frame hp)) hf
      (λ i lt.
        let same : 12 + i - 12 ≡ i = omega arith in
        bit_at-get_pfn (set_pfn pte frame) i
        ∙ ground (arith, same, bit_at-set_pfn pte frame (12 + i) hp hf (omega arith)))

-- Writing back the frame number that an entry has changes nothing.
pub set_pfn-get_pfn : (pte : ℕ) → pte < 2 ^ 64 → set_pfn pte (get_pfn pte) ≡ pte
set_pfn-get_pfn pte h =
    eq_of_bits 64 (set_pfn pte (get_pfn pte)) pte (set_pfn-lt pte (get_pfn pte) h) h
      (λ i lt. bit_at-set_pfn pte (get_pfn pte) i h (get_pfn-lt pte h) lt ∙ restored i)
  where
    restored :
        (i : ℕ)
        → (if in_frame i then bit_at (get_pfn pte) (i - 12) else bit_at pte i) ≡ bit_at pte i
    restored i = elim (Bool-cases (in_frame i)) [
      | inl inside ↦
          let same : 12 + (i - 12) ≡ i = ground arith in
          let e : bit_at pte (12 + (i - 12)) ≡ bit_at pte i = ap (bit_at pte) same in
          ground (arith, bit_at-get_pfn pte (i - 12), e)
      | inr outside ↦ rw outside
    ]

-- Setting a bit: that one is 1, and no other bit changes.
pub bit_at-entry_set_bit :
    (pte bit i : ℕ) → bit_at (entry_set_bit pte bit) i ≡ (if i == bit then 1 else bit_at pte i)
unfolding entry_set_bit
bit_at-entry_set_bit pte bit i =
    ground (arith, bit_at-bit_or pte (2 ^ bit) i, bit_at-two_pow bit i, bit_at-le-one pte i)

pub entry_set_bit-lt : (pte bit : ℕ) → pte < 2 ^ 64 → bit < 64 → entry_set_bit pte bit < 2 ^ 64
unfolding entry_set_bit
entry_set_bit-lt pte bit hp hb = bit_or-lt 64 pte (2 ^ bit) hp (two_pow-lt bit 64 hb)

-- Clearing a bit: that one is 0, and no other bit of the word changes.
pub bit_at-entry_clear_bit :
    (pte bit i : ℕ)
    → bit < 64
    → i < 64
    → bit_at (entry_clear_bit pte bit) i ≡ (if i == bit then 0 else bit_at pte i)
unfolding entry_clear_bit
bit_at-entry_clear_bit pte bit i hb hi = ground (
  arith,
  bit_at-bit_and pte (not64 (2 ^ bit)) i,
  bit_at-complement 64 (2 ^ bit) i (two_pow-lt bit 64 hb) hi,
  bit_at-two_pow bit i,
  bit_at-le-one pte i,
)

-- The test of a bit reads that bit.
pub entry_get_bit-eq : (pte bit : ℕ) → pte < 2 ^ 64 → entry_get_bit pte bit ≡ (bit_at pte bit == 1)
unfolding entry_get_bit
entry_get_bit-eq pte bit hp = elim (Bool-cases (bit_at pte bit == 1)) [
  | inl set ↦
      let here : bit_at (bit_and pte (2 ^ bit)) bit ≡ 1 =
        ground (arith, bit_at-bit_and pte (2 ^ bit) bit, bit_at-two_pow bit bit) in
      let nonzero : (bit_and pte (2 ^ bit) == 0) ≡ false =
        ne→== _ _ (λ e. absurd (omega (arith, here, bit_at-zero bit, ap (λ t. bit_at t bit) e))) in
      rw (set, nonzero)
  | inr clear ↦
      let zeroed : bit_and pte (2 ^ bit) ≡ 0 =
        eq_zero_of_bits 64 _ (bit_and-lt 64 pte (2 ^ bit) hp) (λ i lt. ground (
          arith,
          bit_at-bit_and pte (2 ^ bit) i,
          bit_at-two_pow bit i,
          bit_at-le-one pte bit,
          ap (bit_at pte) {x = i} {y = bit},
        )) in
      rw (clear, zeroed)
]

pub entry_clear_bit-lt : (pte bit : ℕ) → pte < 2 ^ 64 → entry_clear_bit pte bit < 2 ^ 64
unfolding entry_clear_bit
entry_clear_bit-lt pte bit hp = bit_and-lt 64 pte (not64 (2 ^ bit)) hp
