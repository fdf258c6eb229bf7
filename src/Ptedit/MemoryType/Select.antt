-- ===== src/Ptedit/MemoryType/Select.antt =====
-- Selecting a memory type in an entry and reading it back.
use user_level_mmap.Base.{ℕ, ◌^◌, ◌<◌, ◌≡◌, ◌∙◌, bit_and, bit_or, ◌||◌, arith, ◌==◌, if◌then◌else◌}
use user_level_mmap.Base.Bits.{
  bit_at, bit_at-le-one, bit_at-bit_and, bit_at-bit_or, bit_at-complement, bit_at-two_pow,
  bit_and-lt, bit_or-lt, two_pow-lt,
}
use user_level_mmap.Ptedit.Entry.{not64, test, entry_get_bit}
use user_level_mmap.Ptedit.Entry.Laws.{entry_get_bit-eq}
use user_level_mmap.Ptedit.MemoryType.{bit_if, apply_at, extract_at}

-- The test of a bit of a word.
test-bit : (word bit : ℕ) → word < 2 ^ 64 → test word (2 ^ bit) ≡ (bit_at word bit == 1)
unfolding entry_get_bit
test-bit word bit h = entry_get_bit-eq word bit h

bit_at-bit_if :
    (mt j bit entry i : ℕ)
    → mt < 2 ^ 64
    → bit_at (bit_if mt (2 ^ j) bit entry) i
      ≡ (if i == bit then (if bit_at mt j == 1 then 1 else bit_at entry i) else bit_at entry i)
bit_at-bit_if mt j bit entry i h = ground (
  arith,
  test-bit mt j h,
  bit_at-bit_or entry (2 ^ bit) i,
  bit_at-two_pow bit i,
  bit_at-le-one entry i,
)

bit_if-lt : (mt mask bit entry : ℕ) → bit < 64 → entry < 2 ^ 64 → bit_if mt mask bit entry < 2 ^ 64
bit_if-lt mt mask bit entry hb he =
    ground (arith, bit_or-lt 64 entry (2 ^ bit) he (two_pow-lt bit 64 hb))

module _ (pat_bit : ℕ) (high : 4 < pat_bit) (room : pat_bit < 64) where
  abbrev mask : ℕ
  mask = bit_or (bit_or (2 ^ 3) (2 ^ 4)) (2 ^ pat_bit)

  mask-lt : mask < 2 ^ 64
  mask-lt =
      bit_or-lt 64 (bit_or (2 ^ 3) (2 ^ 4)) (2 ^ pat_bit) (omega arith) (two_pow-lt pat_bit 64 room)

  bit_at-mask : (i : ℕ) → bit_at mask i ≡ (if (i == 3) || (i == 4) || (i == pat_bit) then 1 else 0)
  bit_at-mask i = ground (
    arith,
    bit_at-bit_or (bit_or (2 ^ 3) (2 ^ 4)) (2 ^ pat_bit) i,
    bit_at-bit_or (2 ^ 3) (2 ^ 4) i,
    bit_at-two_pow 3 i,
    bit_at-two_pow 4 i,
    bit_at-two_pow pat_bit i,
  )

  -- Bit by bit, the entry after a type was selected with a PAT bit from 5 to 63: the three bits are
  -- those of the type, and all other bits are as before.
  pub bit_at-apply_at :
      (entry mt i : ℕ)
      → mt < 2 ^ 64
      → i < 64
      → bit_at (apply_at pat_bit entry mt) i ≡ (
          if i == 3
          then bit_at mt 0
          else (if i == 4
              then bit_at mt 1
              else (if i == pat_bit then bit_at mt 2 else bit_at entry i)))
  unfolding apply_at
  bit_at-apply_at entry mt i hm lt =
      let w0 = bit_and entry (not64 mask) in
      let w1 = bit_if mt 1 3 w0 in
      let w2 = bit_if mt 2 4 w1 in
      let last : bit_at (bit_if mt 4 pat_bit w2) i
          ≡ (if i == pat_bit then (if bit_at mt 2 == 1 then 1 else bit_at w2 i) else bit_at w2 i) =
        bit_at-bit_if mt 2 pat_bit w2 i hm in
      let middle : bit_at w2 i
          ≡ (if i == 4 then (if bit_at mt 1 == 1 then 1 else bit_at w1 i) else bit_at w1 i) =
        bit_at-bit_if mt 1 4 w1 i hm in
      let first : bit_at w1 i
          ≡ (if i == 3 then (if bit_at mt 0 == 1 then 1 else bit_at w0 i) else bit_at w0 i) =
        bit_at-bit_if mt 0 3 w0 i hm in
      last
      ∙ ground (
        arith,
        middle,
        first,
        bit_at-bit_and entry (not64 mask) i,
        bit_at-complement 64 mask i mask-lt lt,
        bit_at-mask i,
        bit_at-le-one entry i,
        bit_at-le-one mt 0,
        bit_at-le-one mt 1,
        bit_at-le-one mt 2,
      )

  pub apply_at-lt : (entry mt : ℕ) → entry < 2 ^ 64 → apply_at pat_bit entry mt < 2 ^ 64
  unfolding apply_at
  apply_at-lt entry mt h = bit_if-lt mt 4 pat_bit _ room (
      bit_if-lt mt 2 4 _ (omega arith)
        (bit_if-lt mt 1 3 _ (omega arith) (bit_and-lt 64 entry (not64 mask) h)))

  -- A memory type that was selected in an entry is the one that is read from it, and selecting it
  -- changes no bit but the three of the type.
  pub extract_at-apply_at :
      (entry mt : ℕ) → entry < 2 ^ 64 → mt < 8 → extract_at pat_bit (apply_at pat_bit entry mt) ≡ mt
  unfolding extract_at
  extract_at-apply_at entry mt he hm =
      let small = apply_at-lt entry mt he in
      let wide : mt < 2 ^ 64 = omega arith in
      let word = apply_at pat_bit entry mt in
      let b0 : test word (2 ^ 3) ≡ (bit_at word 3 == 1) = test-bit word 3 small in
      let b1 : test word (2 ^ 4) ≡ (bit_at word 4 == 1) = test-bit word 4 small in
      let b2 : test word (2 ^ pat_bit) ≡ (bit_at word pat_bit == 1) = test-bit word pat_bit small in
      rw (b0, b1, b2)
        (ground (
          arith,
          bit_at-apply_at entry mt 3 wide (omega arith),
          bit_at-apply_at entry mt 4 wide (omega arith),
          bit_at-apply_at entry mt pat_bit wide room,
        ))
