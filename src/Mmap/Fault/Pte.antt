-- ===== src/Mmap/Fault/Pte.antt =====
-- The word that the handler writes into the PTE of the fault address, bit by bit.
use user_level_mmap.Base.{ℕ, ◌+◌, ◌-◌, ◌^◌, ◌<◌, ◌≡◌, refl, ◌∙◌, true, arith, ltb, if◌then◌else◌}
use user_level_mmap.Base.Bits.{bit_at, eq_of_bits}
use user_level_mmap.Ptedit.Entry.{set_pfn, get_pfn, entry_set_bit, entry_get_bit}
use user_level_mmap.Ptedit.Entry.Laws.{
  in_frame, bit_at-set_pfn, bit_at-entry_set_bit, bit_at-get_pfn, set_pfn-lt, get_pfn-lt,
  entry_set_bit-lt, entry_get_bit-eq,
}
use user_level_mmap.Mmap.Fault.{fault_pte, readable, writable}

module _ (pte frame : ℕ) (hp : pte < 2 ^ 64) (hf : frame < 2 ^ 40) where
  -- Bit by bit, the word that the handler writes for a PTE of 64 bits and a frame of 40: present,
  -- writable and open to user space, the frame of the page, and all other bits as they were.
  pub bit_at-fault_pte :
      (i : ℕ)
      → i < 64
      → bit_at (fault_pte pte frame) i
        ≡ (if ltb i 3 then 1 else (if in_frame i then bit_at frame (i - 12) else bit_at pte i))
  unfolding fault_pte
  bit_at-fault_pte i lt =
      let w0 = set_pfn pte frame in
      let w1 = entry_set_bit w0 0 in
      let w2 = entry_set_bit w1 1 in
      ground (
        arith,
        bit_at-entry_set_bit w2 2 i,
        bit_at-entry_set_bit w1 1 i,
        bit_at-entry_set_bit w0 0 i,
        bit_at-set_pfn pte frame i hp hf lt,
      )

  pub fault_pte-lt : fault_pte pte frame < 2 ^ 64
  unfolding fault_pte
  fault_pte-lt =
      entry_set_bit-lt _ 2
        (entry_set_bit-lt _ 1 (entry_set_bit-lt _ 0 (set_pfn-lt pte frame hp) (omega arith))
          (omega arith))
        (omega arith)

  fault_pte-bit : (i : ℕ) → i < 3 → entry_get_bit (fault_pte pte frame) i ≡ true
  fault_pte-bit i lt = ground (
    arith,
    entry_get_bit-eq (fault_pte pte frame) i fault_pte-lt,
    bit_at-fault_pte i (omega arith),
  )

  -- The program can read and write through the word.
  pub fault_pte-open :
      (readable (fault_pte pte frame) ≡ true) × (writable (fault_pte pte frame) ≡ true)
  fault_pte-open =
      rw
        (
          fault_pte-bit 0 (omega arith),
          fault_pte-bit 1 (omega arith),
          fault_pte-bit 2 (omega arith),
        )
        (refl, refl)

  pub get_pfn-fault_pte : get_pfn (fault_pte pte frame) ≡ frame
  get_pfn-fault_pte =
      eq_of_bits 40 (get_pfn (fault_pte pte frame)) frame (get_pfn-lt _ fault_pte-lt) hf (λ i lt.
        let same : 12 + i - 12 ≡ i = omega arith in
        bit_at-get_pfn (fault_pte pte frame) i
        ∙ ground (arith, same, bit_at-fault_pte (12 + i) (omega arith)))
