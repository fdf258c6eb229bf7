-- ===== src/Ptedit/PteOps/Laws.antt =====
-- What a caller reads from a PTE after it changed it.
use user_level_mmap.Base.{ℕ, ◌^◌, ◌<◌, ◌≡◌, refl, true, false, ◌&&◌, ◌||◌, not, arith, ◌==◌}
use user_level_mmap.Ptedit.Entry.{test, valid_mask_pte, set_pfn, entry_set_bit, entry_clear_bit}
use user_level_mmap.Ptedit.Entry.Laws.{
  in_frame, bit_at-set_pfn, set_pfn-lt, get_pfn-set_pfn, bit_at-entry_set_bit, entry_set_bit-lt,
  bit_at-entry_clear_bit, entry_clear_bit-lt, entry_get_bit-eq,
}
use user_level_mmap.Ptedit.Interface.{Implementation, IsImplementation}
use user_level_mmap.Ptedit.PteOps.{
  with_pte, pte_set_bit, pte_clear_bit, pte_get_bit, pte_get_pfn, pte_set_pfn,
}

module _ (impl : Implementation) (laws : IsImplementation impl) (pid address : ℕ) (s : impl.State)
    (mapped : laws.Mapped pid address s) where
  open impl use {resolve, update}

  abbrev word : ℕ
  word = (resolve address pid s).pte

  word-lt : word < 2 ^ 64
  word-lt = laws.resolve_lt pid address s mapped

  marked : test (resolve address pid s).valid valid_mask_pte ≡ true
  marked = laws.resolve_marked pid address s mapped

  -- The PTE after an update with a word of 64 bits.
  pte-update :
      (w : ℕ)
      → w < 2 ^ 64
      → (resolve address pid (update address pid (with_pte (resolve address pid s) w) s)).pte ≡ w
  pte-update w small =
      laws.resolve_update pid address (with_pte (resolve address pid s) w) s refl small mapped

  marked-update :
      (w : ℕ)
      → w < 2 ^ 64
      → test
          (resolve address pid (update address pid (with_pte (resolve address pid s) w) s)).valid
          valid_mask_pte
        ≡ true
  marked-update w small =
      laws.resolve_marked pid address _
        (laws.update_Mapped pid address (with_pte (resolve address pid s) w) s refl small mapped)

  -- For an address that has a PTE, after `ptedit_pte_set_bit` of a bit below 64 that bit reads as 1,
  -- and every other bit as before.
  pte_get_bit-pte_set_bit :
      (bit j : ℕ)
      → bit < 64
      → pte_get_bit impl address pid j (pte_set_bit impl address pid bit s)
        ≡ ((j == bit) || pte_get_bit impl address pid j s)
  unfolding pte_get_bit pte_set_bit
  pte_get_bit-pte_set_bit bit j hb =
      let small = entry_set_bit-lt word bit word-lt hb in
      rw (marked, pte-update (entry_set_bit word bit) small)
        (ground (
          arith,
          entry_get_bit-eq (entry_set_bit word bit) j small,
          entry_get_bit-eq word j word-lt,
          bit_at-entry_set_bit word bit j,
        ))

  -- For an address that has a PTE, after `ptedit_pte_clear_bit` of a bit below 64 that bit reads as
  -- 0, and every other bit as before.
  pte_get_bit-pte_clear_bit :
      (bit j : ℕ)
      → bit < 64
      → j < 64
      → pte_get_bit impl address pid j (pte_clear_bit impl address pid bit s)
        ≡ (not (j == bit) && pte_get_bit impl address pid j s)
  unfolding pte_get_bit pte_clear_bit
  pte_get_bit-pte_clear_bit bit j hb hj =
      let small = entry_clear_bit-lt word bit word-lt in
      rw (marked, pte-update (entry_clear_bit word bit) small)
        (ground (
          arith,
          entry_get_bit-eq (entry_clear_bit word bit) j small,
          entry_get_bit-eq word j word-lt,
          bit_at-entry_clear_bit word bit j hb hj,
        ))

  -- For an address that has a PTE, after `ptedit_pte_set_pfn` with a frame number of 40 bits,
  -- `ptedit_pte_get_pfn` reads that number, and every bit outside the frame number reads as before.
  pte_get_pfn-pte_set_pfn :
      (frame : ℕ)
      → frame < 2 ^ 40
      → (pte_get_pfn impl address pid (pte_set_pfn impl address pid frame s) ≡ frame)
        × ((j : ℕ)
            → j < 64
            → in_frame j ≡ false
            → pte_get_bit impl address pid j (pte_set_pfn impl address pid frame s)
              ≡ pte_get_bit impl address pid j s)
  unfolding pte_get_pfn pte_set_pfn pte_get_bit
  pte_get_pfn-pte_set_pfn frame hf =
      let small = set_pfn-lt word frame word-lt in
      rw (marked, marked-update (set_pfn word frame) small, pte-update (set_pfn word frame) small)
        (
          get_pfn-set_pfn word frame word-lt hf,
          λ j hj out. ground (
            arith,
            entry_get_bit-eq (set_pfn word frame) j small,
            entry_get_bit-eq word j word-lt,
            bit_at-set_pfn word frame j word-lt hf hj,
          ),
        )

  -- `ptedit_pte_set_pfn` leaves a PTE with the new frame number.
  pub resolve-pte_set_pfn :
      (frame : ℕ)
      → (resolve address pid (pte_set_pfn impl address pid frame s)).pte ≡ set_pfn word frame
  unfolding pte_set_pfn
  resolve-pte_set_pfn frame =
      rw marked (pte-update (set_pfn word frame) (set_pfn-lt word frame word-lt))

  pub pte_set_pfn-Mapped :
      (frame : ℕ) → laws.Mapped pid address (pte_set_pfn impl address pid frame s)
  unfolding pte_set_pfn
  pte_set_pfn-Mapped frame = rw marked (
      laws.update_Mapped pid address (with_pte (resolve address pid s) (set_pfn word frame)) s refl
        (set_pfn-lt word frame word-lt) mapped)

  -- For an address that has a PTE: after `ptedit_pte_set_bit` of a bit below 64 that bit reads as 1
  -- and every other bit as before; after `ptedit_pte_clear_bit` it reads as 0 and every other bit as
  -- before; and after `ptedit_pte_set_pfn` with a frame number of 40 bits `ptedit_pte_get_pfn` reads
  -- that number, and every bit outside the frame number reads as before.
  pub pte_get-after :
      (bit j frame : ℕ)
      → bit < 64
      → j < 64
      → frame < 2 ^ 40
      → (pte_get_bit impl address pid j (pte_set_bit impl address pid bit s)
          ≡ ((j == bit) || pte_get_bit impl address pid j s))
        × (pte_get_bit impl address pid j (pte_clear_bit impl address pid bit s)
            ≡ (not (j == bit) && pte_get_bit impl address pid j s))
        × (pte_get_pfn impl address pid (pte_set_pfn impl address pid frame s) ≡ frame)
        × (in_frame j ≡ false
            → pte_get_bit impl address pid j (pte_set_pfn impl address pid frame s)
              ≡ pte_get_bit impl address pid j s)
  pte_get-after bit j frame hb hj hf =
      let (read, other) = pte_get_pfn-pte_set_pfn frame hf in
      (pte_get_bit-pte_set_bit bit j hb, pte_get_bit-pte_clear_bit bit j hb hj, read, other j hj)
