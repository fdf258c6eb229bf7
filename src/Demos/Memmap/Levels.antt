-- ===== src/Demos/Memmap/Levels.antt =====
-- Level by level, whether memmap.c prints the page of an address.
use user_level_mmap.Base.{
  ℕ, ◌*◌, ◌/◌, ◌%◌, ◌^◌, ◌<◌, ◌≡◌, ◌≢◌, refl, ◌∙◌, arith, Bool, true, false, ◌&&◌, ◌||◌, ◌==◌,
  Bool-cases, inl, inr, ne→==, eq→==, [], ◌∷◌,
}
use user_level_mmap.Ptedit.Entry.{get_pfn}
use user_level_mmap.Demos.Memmap.{
  System, Output, is_present, is_normal_page, small_address, table_of, pt_body, pd_body, pdpt_body,
  pml4_body, dump_tables, page_size,
}
use user_level_mmap.Demos.Memmap.Address.{small_address-index, index-small_address}
use user_level_mmap.Demos.Memmap.Loop.{lists, for_entries-skip, for_entries-only}

module _ (s : System) (v : ℕ) (low : v < 2 ^ 47) where
  abbrev pub i4 : ℕ
  i4 = v / 2 ^ 39 % 2 ^ 9

  abbrev pub i3 : ℕ
  i3 = v / 2 ^ 30 % 2 ^ 9

  abbrev pub i2 : ℕ
  i2 = v / 2 ^ 21 % 2 ^ 9

  abbrev pub i1 : ℕ
  i1 = v / 2 ^ 12 % 2 ^ 9

  abbrev pub seen : Output → Bool
  seen o = lists (v / 2 ^ 12 * 2 ^ 12) o.lines

  -- What an entry of each level contributes at the indices of the address.
  abbrev pub hit_pd : ℕ → Bool
  hit_pd pd_entry =
      is_normal_page pd_entry && is_present (table_of s (i4 ∷ i3 ∷ i2 ∷ []) (get_pfn pd_entry) i1)

  abbrev pub hit_pdpt : ℕ → Bool
  hit_pdpt pdpt_entry =
      let e = table_of s (i4 ∷ i3 ∷ []) (get_pfn pdpt_entry) i2 in is_present e && hit_pd e

  abbrev pub hit_pml4 : ℕ → Bool
  hit_pml4 pml4_entry =
      let e = table_of s (i4 ∷ []) (get_pfn pml4_entry) i3 in is_present e && hit_pdpt e

  pt_body-skip :
      (r q p k e : ℕ) (o : Output)
      → r < 512
      → q < 512
      → p < 512
      → k < 512
      → (r ≡ i4 → q ≡ i3 → p ≡ i2 → k ≢ i1)
      → seen (pt_body s r q p k e o) ≡ seen o
  unfolding pt_body
  pt_body-skip r q p k e o hr hq hp hk ne =
      let differ : (small_address r q p k == v / 2 ^ 12 * 2 ^ 12) ≡ false =
        ne→== _ _ (λ at.
          let (a, b, c, d) = index-small_address v r q p k low hr hq hp hk at in ne a b c d) in
      rw differ refl

  pt_body-hit : (e : ℕ) (o : Output) → seen (pt_body s i4 i3 i2 i1 e o) ≡ true
  unfolding pt_body
  pt_body-hit e o =
      let same : (small_address i4 i3 i2 i1 == v / 2 ^ 12 * 2 ^ 12) ≡ true =
        eq→== _ _ (small_address-index v low) in
      rw same refl

  pd_body-skip :
      (r q p e : ℕ) (o : Output)
      → r < 512
      → q < 512
      → p < 512
      → (r ≡ i4 → q ≡ i3 → p ≢ i2)
      → seen (pd_body s r q p e o) ≡ seen o
  unfolding pd_body
  pd_body-skip r q p e o hr hq hp ne = elim (Bool-cases (is_normal_page e)) [
    | inl small ↦ rw small (
        for_entries-skip seen (table_of s (r ∷ q ∷ p ∷ []) (get_pfn e)) (pt_body s r q p) 512 0 _
          (λ k o' ge lt. pt_body-skip r q p k _ o' hr hq hp (omega arith) (λ a b c d. ne a b c)))
    | inr large ↦ rw large refl
  ]

  pd_body-hit : (e : ℕ) (o : Output) → seen (pd_body s i4 i3 i2 e o) ≡ (hit_pd e || seen o)
  unfolding pd_body
  pd_body-hit e o = elim (Bool-cases (is_normal_page e)) [
    | inl small ↦ rw small (
        for_entries-only seen (table_of s (i4 ∷ i3 ∷ i2 ∷ []) (get_pfn e)) (pt_body s i4 i3 i2) 512
          0 i1 true _ (omega arith) (omega arith)
          (λ k o' lt ne.
            pt_body-skip i4 i3 i2 k _ o' (omega arith) (omega arith) (omega arith) (omega arith)
              (λ a b c. ne))
          (λ o'. pt_body-hit _ o')
        ∙ ground arith)
    | inr large ↦ rw large refl
  ]

  pdpt_body-skip :
      (r q e : ℕ) (o : Output)
      → r < 512
      → q < 512
      → (r ≡ i4 → q ≢ i3)
      → seen (pdpt_body s r q e o) ≡ seen o
  unfolding pdpt_body
  pdpt_body-skip r q e o hr hq ne =
      for_entries-skip seen (table_of s (r ∷ q ∷ []) (get_pfn e)) (pd_body s r q) 512 0 _
        (λ k o' ge lt. pd_body-skip r q k _ o' hr hq (omega arith) (λ a b c. ne a b))

  pdpt_body-hit : (e : ℕ) (o : Output) → seen (pdpt_body s i4 i3 e o) ≡ (hit_pdpt e || seen o)
  unfolding pdpt_body
  pdpt_body-hit e o =
      for_entries-only seen (table_of s (i4 ∷ i3 ∷ []) (get_pfn e)) (pd_body s i4 i3) 512 0 i2
        (hit_pd (table_of s (i4 ∷ i3 ∷ []) (get_pfn e) i2)) _ (omega arith) (omega arith)
        (λ k o' lt ne.
          pd_body-skip i4 i3 k _ o' (omega arith) (omega arith) (omega arith) (λ a b. ne))
        (λ o'. pd_body-hit _ o')

  pml4_body-skip : (r e : ℕ) (o : Output) → r < 512 → r ≢ i4 → seen (pml4_body s r e o) ≡ seen o
  unfolding pml4_body
  pml4_body-skip r e o hr ne =
      for_entries-skip seen (table_of s (r ∷ []) (get_pfn e)) (pdpt_body s r) 512 0 _
        (λ k o' ge lt. pdpt_body-skip r k _ o' hr (omega arith) (λ a b. ne a))

  pml4_body-hit : (e : ℕ) (o : Output) → seen (pml4_body s i4 e o) ≡ (hit_pml4 e || seen o)
  unfolding pml4_body
  pml4_body-hit e o =
      for_entries-only seen (table_of s (i4 ∷ []) (get_pfn e)) (pdpt_body s i4) 512 0 i3
        (hit_pdpt (table_of s (i4 ∷ []) (get_pfn e) i3)) _ (omega arith) (omega arith)
        (λ k o' lt ne. pdpt_body-skip i4 k _ o' (omega arith) (omega arith) (λ a. ne))
        (λ o'. pdpt_body-hit _ o')

  -- The page of the address is printed when the entries on its way are present.
  pub dump_tables-hit :
      (pid : ℕ)
      → seen (dump_tables s pid) ≡ (
          is_present (table_of s [] (s.machine.paging_root pid / page_size) i4)
            && hit_pml4 (table_of s [] (s.machine.paging_root pid / page_size) i4)
          || false)
  unfolding dump_tables
  dump_tables-hit pid =
      for_entries-only seen (table_of s [] (s.machine.paging_root pid / page_size)) (pml4_body s)
        256 0 i4 (hit_pml4 (table_of s [] (s.machine.paging_root pid / page_size) i4)) _
        (omega arith) (omega arith) (λ k o' lt ne. pml4_body-skip k _ o' (omega arith) ne)
        (λ o'. pml4_body-hit _ o')
