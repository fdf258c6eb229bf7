-- ===== src/Demos/Memmap/Usage.antt =====
-- The sum of the sizes of the pages that memmap.c prints.
use user_level_mmap.Base.{
  ℕ, zero, suc, ◌+◌, ◌/◌, ◌%◌, ◌^◌, ◌≡◌, refl, ap, arith, false, Bool-cases, inl, inr, List, [],
  ◌∷◌,
}
use user_level_mmap.Ptedit.Entry.{get_pfn}
use user_level_mmap.Demos.Memmap.{
  System, Line, small_page, large_page, used_memory, Output, is_present, is_normal_page,
  for_entries, table_of, pt_body, pd_body, pdpt_body, pml4_body, dump_tables, main, page_size,
}

-- The bytes of the pages that were printed.
abbrev pub printed : List Line → ℕ
printed [] = 0
printed (small_page a ∷ lines) = printed lines + 2 ^ 12
printed (large_page a ∷ lines) = printed lines + 2 ^ 21
printed (line ∷ lines) = printed lines

abbrev IsSummed : Output → Type 0
IsSummed out = out.mem_usage ≡ printed out.lines % 2 ^ 64

for_entries-IsSummed :
    (left i : ℕ) (table : ℕ → ℕ) (body : (i entry : ℕ) → Output → Output) (out : Output)
    → ((k e : ℕ) (o : Output) → IsSummed o → IsSummed (body k e o))
    → IsSummed out
    → IsSummed (for_entries left i table body out)
unfolding for_entries
for_entries-IsSummed zero i table body out keep h = h
for_entries-IsSummed (suc left) i table body out keep h =
    for_entries-IsSummed left (i + 1) table body _ keep (elim (Bool-cases (is_present (table i))) [
      | inl on ↦ rw on (keep i (table i) out h)
      | inr off ↦ rw off h
    ])

module _ (s : System) where
  pt_body-IsSummed : (r q p k e : ℕ) (o : Output) → IsSummed o → IsSummed (pt_body s r q p k e o)
  unfolding pt_body
  pt_body-IsSummed r q p k e o h = omega (arith, h)

  pd_body-IsSummed : (r q p e : ℕ) (o : Output) → IsSummed o → IsSummed (pd_body s r q p e o)
  unfolding pd_body
  pd_body-IsSummed r q p e o h = elim (Bool-cases (is_normal_page e)) [
    | inl small ↦ rw small (
        for_entries-IsSummed 512 0 (table_of s (r ∷ q ∷ p ∷ []) (get_pfn e)) (pt_body s r q p) _
          (λ k e' o' h'. pt_body-IsSummed r q p k e' o' h') h)
    | inr large ↦ rw large (omega (arith, h))
  ]

  pdpt_body-IsSummed : (r q e : ℕ) (o : Output) → IsSummed o → IsSummed (pdpt_body s r q e o)
  unfolding pdpt_body
  pdpt_body-IsSummed r q e o h =
      for_entries-IsSummed 512 0 (table_of s (r ∷ q ∷ []) (get_pfn e)) (pd_body s r q) _
        (λ k e' o' h'. pd_body-IsSummed r q k e' o' h') h

  pml4_body-IsSummed : (r e : ℕ) (o : Output) → IsSummed o → IsSummed (pml4_body s r e o)
  unfolding pml4_body
  pml4_body-IsSummed r e o h =
      for_entries-IsSummed 512 0 (table_of s (r ∷ []) (get_pfn e)) (pdpt_body s r) _
        (λ k e' o' h'. pdpt_body-IsSummed r k e' o' h') h

  dump_tables-IsSummed : (pid : ℕ) → IsSummed (dump_tables s pid)
  unfolding dump_tables
  dump_tables-IsSummed pid =
      for_entries-IsSummed 256 0 (table_of s [] (s.machine.paging_root pid / page_size))
        (pml4_body s) _ (λ k e' o' h'. pml4_body-IsSummed k e' o' h') refl

  -- The last line is the sum of the sizes of the pages above it, in units of 1024 bytes.
  pub main-used_memory :
      (pid : ℕ)
      → (main s false pid).1
        ≡ used_memory (printed (dump_tables s pid).lines % 2 ^ 64 / 1024)
          ∷ (dump_tables s pid).lines
  unfolding main
  main-used_memory pid =
      ap (λ u. used_memory (u / 1024) ∷ (dump_tables s pid).lines) (dump_tables-IsSummed pid)
