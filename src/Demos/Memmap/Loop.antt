-- ===== src/Demos/Memmap/Loop.antt =====
-- What a loop of memmap.c over a table leaves in the output.
use user_level_mmap.Base.{
  ℕ, zero, suc, ◌+◌, ◌≤◌, ◌<◌, ◌≡◌, ◌≢◌, refl, ◌∙◌, ap, arith, Bool, false, ◌&&◌, ◌||◌, List, [],
  ◌∷◌, ◌==◌, if◌then◌else◌, Bool-cases, inl, inr,
}
use user_level_mmap.Demos.Memmap.{Line, small_page, Output, is_present, for_entries}

-- Whether the page at an address was printed as a small one.
abbrev pub lists : ℕ → List Line → Bool
lists a [] = false
lists a (small_page b ∷ lines) = (b == a) || lists a lines
lists a (line ∷ lines) = lists a lines

module _ (seen : Output → Bool) (table : ℕ → ℕ) (body : (i entry : ℕ) → Output → Output) where
  -- A round at an entry that the body does not mind.
  round :
      (i : ℕ) (out : Output)
      → seen (body i (table i) out) ≡ seen out
      → seen (if is_present (table i) then body i (table i) out else out) ≡ seen out
  round i out e = elim (Bool-cases (is_present (table i))) [
    | inl on ↦ rw on e
    | inr off ↦ rw off refl
  ]

  round_at :
      (i : ℕ) (out : Output) (hit : Bool)
      → ((o : Output) → seen (body i (table i) o) ≡ (hit || seen o))
      → seen (if is_present (table i) then body i (table i) out else out)
        ≡ (is_present (table i) && hit || seen out)
  round_at i out hit here = elim (Bool-cases (is_present (table i))) [
    | inl on ↦ rw on (here out)
    | inr off ↦ rw off refl
  ]

  -- No round changes what is seen.
  pub for_entries-skip :
      (left i : ℕ) (out : Output)
      → ((k : ℕ) (o : Output) → i ≤ k → k < i + left → seen (body k (table k) o) ≡ seen o)
      → seen (for_entries left i table body out) ≡ seen out
  unfolding for_entries
  for_entries-skip zero i out same = refl
  for_entries-skip (suc left) i out same =
      for_entries-skip left (i + 1) _ (λ k o ge lt. same k o (omega arith) (omega arith))
      ∙ round i out (same i out (omega arith) (omega arith))

  -- Only the round at `at` changes what is seen, if the entry there is present.
  pub for_entries-only :
      (left i at : ℕ) (hit : Bool) (out : Output)
      → i ≤ at
      → at < i + left
      → ((k : ℕ) (o : Output) → k < i + left → k ≢ at → seen (body k (table k) o) ≡ seen o)
      → ((o : Output) → seen (body at (table at) o) ≡ (hit || seen o))
      → seen (for_entries left i table body out) ≡ (is_present (table at) && hit || seen out)
  unfolding for_entries
  for_entries-only zero i at hit out low high same here = absurd (omega arith)
  for_entries-only (suc left) i at hit out low high same here = elim (Bool-cases (i == at)) [
    | inl now ↦
        let e : at ≡ i = ground arith in
        for_entries-skip left (i + 1) _ (λ k o ge lt. same k o (omega arith) (omega arith))
        ∙ rw e (round_at i out hit (rw e at here))
    | inr other ↦
        for_entries-only left (i + 1) at hit _ (ground arith) (omega arith)
          (λ k o lt ne. same k o (omega arith) ne) here
        ∙ ap (λ x. is_present (table at) && hit || x)
            (round i out (same i out (omega arith) (ground arith)))
  ]
