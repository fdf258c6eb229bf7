-- ===== src/Demos/Memmap/Resolve.antt =====
-- The pages that memmap.c prints against those that `ptedit_resolve` finds.
use user_level_mmap.Base.{
  ℕ, ◌*◌, ◌/◌, ◌%◌, ◌^◌, ◌<◌, ◌≡◌, Bool, false, List, [], ◌∷◌, ◌==◌, Option, none, some, All,
}
use user_level_mmap.Ptedit.Entry.{Entry, present, pfn, get_pfn}
use user_level_mmap.Ptedit.Walk.{Machine, x86_64_paging, root_slot}
use user_level_mmap.Ptedit.Walk.Spec.{indices}
use user_level_mmap.Demos.Memmap.{System, page_size}
use user_level_mmap.Demos.Memmap.Levels.{i4, i3, i2, i1}

-- The frame numbers of the entries that the indices lead through fit 28 bits.
abbrev pub IsNarrow : (ℕ → ℕ) → ℕ → List ℕ → Type 0
IsNarrow mem base [] = Unit
IsNarrow mem base (i ∷ []) = Unit
IsNarrow mem base (i ∷ j ∷ is) =
    (get_pfn (mem (root_slot base i)) < 2 ^ 28)
    × IsNarrow mem (pfn (mem (root_slot base i)) * 4096) (j ∷ is)

-- The ways to the tables of an address, each as the indices that lead to it.
abbrev pub ways : ℕ → List (List ℕ)
ways v =
    let a = v / 2 ^ 39 % 2 ^ 9 in
    let b = v / 2 ^ 30 % 2 ^ 9 in
    let c = v / 2 ^ 21 % 2 ^ 9 in [] ∷ (a ∷ []) ∷ (a ∷ b ∷ []) ∷ (a ∷ b ∷ c ∷ []) ∷ []

-- Whether the last entry on the way of the indices is there and present.
abbrev leads : (ℕ → ℕ) → Option ℕ → Bool
leads mem none = false
leads mem (some a) = present (mem a) == 1

module _ (s : System) (words : (x : ℕ) → s.machine.mem x < 2 ^ 64) where
  abbrev m : Machine
  m = s.machine

  module _ (root v : ℕ) (small : root < 2 ^ 64) (aligned : root % page_size ≡ 0) (low : v < 2 ^ 47)
      (narrow : IsNarrow m.mem root (indices x86_64_paging v))
      (ok : All (λ path. s.unread path ≡ false) (ways v)) where
    abbrev e4 : ℕ
    e4 = m.mem (root_slot root (i4 s v low))

    abbrev e3 : ℕ
    e3 = m.mem (root_slot (pfn e4 * 4096) (i3 s v low))

    abbrev e2 : ℕ
    e2 = m.mem (root_slot (pfn e3 * 4096) (i2 s v low))

    abbrev e1 : ℕ
    e1 = m.mem (root_slot (pfn e2 * 4096) (i1 s v low))
