-- ===== src/Pool/Richest.antt =====
-- `get_rough_richest_pool` against what it promises.
use user_level_mmap.Base.{
  ℕ, zero, suc, ◌+◌, ◌≤◌, ◌<◌, ◌≡◌, refl, Bool, true, false, ◌||◌, Option, none, some, inl, inr,
  arith, ltb, Bool-cases,
}
use user_level_mmap.Pool.{MemoryPool, richest_loop, get_rough_richest_pool}

-- The first pool with the most pages left, or none if all are empty.
abbrev pub IsRichest : ℕ → (ℕ → ℕ) → Option ℕ → Type 0
IsRichest n remain none = (j : ℕ) → j < n → remain j ≡ 0
IsRichest n remain (some i) =
    (i < n)
    × (0 < remain i)
    × ((j : ℕ) → j < n → remain j ≤ remain i)
    × ((j : ℕ) → j < i → remain j < remain i)

-- What the loop's variables say of the pools below `i`.
abbrev Seen : ℕ → (ℕ → ℕ) → (richest max_remain : ℕ) → Bool → Type 0
Seen i remain richest max_remain false = (max_remain ≡ 0) × ((j : ℕ) → j < i → remain j ≡ 0)
Seen i remain richest max_remain true =
    (richest < i)
    × (remain richest ≡ max_remain)
    × (0 < max_remain)
    × ((j : ℕ) → j < i → remain j ≤ max_remain)
    × ((j : ℕ) → j < richest → remain j < max_remain)

module _ (remain : ℕ → ℕ) where
  Seen-more :
      (i richest max_remain : ℕ) (has_page : Bool)
      → Seen i remain richest max_remain has_page
      → max_remain < remain i
      → Seen (i + 1) remain i (remain i) true
  Seen-more i richest max_remain false (zeroed, none_below) more = (
    omega arith,
    refl,
    omega arith,
    λ j lt. grind (arith, none_below j),
    λ j lt. omega (arith, none_below j lt),
  )
  Seen-more i richest max_remain true (below, is, pos, most, first) more = (
    omega arith,
    refl,
    omega arith,
    λ j lt. grind (arith, most j),
    λ j lt. omega (arith, most j lt),
  )

  Seen-same :
      (i richest max_remain : ℕ) (has_page : Bool)
      → Seen i remain richest max_remain has_page
      → remain i ≤ max_remain
      → Seen (i + 1) remain richest max_remain has_page
  Seen-same i richest max_remain false (zeroed, none_below) no_more =
      (zeroed, λ j lt. grind (arith, none_below j))
  Seen-same i richest max_remain true (below, is, pos, most, first) no_more =
      (omega arith, is, pos, λ j lt. grind (arith, most j), first)

  richest_loop-IsRichest :
      (n left i richest max_remain : ℕ) (has_page : Bool)
      → i + left ≡ n
      → Seen i remain richest max_remain has_page
      → IsRichest n remain (richest_loop left i remain richest max_remain has_page)
  unfolding richest_loop
  richest_loop-IsRichest n zero i richest max_remain false e (zeroed, none_below) =
      λ j lt. none_below j (omega arith)
  richest_loop-IsRichest n zero i richest max_remain true e (below, is, pos, most, first) = (
    omega arith,
    omega arith,
    λ j lt. omega (arith, most j (omega arith)),
    λ j lt. omega (arith, first j lt),
  )
  richest_loop-IsRichest n (suc left) i richest max_remain has_page e seen =
      elim (Bool-cases (ltb max_remain (remain i))) [
        | inl more ↦ rw more (
            richest_loop-IsRichest n left (i + 1) i (remain i) (has_page || true) (omega arith)
              (or_true has_page (Seen-more i richest max_remain has_page seen (ground arith))))
        | inr no_more ↦ rw no_more (
            richest_loop-IsRichest n left (i + 1) richest max_remain (has_page || false)
              (omega arith)
              (or_false has_page (Seen-same i richest max_remain has_page seen (ground arith))))
      ]
    where
      or_true :
          (b : Bool)
          → Seen (i + 1) remain i (remain i) true
          → Seen (i + 1) remain i (remain i) (b || true)
      or_true true h = h
      or_true false h = h

      or_false :
          (b : Bool)
          → Seen (i + 1) remain richest max_remain b
          → Seen (i + 1) remain richest max_remain (b || false)
      or_false true h = h
      or_false false h = h

-- `get_rough_richest_pool` gives the lowest index among the pools with the largest count, that
-- count being positive, and gives -1 exactly when every count is zero.
pub get_rough_richest_pool-IsRichest :
    (s : MemoryPool) → IsRichest s.num_pools s.local_remain_pages (get_rough_richest_pool s)
unfolding get_rough_richest_pool
get_rough_richest_pool-IsRichest s =
    richest_loop-IsRichest s.local_remain_pages s.num_pools s.num_pools 0 0 0 false (omega arith)
      (refl, λ j lt. absurd (omega arith))
