-- ===== src/Userfaultfd/Touch.antt =====
-- The main thread touches every page of the region.
use user_level_mmap.Base.{
  ℕ, zero, suc, ◌+◌, ◌*◌, ◌%◌, ◌^◌, ◌≤◌, ◌<◌, ◌≡◌, refl, true, some, List, [], ◌∷◌, arith, ltb,
  le→ltb, has, Bool-cases, inl, inr,
}
use user_level_mmap.Userfaultfd.{touch_loop, touch}

touch_loop-step :
    (fuel len l : ℕ) (ls : List ℕ)
    → ltb l len ≡ true
    → (l + 1024) % 2 ^ 64 ≡ l + 1024
    → touch_loop fuel len (l + 1024) ≡ some ls
    → touch_loop (suc fuel) len l ≡ some (l ∷ ls)
unfolding touch_loop
touch_loop-step fuel len l ls inside whole runs = rw (inside, whole, runs) refl

-- From an offset on, every multiple of 1024 further is read while it lies in the region.
touch_loop-has :
    (fuel len l : ℕ)
    → len + 1024 ≤ 2 ^ 64
    → len ≤ l + 1024 * fuel
    → (ls : List ℕ) × (touch_loop (suc fuel) len l ≡ some ls)
      × ((k : ℕ) → l + 1024 * k < len → has (l + 1024 * k) ls ≡ true)
unfolding touch_loop
touch_loop-has zero len l room enough =
    ([], rw (le→ltb l len (omega arith)) refl, λ k lt. absurd (omega arith))
touch_loop-has (suc fuel) len l room enough = elim (Bool-cases (ltb l len)) [
  | inr outside ↦ ([], rw outside refl, λ k lt. absurd (ground arith))
  | inl inside ↦
      let whole : (l + 1024) % 2 ^ 64 ≡ l + 1024 = ground arith in
      let (ls, runs, all) = touch_loop-has fuel len (l + 1024) room (omega arith) in
      (l ∷ ls, touch_loop-step (suc fuel) len l ls inside whole runs, step ls all)
]
  where
    step :
        (ls : List ℕ)
        → ((k : ℕ) → l + 1024 + 1024 * k < len → has (l + 1024 + 1024 * k) ls ≡ true)
        → (k : ℕ) → l + 1024 * k < len
        → has (l + 1024 * k) (l ∷ ls) ≡ true
    step ls all zero lt = ground arith
    step ls all (suc k) lt =
        let e : l + 1024 + 1024 * k ≡ l + 1024 * suc k = omega arith in
        let there : has (l + 1024 * suc k) ls ≡ true = rw (← e) (all k (omega arith)) in
        ground (arith, there)

-- For a region of `n` pages, `4 * n + 1` rounds of fuel are enough for the loop of `main` to end,
-- and it reads at the offset 15 of every page.
pub touch-has :
    (n : ℕ)
    → n * 4096 + 1024 ≤ 2 ^ 64
    → (ls : List ℕ) × (touch (suc (4 * n)) (n * 4096) ≡ some ls)
      × ((j : ℕ) → j < n → has (j * 4096 + 15) ls ≡ true)
unfolding touch
touch-has n room =
    let (ls, runs, all) = touch_loop-has (4 * n) (n * 4096) 15 room (omega arith) in
    (
      ls,
      runs,
      λ j lt.
          let e : 15 + 1024 * (4 * j) ≡ j * 4096 + 15 = omega arith in
          rw (← e) (all (4 * j) (omega arith)),
    )
