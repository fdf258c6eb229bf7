-- ===== src/Mmap/Fault/Fill.antt =====
-- Bytes stored at different places are all there afterwards.
use user_level_mmap.Base.{
  ℕ, zero, suc, ◌<◌, ◌≡◌, ◌≢◌, refl, ne→==, arith, ◌==◌, Bool-cases, inl, inr, ap,
}
use user_level_mmap.Mmap.Fault.{store_bytes}

pub store_bytes-at :
    (n : ℕ) (place content bytes : ℕ → ℕ) (j : ℕ)
    → ((a b : ℕ) → a < n → b < n → place a ≡ place b → a ≡ b)
    → j < n
    → store_bytes n place content bytes (place j) ≡ content j
unfolding store_bytes
store_bytes-at zero place content bytes j apart lt = absurd (omega arith)
store_bytes-at (suc n) place content bytes j apart lt = elim (Bool-cases (place n == place j)) [
  | inl same ↦ let e : n ≡ j = apart n j (omega arith) lt (ground arith) in rw (same, e)
  | inr differ ↦
      let below : j < n = ground (arith, ap place {x = n} {y = j}) in
      rw differ (
        store_bytes-at n place content bytes j
          (λ a b la lb e. apart a b (omega arith) (omega arith) e) below)
]

-- What lies elsewhere is not touched.
pub store_bytes-out :
    (n : ℕ) (place content bytes : ℕ → ℕ) (x : ℕ)
    → ((j : ℕ) → j < n → place j ≢ x)
    → store_bytes n place content bytes x ≡ bytes x
unfolding store_bytes
store_bytes-out zero place content bytes x out = refl
store_bytes-out (suc n) place content bytes x out =
    rw (ne→== (place n) x (out n (omega arith)))
      (store_bytes-out n place content bytes x (λ j lt. out j (omega arith)))
