-- ===== src/Demos/Memmap/Address.antt =====
-- The addresses that memmap.c builds from the indices of the four levels.
use user_level_mmap.Base.{ℕ, ◌+◌, ◌*◌, ◌/◌, ◌%◌, ◌^◌, ◌<◌, ◌≡◌, ◌∙◌, arith}
use user_level_mmap.Base.Bits.{bit_or-eq-add}
use user_level_mmap.Demos.Memmap.{small_address}
use user_level_mmap.Ptedit.Entry.{u64}

-- The indices add up.
pub small_address-eq :
    (r q p k : ℕ)
    → r < 512
    → q < 512
    → p < 512
    → k < 512
    → small_address r q p k ≡ r * 2 ^ 39 + q * 2 ^ 30 + p * 2 ^ 21 + k * 2 ^ 12
small_address-eq r q p k hr hq hp hk =
    let e1 : u64 (k * 2 ^ 12) ≡ k * 2 ^ 12 = omega arith in
    let e2 : u64 (p * 2 ^ 21) ≡ p * 2 ^ 21 = omega arith in
    let e3 : u64 (q * 2 ^ 30) ≡ q * 2 ^ 30 = omega arith in
    let e4 : u64 (r * 2 ^ 39) ≡ r * 2 ^ 39 = omega arith in
    rw
      (
        e1,
        e2,
        e3,
        e4,
        bit_or-eq-add 21 (k * 2 ^ 12) p (omega arith),
        bit_or-eq-add 30 (k * 2 ^ 12 + p * 2 ^ 21) q (omega arith),
        bit_or-eq-add 39 (k * 2 ^ 12 + p * 2 ^ 21 + q * 2 ^ 30) r (omega arith),
      )
      (omega arith)

-- The address is the start of the page of `v` exactly when all indices are those of `v`.
pub small_address-index :
    (v : ℕ)
    → v < 2 ^ 47
    → small_address
        (v / 2 ^ 39 % 2 ^ 9)
        (v / 2 ^ 30 % 2 ^ 9)
        (v / 2 ^ 21 % 2 ^ 9)
        (v / 2 ^ 12 % 2 ^ 9)
      ≡ v / 2 ^ 12 * 2 ^ 12
small_address-index v h =
    small_address-eq (v / 2 ^ 39 % 2 ^ 9) (v / 2 ^ 30 % 2 ^ 9) (v / 2 ^ 21 % 2 ^ 9)
      (v / 2 ^ 12 % 2 ^ 9) (omega arith) (omega arith) (omega arith) (omega arith)
    ∙ omega arith

pub index-small_address :
    (v r q p k : ℕ)
    → v < 2 ^ 47
    → r < 512
    → q < 512
    → p < 512
    → k < 512
    → small_address r q p k ≡ v / 2 ^ 12 * 2 ^ 12
    → (r ≡ v / 2 ^ 39 % 2 ^ 9)
      × (q ≡ v / 2 ^ 30 % 2 ^ 9)
      × (p ≡ v / 2 ^ 21 % 2 ^ 9)
      × (k ≡ v / 2 ^ 12 % 2 ^ 9)
index-small_address v r q p k h hr hq hp hk e = omega (arith, small_address-eq r q p k hr hq hp hk)
