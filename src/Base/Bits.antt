-- ===== src/Base/Bits.antt =====
-- Bits of machine words: `bit_at` is the bit at a position, and each operation of C on words is
-- described by its bits.
mod Step
use Step.{bit_and_step, bit_or_step}
use Prim.Native.Nat.{
  ℕ, zero, suc, ◌+◌, ◌-◌, ◌*◌, ◌/◌, ◌%◌, ◌^◌, ◌≤◌, ◌<◌, min, max, bit_and, bit_or, bit_and-bitwise,
  bit_or-bitwise,
}
use mathlib.Core.Path.{◌≡◌, refl, sym, ap, ◌∙◌}
use native.Mathlib.Nat.{pow-suc, one-le-pow, mul_comm, div-div-eq-div-mul, mod-lt, mod-add-div'}
use native.Mathlib.Omega.{arith}
use user_level_mmap.Base.Tests.{◌==◌, ltb, if◌then◌else◌}

-- The bit of `a` at position `i`.
abbrev pub bit_at : ℕ → ℕ → ℕ
bit_at a zero = a % 2
bit_at a (suc i) = bit_at (a / 2) i

pub bit_at-le-one : (a i : ℕ) → bit_at a i ≤ 1
bit_at-le-one a zero = omega arith
bit_at-le-one a (suc i) = bit_at-le-one (a / 2) i

pub bit_at-bit_and : (a b i : ℕ) → bit_at (bit_and a b) i ≡ min (bit_at a i) (bit_at b i)
bit_at-bit_and a b zero = omega (arith, bit_and_step a b)
bit_at-bit_and a b (suc i) =
    let e : bit_and a b / 2 ≡ bit_and (a / 2) (b / 2) = omega (arith, bit_and_step a b) in
    rw e (bit_at-bit_and (a / 2) (b / 2) i)

pub bit_at-bit_or : (a b i : ℕ) → bit_at (bit_or a b) i ≡ max (bit_at a i) (bit_at b i)
bit_at-bit_or a b zero = omega (arith, bit_or_step a b)
bit_at-bit_or a b (suc i) =
    let e : bit_or a b / 2 ≡ bit_or (a / 2) (b / 2) = omega (arith, bit_or_step a b) in
    rw e (bit_at-bit_or (a / 2) (b / 2) i)

pub bit_at-zero : (i : ℕ) → bit_at 0 i ≡ 0
bit_at-zero zero = refl
bit_at-zero (suc i) = bit_at-zero i

-- A word with a bound on its width has no bit above it.
pub bit_at-eq-zero : (w a i : ℕ) → a < 2 ^ w → w ≤ i → bit_at a i ≡ 0
bit_at-eq-zero zero a i h le = let e : a ≡ 0 = omega arith in rw e (bit_at-zero i)
bit_at-eq-zero (suc w) a zero h le = absurd (omega arith)
bit_at-eq-zero (suc w) a (suc i) h le =
    bit_at-eq-zero w (a / 2) i (omega (arith, pow-suc 2 w)) (omega arith)

-- Words with equal bits are equal.
pub eq_of_bits :
    (w a b : ℕ) → a < 2 ^ w → b < 2 ^ w → ((i : ℕ) → i < w → bit_at a i ≡ bit_at b i) → a ≡ b
eq_of_bits zero a b ha hb h = omega arith
eq_of_bits (suc w) a b ha hb h = omega (
  arith,
  h 0 (omega arith),
  eq_of_bits w (a / 2) (b / 2) (omega (arith, pow-suc 2 w)) (omega (arith, pow-suc 2 w))
      (λ i lt. h (suc i) (omega arith)),
)

-- `x << k`
pub bit_at-shl : (x k i : ℕ) → bit_at (x * 2 ^ k) i ≡ (if ltb i k then 0 else bit_at x (i - k))
bit_at-shl x zero i =
    let e : x * 1 ≡ x = omega arith in let d : i - 0 ≡ i = omega arith in ground (arith, e, d)
bit_at-shl x (suc k) zero =
    let e : x * 2 ^ suc k ≡ 2 * (x * 2 ^ k) = omega (arith, ap (λ (t : ℕ). x * t) (pow-suc 2 k)) in
    ground (arith, e)
bit_at-shl x (suc k) (suc i) =
    let e : x * 2 ^ suc k / 2 ≡ x * 2 ^ k = omega (arith, ap (λ (t : ℕ). x * t) (pow-suc 2 k)) in
    let d : suc i - suc k ≡ i - k = omega arith in rw (e, d) (bit_at-shl x k i ∙ ground arith)

-- `(1 << k) - 1`
pub bit_at-ones : (k i : ℕ) → bit_at (2 ^ k - 1) i ≡ (if ltb i k then 1 else 0)
bit_at-ones zero i = rw (bit_at-zero i) (ground arith)
bit_at-ones (suc k) zero = ground (arith, pow-suc 2 k, one-le-pow k 2)
bit_at-ones (suc k) (suc i) =
    let e : (2 ^ suc k - 1) / 2 ≡ 2 ^ k - 1 = omega (arith, pow-suc 2 k, one-le-pow k 2) in
    rw e (bit_at-ones k i ∙ ground arith)

-- `~x` at width `w`
pub bit_at-complement : (w x i : ℕ) → x < 2 ^ w → i < w → bit_at (2 ^ w - 1 - x) i ≡ 1 - bit_at x i
bit_at-complement zero x i h lt = absurd (omega arith)
bit_at-complement (suc w) x zero h lt = omega (arith, pow-suc 2 w)
bit_at-complement (suc w) x (suc i) h lt =
    let e : (2 ^ suc w - 1 - x) / 2 ≡ 2 ^ w - 1 - x / 2 = omega (arith, pow-suc 2 w) in
    rw e (bit_at-complement w (x / 2) i (omega (arith, pow-suc 2 w)) (omega arith))

-- `x >> k`
pub bit_at-shr : (x k i : ℕ) → bit_at (x / 2 ^ k) i ≡ bit_at x (k + i)
bit_at-shr x zero i =
    let e : x / 1 ≡ x = omega arith in let d : 0 + i ≡ i = omega arith in rw (e, d)
bit_at-shr x (suc k) i =
    let e : x / 2 ^ suc k ≡ x / 2 / 2 ^ k =
      ap (λ (t : ℕ). x / t) (pow-suc 2 k ∙ mul_comm (2 ^ k) 2)
      ∙ sym (div-div-eq-div-mul x 2 (2 ^ k)) in
    let d : suc k + i ≡ suc (k + i) = omega arith in rw (e, d) (bit_at-shr (x / 2) k i)

zero-bit_and : (b : ℕ) → bit_and 0 b ≡ 0
zero-bit_and b = bit_and-bitwise 0 b

pub bit_and-lt : (w a b : ℕ) → a < 2 ^ w → bit_and a b < 2 ^ w
bit_and-lt zero a b h =
    let e : a ≡ 0 = omega arith in rw e (omega (arith, bit_and_step 0 b, zero-bit_and b))
bit_and-lt (suc w) a b h = omega (
  arith,
  pow-suc 2 w,
  bit_and_step a b,
  bit_and-lt w (a / 2) (b / 2) (omega (arith, pow-suc 2 w)),
)

pub bit_or-lt : (w a b : ℕ) → a < 2 ^ w → b < 2 ^ w → bit_or a b < 2 ^ w
bit_or-lt zero a b ha hb =
    let e : a ≡ 0 = omega arith in let d : b ≡ 0 = omega arith in rw (e, d) (omega arith)
bit_or-lt (suc w) a b ha hb = omega (
  arith,
  pow-suc 2 w,
  bit_or_step a b,
  bit_or-lt w (a / 2) (b / 2) (omega (arith, pow-suc 2 w)) (omega (arith, pow-suc 2 w)),
)

pub bit_at-one : (i : ℕ) → bit_at 1 i ≡ (if i == 0 then 1 else 0)
bit_at-one zero = refl
bit_at-one (suc i) = rw (bit_at-zero i) (ground arith)

-- `1 << k`
pub bit_at-two_pow : (k i : ℕ) → bit_at (2 ^ k) i ≡ (if i == k then 1 else 0)
bit_at-two_pow k i =
    let e : 1 * 2 ^ k ≡ 2 ^ k = omega arith in
    rw (← e) (bit_at-shl 1 k i ∙ ground (arith, bit_at-one (i - k)))

pub two_pow-lt : (k w : ℕ) → k < w → 2 ^ k < 2 ^ w
two_pow-lt zero zero h = absurd (omega arith)
two_pow-lt zero (suc w) h = omega (arith, pow-suc 2 w, one-le-pow w 2)
two_pow-lt (suc k) zero h = absurd (omega arith)
two_pow-lt (suc k) (suc w) h = omega (arith, pow-suc 2 k, pow-suc 2 w, two_pow-lt k w (omega arith))

-- A word that has no bit is 0.
pub eq_zero_of_bits : (w a : ℕ) → a < 2 ^ w → ((i : ℕ) → i < w → bit_at a i ≡ 0) → a ≡ 0
eq_zero_of_bits w a h none_set =
    eq_of_bits w a 0 h (omega (arith, one-le-pow w 2)) (λ i lt. none_set i lt ∙ sym (bit_at-zero i))

-- `&` is symmetric, on words of a width.
pub bit_and_comm : (w a b : ℕ) → a < 2 ^ w → b < 2 ^ w → bit_and a b ≡ bit_and b a
bit_and_comm w a b ha hb =
    eq_of_bits w (bit_and a b) (bit_and b a) (bit_and-lt w a b ha) (bit_and-lt w b a hb)
      (λ i lt. omega (arith, bit_at-bit_and a b i, bit_at-bit_and b a i))

zero-bit_or : (b : ℕ) → bit_or 0 b ≡ b
zero-bit_or b = bit_or-bitwise 0 b

-- `|` of two words that share no bit, where the second one is shifted above the first, is a sum.
pub bit_or-eq-add : (k a b : ℕ) → a < 2 ^ k → bit_or a (b * 2 ^ k) ≡ a + b * 2 ^ k
bit_or-eq-add zero a b h = let e : a ≡ 0 = omega arith in rw e (omega (arith, zero-bit_or (b * 1)))
bit_or-eq-add (suc k) a b h =
    let e : b * 2 ^ suc k ≡ 2 * (b * 2 ^ k) = omega (arith, ap (λ (t : ℕ). b * t) (pow-suc 2 k)) in
    let d : b * 2 ^ suc k / 2 ≡ b * 2 ^ k = omega arith in
    let ih = bit_or-eq-add k (a / 2) b (omega (arith, pow-suc 2 k)) in
    omega (arith, bit_or_step a (b * 2 ^ suc k), ap (bit_or (a / 2)) d)

-- The low bits of a word.
pub bit_at-mod : (k a i : ℕ) → i < k → bit_at (a % 2 ^ k) i ≡ bit_at a i
bit_at-mod k a i lt =
    let small : a % 2 ^ k < 2 ^ k = mod-lt a (one-le-pow k 2 (omega arith)) in
    let whole : bit_or (a % 2 ^ k) (a / 2 ^ k * 2 ^ k) ≡ a =
      bit_or-eq-add k (a % 2 ^ k) (a / 2 ^ k) small ∙ mod-add-div' a (2 ^ k) in
    ground (
      arith,
      bit_at-bit_or (a % 2 ^ k) (a / 2 ^ k * 2 ^ k) i,
      bit_at-shl (a / 2 ^ k) k i,
      ap (λ x. bit_at x i) whole,
    )

-- `x & ((1 << k) - 1)`, on words of 64 bits.
pub bit_and-low : (k x : ℕ) → k < 64 → x < 2 ^ 64 → bit_and x (2 ^ k - 1) ≡ x % 2 ^ k
bit_and-low k x lt h =
    let top : 2 ^ k < 2 ^ 64 = two_pow-lt k 64 lt in
    let one : 1 ≤ 2 ^ k = one-le-pow k 2 (omega arith) in
    let low : x % 2 ^ k < 2 ^ k = mod-lt x one in
    eq_of_bits 64 (bit_and x (2 ^ k - 1)) (x % 2 ^ k) (bit_and-lt 64 x (2 ^ k - 1) h) (omega arith)
      (λ i li.
        bit_at-bit_and x (2 ^ k - 1) i
        ∙ ground (
          arith,
          bit_at-ones k i,
          bit_at-mod k x i,
          bit_at-eq-zero k (x % 2 ^ k) i low,
          bit_at-le-one x i,
        ))

-- `|` is symmetric, on words of a width.
pub bit_or_comm : (w a b : ℕ) → a < 2 ^ w → b < 2 ^ w → bit_or a b ≡ bit_or b a
bit_or_comm w a b ha hb =
    eq_of_bits w (bit_or a b) (bit_or b a) (bit_or-lt w a b ha hb) (bit_or-lt w b a hb ha)
      (λ i lt. omega (arith, bit_at-bit_or a b i, bit_at-bit_or b a i))
