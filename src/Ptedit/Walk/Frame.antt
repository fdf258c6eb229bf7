-- ===== src/Ptedit/Walk/Frame.antt =====
-- The frame numbers that the resolution follows, and the root that it starts from.
use user_level_mmap.Base.{ℕ, ◌/◌, ◌%◌, ◌^◌, ◌<◌, ◌≡◌, ◌∙◌, arith, ◌==◌, Bool-cases, inl, inr}
use user_level_mmap.Base.Bits.{
  bit_at-bit_and, bit_at-shr, eq_of_bits, bit_at-complement, bit_at-one, bit_and-lt, bit_at-le-one,
  bit_at-mod,
}
use user_level_mmap.Ptedit.Entry.{not64, pfn, get_pfn}
use user_level_mmap.Ptedit.Entry.Laws.{bit_at-get_pfn, get_pfn-lt}
use user_level_mmap.Ptedit.Walk.{clean_root}

-- The frame number is the field of 40 bits from bit 12 on.
get_pfn-eq : (e : ℕ) → e < 2 ^ 64 → get_pfn e ≡ e / 2 ^ 12 % 2 ^ 40
get_pfn-eq e h =
    eq_of_bits 40 (get_pfn e) (e / 2 ^ 12 % 2 ^ 40) (get_pfn-lt e h) (omega arith) (λ i lt.
      bit_at-get_pfn e i ∙ ground (arith, bit_at-mod 40 (e / 2 ^ 12) i lt, bit_at-shr e 12 i))

-- A frame number of 28 bits is the field that `ptedit_resolve` follows.
pub get_pfn-pfn : (e : ℕ) → e < 2 ^ 64 → get_pfn e < 2 ^ 28 → get_pfn e ≡ pfn e
get_pfn-pfn e h narrow = omega (arith, get_pfn-eq e h)

-- A root on a page boundary has no flag to be cleared.
pub clean_root-eq : (root : ℕ) → root < 2 ^ 64 → root % 4096 ≡ 0 → clean_root root ≡ root
clean_root-eq root h aligned =
    eq_of_bits 64 (clean_root root) root (bit_and-lt 64 root (not64 1) h) h (λ i lt.
      elim (Bool-cases (i == 0)) [
        | inl first ↦
            let e : i ≡ 0 = ground arith in
            rw e (omega (arith, bit_at-bit_and root (not64 1) 0, bit_at-complement 64 1 0))
        | inr other ↦ ground (
          arith,
          bit_at-bit_and root (not64 1) i,
          bit_at-complement 64 1 i (omega arith) lt,
          bit_at-one i,
          bit_at-le-one root i,
        )
      ])
