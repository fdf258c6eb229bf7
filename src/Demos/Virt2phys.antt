-- ===== src/Demos/Virt2phys.antt =====
-- PTEditor/demos/virt2phys.c: the physical address of a variable.
use user_level_mmap.Base.{
  ℕ, ◌+◌, ◌*◌, ◌%◌, ◌^◌, ◌<◌, ◌≡◌, arith, bit_and, bit_or, Bool-cases, inl, inr, if◌then◌else◌,
}
use user_level_mmap.Base.Bits.{bit_and-low, bit_or-eq-add, bit_or_comm, two_pow-lt}
use native.Mathlib.Nat.{mod-eq_of_lt, lt_trans}
use user_level_mmap.Ptedit.Entry.{Entry, u64, get_pfn}
use user_level_mmap.Ptedit.Entry.Laws.{get_pfn-lt}
use user_level_mmap.Ptedit.Interface.{Implementation, IsImplementation}
use user_level_mmap.Mmap.Fault.{translate}
use user_level_mmap.Demos.Memmap.{is_normal_page}

-- `phys`, from the entry for the address; `entry.pd` is the PMD.
pub phys : (address : ℕ) → Entry → ℕ
phys address entry =
    if is_normal_page entry.pmd
    then bit_or (u64 (get_pfn entry.pte * 2 ^ 12)) (bit_and address 0xfff)
    else bit_or (u64 (get_pfn entry.pmd * 2 ^ 21)) (bit_and address 0x1fffff)

-- `(frame << k) | low` for a frame of 40 bits.
joined :
    (k frame low : ℕ)
    → k < 24
    → frame < 2 ^ 40
    → low < 2 ^ k
    → frame * 2 ^ k < 2 ^ 64
    → bit_or (u64 (frame * 2 ^ k)) low ≡ frame * 2 ^ k + low
joined k frame low hk hf hl whole =
    let small : low < 2 ^ 64 = lt_trans hl (two_pow-lt k 64 (omega arith)) in
    let e : u64 (frame * 2 ^ k) ≡ frame * 2 ^ k = mod-eq_of_lt whole in
    rw (e, bit_or_comm 64 (frame * 2 ^ k) low whole small, bit_or-eq-add k low frame hl)
      (omega arith)

-- For an address with a PTE, the program prints: below a PMD entry that maps no large page, the
-- address in physical memory that an access goes to; below one that does, the frame number of that
-- entry times 2 MiB, and the offset in the large page.
pub phys-translate :
    (impl : Implementation) (laws : IsImplementation impl) (address : ℕ) (s : impl.State)
    → laws.Mapped 0 address s
    → address < 2 ^ 64
    → (impl.resolve address 0 s).pmd < 2 ^ 64
    → phys address (impl.resolve address 0 s) ≡ (
        if is_normal_page (impl.resolve address 0 s).pmd
        then translate impl s address
        else get_pfn (impl.resolve address 0 s).pmd * 2 ^ 21 + address % 2 ^ 21)
unfolding phys translate
phys-translate impl laws address s mapped small word =
    let entry = impl.resolve address 0 s in
    let lt : get_pfn entry.pte < 2 ^ 40 = get_pfn-lt _ (laws.resolve_lt 0 address s mapped) in
    let lt' : get_pfn entry.pmd < 2 ^ 40 = get_pfn-lt _ word in
    elim (Bool-cases (is_normal_page entry.pmd)) [
      | inl normal ↦
          rw (normal, bit_and-low 12 address (omega arith) small)
            (joined 12 (get_pfn entry.pte) (address % 2 ^ 12) (omega arith) lt (omega arith)
              (omega arith))
      | inr large ↦
          rw (large, bit_and-low 21 address (omega arith) small)
            (joined 21 (get_pfn entry.pmd) (address % 2 ^ 21) (omega arith) lt' (omega arith)
              (omega arith))
    ]
