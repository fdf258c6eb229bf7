-- ===== src/Demos/Bytes.antt =====
-- What `memset` over a whole page leaves at the frame of the page.
use user_level_mmap.Base.{
  ℕ, ◌+◌, ◌*◌, ◌/◌, ◌%◌, ◌^◌, ◌<◌, ◌≡◌, ◌≢◌, ◌∙◌, ap, refl, true, some, arith,
}
use mathlib.Core.Path.{subst}
use user_level_mmap.Ptedit.Entry.{get_pfn, set_pfn}
use user_level_mmap.Ptedit.Entry.Laws.{set_pfn-lt, bit_at-set_pfn, entry_get_bit-eq}
use user_level_mmap.Ptedit.Interface.{Implementation, IsImplementation}
use user_level_mmap.Mmap.Fault.{translate, readable}
use user_level_mmap.Mmap.Fault.Install.{place-eq}
use user_level_mmap.Mmap.Fault.Fill.{store_bytes-at, store_bytes-out}
use user_level_mmap.Demos.{Memory, load, memset}

module _ (impl : Implementation) (laws : IsImplementation impl) (mem : Memory impl)
    (address value : ℕ) (mapped : laws.Mapped 0 address mem.tables)
    (aligned : address % 4096 ≡ 0) where
  -- The frame of the page.
  abbrev pub frame : ℕ
  frame = get_pfn (impl.resolve address 0 mem.tables).pte

  pub translate-page :
      (k : ℕ) → k < 4096 → translate impl mem.tables (address + k) ≡ frame * 4096 + k
  translate-page k lt =
      let start : address / 4096 * 4096 ≡ address = omega arith in
      subst (λ a. translate impl mem.tables (a + k) ≡ frame * 4096 + k) start
        (place-eq impl laws address k mem.tables mapped lt)

  pub memset-at :
      (k : ℕ) → k < 4096 → (memset impl address value 4096 mem).bytes (frame * 4096 + k) ≡ value
  unfolding memset
  memset-at k lt = rw (← translate-page k lt) (
      store_bytes-at 4096 (λ j. translate impl mem.tables (address + j)) (λ j. value) mem.bytes k
        (λ a b la lb e. omega (arith, e, translate-page a la, translate-page b lb)) lt)

  -- Pages of other frames keep their bytes.
  pub memset-out :
      (other k : ℕ)
      → other ≢ frame
      → k < 4096
      → (memset impl address value 4096 mem).bytes (other * 4096 + k) ≡ mem.bytes (other * 4096 + k)
  unfolding memset
  memset-out other k ne lt =
      store_bytes-out 4096 (λ j. translate impl mem.tables (address + j)) (λ j. value) mem.bytes
        (other * 4096 + k) (λ j lj e. ne (omega (arith, e, translate-page j lj)))

-- Where an access to the start of a page goes.
pub translate-start :
    (impl : Implementation) (laws : IsImplementation impl) (address : ℕ) (s : impl.State)
    → laws.Mapped 0 address s
    → address % 4096 ≡ 0
    → translate impl s address ≡ get_pfn (impl.resolve address 0 s).pte * 4096 + 0
unfolding translate
translate-start impl laws address s mapped aligned = rw aligned refl

-- A frame number that is changed leaves the page readable or not as it was.
pub readable-set_pfn :
    (pte frame : ℕ) → pte < 2 ^ 64 → frame < 2 ^ 40 → readable (set_pfn pte frame) ≡ readable pte
readable-set_pfn pte frame hp hf =
    let small = set_pfn-lt pte frame hp in
    ground (
      arith,
      entry_get_bit-eq (set_pfn pte frame) 0 small,
      entry_get_bit-eq (set_pfn pte frame) 2 small,
      entry_get_bit-eq pte 0 hp,
      entry_get_bit-eq pte 2 hp,
      bit_at-set_pfn pte frame 0 hp hf (omega arith),
      bit_at-set_pfn pte frame 2 hp hf (omega arith),
    )

-- A load from the start of a page whose PTE is readable.
pub load-start :
    (impl : Implementation) (laws : IsImplementation impl) (address x : ℕ) (mem : Memory impl)
    → laws.Mapped 0 address mem.tables
    → address % 4096 ≡ 0
    → readable (impl.resolve address 0 mem.tables).pte ≡ true
    → mem.bytes (get_pfn (impl.resolve address 0 mem.tables).pte * 4096 + 0) ≡ x
    → load impl mem address ≡ some x
load-start impl laws address x mem mapped aligned on e =
    simp on
      (ap some (ap mem.bytes (translate-start impl laws address mem.tables mapped aligned) ∙ e))
