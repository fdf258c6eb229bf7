-- ===== src/Demos/Example/Remap.antt =====
-- What the checks of example.c see.
use user_level_mmap.Base.{
  ℕ, ◌+◌, ◌*◌, ◌/◌, ◌%◌, some, ◌^◌, ◌<◌, ◌≡◌, ◌≢◌, refl, ◌∙◌, ap, arith, true, false, eq→==, ne→==,
  [], ◌∷◌,
}
use user_level_mmap.Ptedit.Entry.{u64, set_pfn, get_pfn}
use user_level_mmap.Ptedit.Entry.Laws.{get_pfn-set_pfn, get_pfn-lt, set_pfn-lt}
use user_level_mmap.Ptedit.Interface.{Implementation, IsImplementation}
use user_level_mmap.Ptedit.PteOps.{with_pte, pte_get_pfn}
use user_level_mmap.Ptedit.PteOps.Laws.{resolve-pte_set_pfn, pte_set_pfn-Mapped}
use user_level_mmap.Ptedit.Access.{store_page, page_at, read_physical_page}
use user_level_mmap.Ptedit.Access.Pages.{written, read_eq}
use user_level_mmap.Mmap.Fault.Install.{pte_get_pfn-eq}
use user_level_mmap.Mmap.Fault.{readable}
use user_level_mmap.Demos.{Memory, load, memset, PhysMapping, pmap, shown_at}
use user_level_mmap.Demos.Bytes.{memset-at, memset-out, readable-set_pfn, load-start}
use user_level_mmap.Demos.Example.{
  ExampleReplies, done, fill_pages, remap, write_target, reset, checks, example,
}

-- The calls of the system succeed, among them the `open` and the `mmap` of /proc/umem, and the two
-- pages are page-aligned.
pub record IsGranted (r : ExampleReplies) : Type 0 where
  pub initialized : r.init_failed ≡ false
  pub read : r.read_failed ≡ false
  pub written : r.write_failed ≡ false
  pub fd : ℕ
  pub opened : r.umem ≡ some fd
  pub granted : r.granted ≡ true
  pub page : r.address % 4096 ≡ 0
  pub page' : r.target % 4096 ≡ 0

module _ (impl : Implementation) (laws : IsImplementation impl) (r : ExampleReplies)
    (mem : Memory impl) (ok : IsGranted r) (mapped : laws.Mapped 0 r.address mem.tables)
    (mapped' : laws.Mapped 0 r.target mem.tables)
    (differ : get_pfn (impl.resolve r.address 0 mem.tables).pte
      ≢ get_pfn (impl.resolve r.target 0 mem.tables).pte)
    (seen : readable (impl.resolve r.address 0 mem.tables).pte ≡ true) where
  open impl use {resolve, update}
  open r use {address, target}

  abbrev pte : ℕ
  pte = (resolve address 0 mem.tables).pte

  abbrev address_pfn : ℕ
  address_pfn = get_pfn pte

  abbrev target_pfn : ℕ
  target_pfn = get_pfn (resolve target 0 mem.tables).pte

  pte-lt : pte < 2 ^ 64
  pte-lt = laws.resolve_lt 0 address mem.tables mapped

  address_pfn-lt : address_pfn < 2 ^ 40
  address_pfn-lt = get_pfn-lt pte pte-lt

  target_pfn-lt : target_pfn < 2 ^ 40
  target_pfn-lt = get_pfn-lt _ (laws.resolve_lt 0 target mem.tables mapped')

  abbrev filled : Memory impl
  filled = fill_pages impl r mem

  filled-address : filled.bytes (address_pfn * 4096 + 0) ≡ b'A'
  unfolding fill_pages memset
  filled-address =
      memset-out impl laws (memset impl address b'A' 4096 mem) target b'B' mapped' ok.page'
        address_pfn 0 differ (omega arith)
      ∙ memset-at impl laws mem address b'A' mapped ok.page 0 (omega arith)

  filled-target : filled.bytes (target_pfn * 4096 + 0) ≡ b'B'
  unfolding fill_pages memset
  filled-target =
      memset-at impl laws (memset impl address b'A' 4096 mem) target b'B' mapped' ok.page' 0
        (omega arith)

  abbrev remapped : Memory impl
  remapped = remap impl r (resolve address 0 mem.tables) target_pfn filled

  remapped-Mapped : laws.Mapped 0 address remapped.tables
  unfolding remap fill_pages memset
  remapped-Mapped =
      laws.update_Mapped 0 address
        (with_pte (resolve address 0 mem.tables) (set_pfn pte target_pfn)) mem.tables refl
        (set_pfn-lt pte target_pfn pte-lt) mapped

  remapped-pte : (resolve address 0 remapped.tables).pte ≡ set_pfn pte target_pfn
  unfolding remap fill_pages memset
  remapped-pte =
      laws.resolve_update 0 address
        (with_pte (resolve address 0 mem.tables) (set_pfn pte target_pfn)) mem.tables refl
        (set_pfn-lt pte target_pfn pte-lt) mapped

  remapped-readable : readable (resolve address 0 remapped.tables).pte ≡ true
  remapped-readable =
      ap readable remapped-pte ∙ readable-set_pfn pte target_pfn pte-lt target_pfn-lt ∙ seen

  -- After the update the address leads to the frame of the target.
  load-remapped :
      (bytes : ℕ → ℕ) (x : ℕ)
      → bytes (target_pfn * 4096 + 0) ≡ x
      → load impl (record remapped { bytes = bytes }) address ≡ some x
  load-remapped bytes x e =
      load-start impl laws address x (record remapped { bytes = bytes }) remapped-Mapped ok.page
        remapped-readable
        (ap (λ (f : ℕ). bytes (f * 4096 + 0))
            (ap get_pfn remapped-pte ∙ get_pfn-set_pfn pte target_pfn pte-lt target_pfn-lt)
          ∙ e)

  abbrev overwritten : Memory impl
  overwritten = write_target impl r target_pfn remapped

  overwritten-bytes :
      overwritten.bytes ≡ store_page (page_at target_pfn 4096) 4096 (λ i. b'C') remapped.bytes
  unfolding write_target
  overwritten-bytes = simp ok.written (written r.umem 4096 target_pfn (λ i. b'C') remapped.bytes)

  load-overwritten : load impl overwritten address ≡ some b'C'
  unfolding write_target
  load-overwritten =
      load-remapped overwritten.bytes b'C'
        (ap (λ b. b (target_pfn * 4096 + 0)) overwritten-bytes ∙ ground (arith, target_pfn-lt))

  -- The old frame is not touched by the write to the frame of the target.
  old_frame : overwritten.bytes (address_pfn * 4096 + 0) ≡ b'A'
  unfolding remap
  old_frame =
      ap (λ b. b (address_pfn * 4096 + 0)) overwritten-bytes
      ∙ ground (arith, target_pfn-lt, filled-address, ne→== address_pfn target_pfn differ)

  abbrev final : Memory impl
  final = reset impl r address_pfn overwritten

  load-final : load impl final address ≡ some b'A'
  unfolding reset write_target
  load-final =
      let word = (resolve address 0 remapped.tables).pte in
      let small = laws.resolve_lt 0 address remapped.tables remapped-Mapped in
      let back =
        resolve-pte_set_pfn impl laws 0 address remapped.tables remapped-Mapped address_pfn in
      load-start impl laws address b'A' final
        (pte_set_pfn-Mapped impl laws 0 address remapped.tables remapped-Mapped address_pfn) ok.page
        (ap readable back
          ∙ readable-set_pfn word address_pfn small address_pfn-lt
          ∙ remapped-readable)
        (ap (λ (f : ℕ). overwritten.bytes (f * 4096 + 0))
            (ap get_pfn back ∙ get_pfn-set_pfn word address_pfn small address_pfn-lt)
          ∙ old_frame)

  read-page :
      (page : ℕ → ℕ)
      → read_physical_page r.umem r.read_failed 4096 address_pfn remapped.bytes page 0 ≡ b'A'
  unfolding remap
  read-page page = simp ok.read (
      ap (λ f. f 0) (read_eq r.umem 4096 address_pfn filled.bytes page)
      ∙ ap filled.bytes {x = page_at address_pfn 4096 + 0} {y = address_pfn * 4096 + 0}
          (omega (arith, address_pfn-lt))
      ∙ filled-address)

  -- The mapping that `ptedit_pmap` makes of the old frame.
  abbrev old_frame_map : PhysMapping
  old_frame_map = record {
    offset = u64 (address_pfn * 4096) / 4096 * 4096;
    length = 4096 + u64 (address_pfn * 4096) % 4096;
    skip = u64 (address_pfn * 4096) % 4096;
  }

  pmap-some : pmap r.umem r.granted 4096 (u64 (address_pfn * 4096)) 4096 ≡ some old_frame_map
  pmap-some = simp (ok.opened, ok.granted)

  new_addr : remapped.bytes (shown_at old_frame_map 0) ≡ b'A'
  unfolding remap
  new_addr =
      ap filled.bytes {y = address_pfn * 4096 + 0} (omega (arith, address_pfn-lt)) ∙ filled-address

  load-filled : load impl filled address ≡ some b'A'
  unfolding fill_pages memset
  load-filled = load-start impl laws address b'A' filled mapped ok.page seen filled-address

  target_pfn-eq : pte_get_pfn impl target 0 filled.tables ≡ target_pfn
  unfolding fill_pages memset
  target_pfn-eq = pte_get_pfn-eq impl laws target mem.tables mapped'

  load-second : load impl remapped address ≡ some b'B'
  unfolding remap
  load-second = load-remapped remapped.bytes b'B' filled-target

  checks-done :
      (page : ℕ → ℕ) → checks impl r page mem ≡ done (true ∷ true ∷ true ∷ true ∷ true ∷ []) final
  unfolding checks
  checks-done page = simp (
    target_pfn-eq,
    load-filled,
    load-second,
    pmap-some,
    load-overwritten,
    eq→== _ _ (read-page page),
    eq→== _ _ new_addr,
  )

  -- Given two pages from `mmap` with PTEs and frames of their own, that of the address readable by the
  -- program, and calls that succeed, the `open` and the `mmap` of /proc/umem among them: all five
  -- checks of the example succeed, and at its end the address reads as its own page again.
  pub example-done :
      (page : ℕ → ℕ)
      → (resolve address 0 mem.tables).pgd ≢ 0
      → (m : Memory impl) × (example impl r page mem
          ≡ done (true ∷ true ∷ true ∷ true ∷ true ∷ []) m)
        × (load impl m address ≡ some b'A')
  unfolding example
  example-done page real =
      (final, simp (ok.initialized, ne→== _ 0 real, checks-done page), load-final)
