-- ===== src/Demos/Example.antt =====
-- PTEditor/example.c: a page is mapped to the frame of another one and back, and its old and new
-- frames are read and written by their numbers.
pub mod Remap
use user_level_mmap.Base.{ℕ, ◌*◌, Bool, Option, none, some, List, [], ◌∷◌, ◌==◌, if◌then◌else◌}
use user_level_mmap.Ptedit.Entry.{Entry, u64, set_pfn, get_pfn}
use user_level_mmap.Ptedit.Interface.{Implementation}
use user_level_mmap.Ptedit.PteOps.{with_pte, pte_get_pfn, pte_set_pfn}
use user_level_mmap.Ptedit.Access.{read_physical_page, write_physical_page}
use user_level_mmap.Demos.{Memory, load, memset, PhysMapping, pmap, shown_at}

-- How `main` ends: without PTEditor, by `goto error`, by an access that faults, as behind
-- MAP_FAILED, or with the outcomes of its checks, in order.
pub data ExampleEnd (impl : Implementation) : Type 0 where
  not_initialized unresolved killed : ExampleEnd impl
  done : (checks : List Bool) → Memory impl → ExampleEnd impl

-- What the system replies: the two addresses from `mmap`, the descriptor of /proc/umem, and whether
-- `pread` and `pwrite` fail, and whether the `mmap` of /proc/umem in `ptedit_pmap` succeeds.
pub record ExampleReplies : Type 0 where
  pub init_failed : Bool
  pub address : ℕ
  pub target : ℕ
  pub umem : Option ℕ
  pub read_failed : Bool
  pub write_failed : Bool
  pub granted : Bool

module _ (impl : Implementation) (r : ExampleReplies) where
  open impl use {resolve, update}
  open r use {init_failed, address, target, umem, read_failed, write_failed, granted}

  -- Both pages are filled.
  unfoldable pub fill_pages : Memory impl → Memory impl
  fill_pages mem = memset impl target b'B' 4096 (memset impl address b'A' 4096 mem)

  -- `ptedit_update(address, 0, &vm)` with the frame of `target`.
  unfoldable pub remap : (vm : Entry) (target_pfn : ℕ) → Memory impl → Memory impl
  remap vm target_pfn mem = record mem {
    tables = update address 0 (with_pte vm (set_pfn vm.pte target_pfn)) mem.tables;
  }

  -- The page of `target` is overwritten by its frame number.
  unfoldable pub write_target : (target_pfn : ℕ) → Memory impl → Memory impl
  write_target target_pfn mem = record mem {
    bytes = write_physical_page umem write_failed 4096 target_pfn (λ i. b'C') mem.bytes;
  }

  unfoldable pub reset : (address_pfn : ℕ) → Memory impl → Memory impl
  reset address_pfn mem = record mem { tables = pte_set_pfn impl address 0 address_pfn mem.tables }

  -- The program goes on with what a load reads, if it reads.
  abbrev pub with_byte : Option ℕ → (ℕ → ExampleEnd impl) → ExampleEnd impl
  with_byte none go = killed
  with_byte (some byte) go = go byte

  -- The program goes on with the pointer from `ptedit_pmap`, if that is not MAP_FAILED.
  abbrev pub with_map : Option PhysMapping → (PhysMapping → ExampleEnd impl) → ExampleEnd impl
  with_map none go = killed
  with_map (some m) go = go m

  -- The checks of the program; `page` is the array before the page is read into it.
  unfoldable pub checks : (page : ℕ → ℕ) → Memory impl → ExampleEnd impl
  checks page mem =
      let vm = resolve address 0 mem.tables in
      let address_pfn = get_pfn vm.pte in
      let filled = fill_pages mem in
      let target_pfn = pte_get_pfn impl target 0 filled.tables in
      let remapped = remap vm target_pfn filled in
      let page' = read_physical_page umem read_failed 4096 address_pfn remapped.bytes page in
      let written = write_target target_pfn remapped in
      with_byte (load impl filled address) (λ first.
        with_byte (load impl remapped address) (λ second.
          with_map (pmap umem granted 4096 (u64 (address_pfn * 4096)) 4096) (λ new_addr.
            with_byte (load impl written address) (λ last.
              done
                ((first == b'A')
                  ∷ (second == b'B')
                  ∷ (page' 0 == b'A')
                  ∷ (remapped.bytes (shown_at new_addr 0) == b'A')
                  ∷ (last == b'C')
                  ∷ [])
                (reset address_pfn written)))))

  pub example : (page : ℕ → ℕ) → Memory impl → ExampleEnd impl
  example page mem =
      let rest : ExampleEnd impl =
        if (resolve address 0 mem.tables).pgd == 0 then unresolved else checks page mem in
      if init_failed then not_initialized else rest
