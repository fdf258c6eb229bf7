-- ===== src/Mmap/Region/Reads.antt =====
-- From `ul_mmap` to the bytes that a program reads in the region: a region of a file shows the file.
use user_level_mmap.Base.{ℕ, ◌+◌, ◌-◌, ◌/◌, ◌%◌, ◌^◌, ◌≤◌, ◌<◌, ◌≡◌, some}
use user_level_mmap.Ptedit.Interface.{Implementation, IsImplementation, IsSeparate}
use user_level_mmap.Mmap.Fault.{page_size, PfhandleArgs, Event, Process, ReadsAs}

-- The fault is at the start of a page at or above `base`, and its position in the file is a
-- number of 64 bits.
abbrev pub InFile : (base offset : ℕ) → Event → Type 0
InFile base offset ev =
    (ev.address % page_size ≡ 0)
    × (base ≤ ev.address)
    × (ev.address < 2 ^ 64)
    × (offset + (ev.address - base) < 2 ^ 64)

module _ (impl : Implementation) (file : (fd position : ℕ) → ℕ) (laws : IsImplementation impl)
    (sep : IsSeparate impl laws) (pages : ℕ → Type 0) where
  -- The program can write to every address in the page of the fault and reads it as the file at the
  -- same distance from `offset` as the address has from `base`.
  abbrev pub Reads : (fd base offset : ℕ) → Process impl → Event → Type 0
  Reads fd base offset q ev =
      (v : ℕ)
      → v / page_size ≡ ev.address / page_size
      → ReadsAs impl q v (file fd (offset + (v - base)))

  -- The arguments of the handler of a region of a file.
  abbrev IsRegion : PfhandleArgs → (fd base offset : ℕ) → Type 0
  IsRegion args fd base offset =
      (args.fd ≡ some fd) × (args.base_addr ≡ base) × (args.offset ≡ offset)
