-- ===== src/Demos.antt =====
-- Programs under PTEditor that use PTEditor on x86_64, and the memory that they see.
pub mod Memmap
pub mod Bytes
pub mod MapPt
pub mod Virt2phys
pub mod Example
pub mod Nx
pub mod Uncachable
mod Tests
use user_level_mmap.Base.{ℕ, ◌+◌, ◌*◌, ◌/◌, ◌%◌, Bool, Option, none, some, if◌then◌else◌}
use user_level_mmap.Ptedit.Interface.{Implementation}
use user_level_mmap.Mmap.Fault.{translate, readable, store_bytes}

module _ (impl : Implementation) where
  open impl use {State}

  -- The page tables and the bytes of physical memory.
  pub record Memory : Type 0 where
    pub tables : State
    pub bytes : ℕ → ℕ

  -- `*(char*)address`: `none` where the processor raises a fault that ends the program, by the PTE.
  abbrev pub load : Memory → ℕ → Option ℕ
  load mem address =
      if readable (impl.resolve address 0 mem.tables).pte
      then some (mem.bytes (translate impl mem.tables address))
      else none

  -- `memset`, on the tables as the stores leave them behind: the kernel lets the stores through.
  unfoldable pub memset : (address value n : ℕ) → Memory → Memory
  memset address value n mem = record mem {
    bytes = store_bytes n (λ k. translate impl mem.tables (address + k)) (λ k. value) mem.bytes;
  }

-- The physical memory behind the pointer that `ptedit_pmap` returns: what `mmap` maps of
-- /proc/umem, and how far the pointer is from its start.
pub record PhysMapping : Type 0 where
  pub offset : ℕ
  pub length : ℕ
  pub skip : ℕ

-- `none` is MAP_FAILED: `mmap` fails without a descriptor (-1), and may fail with one.
abbrev pub pmap :
    (umem : Option ℕ) (granted : Bool) (pagesize physical length : ℕ) → Option PhysMapping
pmap none granted pagesize physical length = none
pmap (some fd) granted pagesize physical length =
    if granted
    then some (record {
      offset = physical / pagesize * pagesize;
      length = length + physical % pagesize;
      skip = physical % pagesize;
    })
    else none

-- The physical address of byte `k` behind the pointer.
abbrev pub shown_at : PhysMapping → ℕ → ℕ
shown_at pt k = pt.offset + pt.skip + k
