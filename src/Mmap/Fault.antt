-- ===== src/Mmap/Fault.antt =====
-- `page_fault_handler` of src/user_level_mmap.cc, one event of the userfaultfd at a time. The page
-- tables are reached through PTEditor's interface; `pte_get_pfn`, `set_pfn` and `entry_set_bit`
-- are the calls of its functions on top of that.
pub mod Fill
pub mod Pte
pub mod Install
pub mod Loop
pub mod Batch
pub mod Rounds
pub mod Sequence
pub mod Regions
pub mod Fixture
pub mod Shared
mod Tests
use user_level_mmap.Base.{
  ℕ, zero, suc, ◌+◌, ◌-◌, ◌*◌, ◌/◌, ◌%◌, ◌^◌, ◌≡◌, bit_and, Bool, true, false, ◌&&◌, Option, none,
  some, List, [], ◌∷◌, ◌==◌, if◌then◌else◌, update,
}
use user_level_mmap.Ptedit.Entry.{
  u64, not64, Entry, valid_mask_pte, page_bit_present, page_bit_rw, page_bit_user, set_pfn, get_pfn,
  entry_set_bit, entry_get_bit,
}
use user_level_mmap.Ptedit.Interface.{Implementation}
use user_level_mmap.Ptedit.PteOps.{with_pte, pte_get_pfn}

-- PAGE_SIZE, as `sysconf` gives it on x86_64 Linux.
abbrev pub page_size : ℕ
page_size = 4096

-- `struct PFhandle_args` without its thread; no `fd` is the -1 of the code. `fault_cnt` is an
-- `int` that counts faults, taken to stay within its range.
pub record PfhandleArgs : Type 0 where
  pub uffd : ℕ
  pub fd : Option ℕ
  pub offset : ℕ
  pub base_addr : ℕ
  pub finish : Bool
  pub fault_cnt : ℕ

-- What the calls of one round return: `poll` and the ioctl may fail, `read` gives -1 (`none`) or a
-- count, `malloc` an address, and `pread` the count of bytes that it read.
pub record Event : Type 0 where
  pub poll_failed : Bool
  pub nread : Option ℕ
  pub is_pagefault : Bool
  pub address : ℕ
  pub given_page : ℕ
  pub bytes_read : ℕ
  pub wake_failed : Bool

-- How a round ends: with the next one, or with the end of the process.
pub data Round {ℓ} (A : Type ℓ) : Type ℓ where
  next : A → Round A
  exit_failure assert_failed : Round A

module _ (impl : Implementation) where
  open impl use {State, resolve, update as update_vm}

  -- The page tables, the bytes of physical memory, and the ranges that were woken. The tables are
  -- those that the stores to the page from `malloc` left behind, which give that page its PTE.
  pub record Process : Type 0 where
    pub tables : State
    pub bytes : ℕ → ℕ
    pub woken : List (ℕ × ℕ)

  -- The place in physical memory that the PTE of a virtual address leads to.
  unfoldable pub translate : State → ℕ → ℕ
  translate tables addr = get_pfn (resolve addr 0 tables).pte * page_size + addr % page_size

-- Whether the word of a PTE lets the program read, and whether it lets it write: the entry is present,
-- open to user space and, for writing, writable.
abbrev pub readable : ℕ → Bool
readable word = entry_get_bit word page_bit_present && entry_get_bit word page_bit_user

abbrev pub writable : ℕ → Bool
writable word = readable word && entry_get_bit word page_bit_rw

module _ (impl : Implementation) where
  open impl use {State, resolve, update as update_vm}

  -- A read of the program: `none` where the processor raises a fault instead, by the word of the PTE.
  unfoldable pub read : Process impl → ℕ → Option ℕ
  read p addr =
      if readable (resolve addr 0 p.tables).pte
      then some (p.bytes (translate impl p.tables addr))
      else none

  -- Whether a write of the program goes through, by the word of the PTE.
  unfoldable pub may_write : Process impl → ℕ → Bool
  may_write p addr = writable (resolve addr 0 p.tables).pte

  -- The program reads the value at the address and may write there.
  abbrev pub ReadsAs : Process impl → (addr value : ℕ) → Type 0
  ReadsAs p addr value = (read p addr ≡ some value) × (may_write p addr ≡ true)

-- Stores of `content 0`, ..., `content (n - 1)` at `place 0`, ..., `place (n - 1)`.
pub store_bytes : (n : ℕ) → (place content : ℕ → ℕ) → (ℕ → ℕ) → ℕ → ℕ
store_bytes zero place content bytes = bytes
store_bytes (suc n) place content bytes =
    update (store_bytes n place content bytes) (place n) (content n)

-- What is put into the new page: a letter that varies with the count of faults, or the bytes of
-- the file from the place that the fault has in the region.
unfoldable pub page_content : (file : (fd position : ℕ) → ℕ) → PfhandleArgs → Event → ℕ → ℕ
page_content file args ev k = elim args.fd [
  | none ↦ (b'A' + args.fault_cnt % 26) % 256
  | some fd ↦ file fd (u64 (args.offset + u64 (ev.address + 2 ^ 64 - args.base_addr)) + k)
]

-- `assert(bytes_read == PAGE_SIZE)`, where a file was read.
unfoldable pub fill_ok : PfhandleArgs → Event → Bool
fill_ok args ev = elim args.fd [ none ↦ true | some fd ↦ ev.bytes_read == page_size ]

-- The word that the handler writes into the PTE of the fault address.
pub fault_pte : (pte frame : ℕ) → ℕ
fault_pte pte frame =
    entry_set_bit (entry_set_bit (entry_set_bit (set_pfn pte frame) page_bit_present) page_bit_rw)
      page_bit_user

-- The page that holds the fault address.
unfoldable pub wake_range : Event → ℕ × ℕ
wake_range ev = (bit_and ev.address (not64 (page_size - 1)), page_size)

module _ (impl : Implementation) where
  open impl use {State, resolve, update as update_vm}

  -- From the filled page on: the frame of the page goes into the PTE of the fault address.
  unfoldable pub install_page : Event → Process impl → Process impl
  install_page ev p =
      let given_page_pfn = pte_get_pfn impl ev.given_page 0 p.tables in
      let vm = resolve ev.address 0 p.tables in
      record p {
        tables = update_vm ev.address 0 (with_pte vm (fault_pte vm.pte given_page_pfn)) p.tables;
      }

module _ (impl : Implementation) (file : (fd position : ℕ) → ℕ) where
  pub fill_page : PfhandleArgs → Event → Process impl → Process impl
  fill_page args ev p = record p {
    bytes =
        store_bytes page_size (λ k. translate impl p.tables (ev.given_page + k))
          (page_content file args ev) p.bytes;
  }

  -- One round of the `for (;;)`.
  pub handle_event : PfhandleArgs → Event → Process impl → Round (PfhandleArgs × Process impl)
  handle_event args ev p =
      let installed = install_page impl ev (fill_page args ev p) in
      let args' = record args { fault_cnt = args.fault_cnt + 1 } in
      let served =
        if ev.wake_failed
        then exit_failure
        else next (args', record installed { woken = wake_range ev ∷ installed.woken }) in
      if ev.poll_failed then exit_failure else elim ev.nread [
        | none ↦ exit_failure
        | some n ↦
            if n == 0
            then exit_failure
            else (if ev.is_pagefault
                then (if ev.given_page == 0
                    then assert_failed
                    else (if fill_ok args ev then served else assert_failed))
                else exit_failure)
      ]

-- Where the handler is after the events it was sent: waiting in `poll` for the next one, back from
-- the function, or gone with the process.
pub data HandlerEnd {ℓ} (A : Type ℓ) : Type ℓ where
  waiting returned : A → HandlerEnd A
  exited aborted : HandlerEnd A

module _ (impl : Implementation) (file : (fd position : ℕ) → ℕ) where
  -- The `for (;;)` over the events that arrive.
  pub handler_loop :
      PfhandleArgs → List Event → Process impl → HandlerEnd (PfhandleArgs × Process impl)
  handler_loop args [] p = waiting (args, p)
  handler_loop args (ev ∷ evs) p = elim (handle_event impl file args ev p) [
    | next (args', p') ↦ handler_loop args' evs p'
    | exit_failure ↦ exited
    | assert_failed ↦ aborted
  ]
