-- ===== src/Cache.antt =====
-- experiments/neovmcache_vs_vmcache.cc: three ways to find and lock a page of a buffer pool (an
-- array of states, a hash table with tags, a state in the page itself) and the loop that times them.
pub mod State
pub mod Managers
pub mod Timing
pub mod Locking
pub mod DataFile
pub mod Program
mod Tests
use user_level_mmap.Base.{
  ℕ, zero, suc, ◌+◌, ◌-◌, ◌*◌, ◌/◌, ◌%◌, ◌^◌, Bool, true, false, ◌&&◌, ◌||◌, Option, none, some,
  ◌==◌, if◌then◌else◌, update,
}

-- PageSize
abbrev pub page_size : ℕ
page_size = 4096

-- NumPages
abbrev pub num_pages : ℕ
num_pages = 2000

-- A store of one bit to the bit-field at position `k` of a word.
pub set_field : (k bit s : ℕ) → ℕ
set_field k bit s = s / 2 ^ (k + 1) * 2 ^ (k + 1) + bit * 2 ^ k + s % 2 ^ k

-- `class PageState` as its member `all`; the fields lie from bit 0 on.
pub is_evicted : ℕ → Bool
is_evicted s = s % 2 == 1

pub is_marked : ℕ → Bool
is_marked s = s / 2 % 2 == 1

pub is_unlocked : ℕ → Bool
is_unlocked s = s / 4 % 2 == 0

pub set_evicted : ℕ → ℕ
set_evicted s = set_field 2 0 (set_field 1 0 (set_field 0 1 s))

pub set_marked : ℕ → ℕ
set_marked s = set_field 1 1 s

pub unsafe_lock : ℕ → ℕ
unsafe_lock s = set_field 2 1 s

pub set_unlocked : ℕ → ℕ
set_unlocked s = set_field 2 0 s

-- The state with the lock, of a copy.
pub locked_state : ℕ → ℕ
locked_state s = unsafe_lock s

-- `LinearCongruentialGenerator` with its default parameters.
pub record Generator : Type 0 where
  pub a : ℕ
  pub c : ℕ
  pub m : ℕ
  pub current : ℕ

abbrev pub default_generator : Generator
default_generator = record { a = 1664525; c = 1013904223; m = 4294967296; current = 42 }

pub next : Generator → Generator
next g = record g { current = (g.a * g.current + g.c) % 2 ^ 64 % g.m }

-- The global variables: the states, the tags and the table of the hash version, the address of the
-- mapped file, the words of memory by address, and the sum.
pub record Cache : Type 0 where
  pub state : ℕ → ℕ
  pub buf_tags : ℕ → ℕ
  pub buf_table : ℕ → Option ℕ
  pub virt_mem : ℕ
  pub word : ℕ → ℕ
  pub acc : ℕ

-- How a call of a `fix` function ends; `spinning` means that the fuel ran out.
pub data Fix : Type 0 where
  fixed : (vaddr : ℕ) → Cache → Fix
  assert_failed spinning : Fix

-- One round of the loops: the state that was loaded decides. Without another thread the
-- compare-exchange finds the state that was loaded.
abbrev pub decide : (s : ℕ) → (allowed : Bool) → (taken rest : Fix) → Fix
decide s allowed taken rest =
    if is_evicted s then assert_failed else (if allowed then taken else rest)

pub vmcache_fix : (fuel pid : ℕ) → Cache → Fix
vmcache_fix zero pid c = spinning
vmcache_fix (suc fuel) pid c =
    let s = c.state pid in
    let taken =
      fixed ((c.virt_mem + pid * page_size) % 2 ^ 64)
        (record c { state = update c.state pid (locked_state s) }) in
    let rest = vmcache_fix fuel pid c in decide s (is_marked s || is_unlocked s) taken rest

pub vmcache_unfix : (pid vaddr : ℕ) → Cache → Cache
vmcache_unfix pid vaddr c = record c { state = update c.state pid (set_unlocked (c.state pid)) }

-- `(*buf_table)[pid]`, which adds a null pointer for a missing key.
pub hash_fix : (fuel pid : ℕ) → Cache → Fix
hash_fix zero pid c = spinning
hash_fix (suc fuel) pid c =
    let s = c.buf_tags pid in
    let locked = record c { buf_tags = update c.buf_tags pid (locked_state s) } in
    let taken : Fix = elim (c.buf_table pid) [
      | none ↦ fixed 0 (record locked { buf_table = update c.buf_table pid (some 0) })
      | some page ↦ fixed page locked
    ] in
    let rest = hash_fix fuel pid c in decide s (is_marked s || is_unlocked s) taken rest

pub hash_unfix : (pid vaddr : ℕ) → Cache → Cache
hash_unfix pid vaddr c = record c {
  buf_tags = update c.buf_tags pid (set_unlocked (c.buf_tags pid));
}

pub neovmcache_fix : (fuel pid : ℕ) → Cache → Fix
neovmcache_fix zero pid c = spinning
neovmcache_fix (suc fuel) pid c =
    let s_ptr = (c.virt_mem + pid * page_size) % 2 ^ 64 in
    let s = c.word s_ptr in
    let taken = fixed s_ptr (record c { word = update c.word s_ptr (locked_state s) }) in
    let rest = neovmcache_fix fuel pid c in
    decide s ((is_marked s || is_unlocked s) && c.word (s_ptr + 8) == 0) taken rest

pub neovmcache_unfix : (pid vaddr : ℕ) → Cache → Cache
neovmcache_unfix pid vaddr c = record c { word = update c.word vaddr (set_unlocked (c.word vaddr)) }

-- A pair of functions to time.
pub record Manager : Type 0 where
  pub fix : ℕ → Cache → Fix
  pub unfix : (pid vaddr : ℕ) → Cache → Cache

abbrev pub vmcache : ℕ → Manager
vmcache fuel = record { fix = vmcache_fix fuel; unfix = vmcache_unfix }

abbrev pub hash : ℕ → Manager
hash fuel = record { fix = hash_fix fuel; unfix = hash_unfix }

abbrev pub neovmcache : ℕ → Manager
neovmcache fuel = record { fix = neovmcache_fix fuel; unfix = neovmcache_unfix }

-- What happens to the data of the page at an address: its third word is added to the sum and gets
-- the new sum.
pub use_page : (vaddr : ℕ) → Cache → Cache
use_page vaddr c =
    let sum = (c.acc + c.word (vaddr + 16)) % 2 ^ 64 in
    record c { acc = sum; word = update c.word (vaddr + 16) sum }

-- How the loop of `performTest` ends.
pub data TestEnd : Type 0 where
  finished : Generator → Cache → TestEnd
  aborted stuck : TestEnd

-- `performTest` but for the clock; `n` rounds are to go.
pub perform_loop : Manager → (n : ℕ) → Generator → Cache → TestEnd
perform_loop m zero g c = finished g c
perform_loop m (suc n) g c =
    let g' = next g in
    let pid = g'.current % num_pages in
    elim (m.fix pid c) [
      | fixed vaddr c' ↦ perform_loop m n g' (m.unfix pid vaddr (use_page vaddr c'))
      | assert_failed ↦ aborted
      | spinning ↦ stuck
    ]

pub perform_test : Manager → (n : ℕ) → Cache → TestEnd
perform_test m n c = perform_loop m n default_generator c
