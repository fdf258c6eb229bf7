-- ===== src/Mmap/Region.antt =====
-- `ul_mmap` and `ul_munmap` of src/user_level_mmap.cc: the table of regions and the system calls.
pub mod Map
pub mod Unmap
pub mod Reads
mod Tests
use user_level_mmap.Base.{
  ℕ, ◌-◌, ◌^◌, Bool, true, false, ◌&&◌, not, Option, none, some, List, ◌∷◌, ◌==◌, if◌then◌else◌,
  update,
}
use user_level_mmap.Ptedit.Interface.{Implementation}
use user_level_mmap.Mmap.Fault.{
  PfhandleArgs, Event, Process, waiting, returned, exited, aborted, handler_loop,
}

-- The calls of PTEditor and of the system that change something, with their arguments.
pub data Request : Type 0 where
  init_ptedit use_user_implementation : Request
  map_anonymous : (addr length prot offset : ℕ) → Request
  register_missing : (uffd start len : ℕ) → Request
  start_handler : PfhandleArgs → Request
  unmap : (addr length : ℕ) → Request
  unregister : (uffd start len : ℕ) → Request

-- The static flag of `ul_mmap`, `mmap_regions`, and the requests made so far, the last one first.
pub record Library : Type 0 where
  pub pteditor_init_flag : Bool
  pub mmap_regions : ℕ → Option PfhandleArgs
  pub requests : List Request

-- What the system replies: whether `ptedit_init` fails, the address from `mmap`, the descriptor
-- from `userfaultfd`, whether the two ioctls fail, and the copy of the file's descriptor.
pub record Replies : Type 0 where
  pub init_failed : Bool
  pub mmap_addr : ℕ
  pub new_uffd : Option ℕ
  pub api_failed : Bool
  pub register_failed : Bool
  pub dup : Option ℕ

-- MAP_FAILED, (void *)-1
abbrev pub map_failed : ℕ
map_failed = 2 ^ 64 - 1

-- A run is `none` where the code ends the process, by `err` or `exit`.
infixl 5 ◌>>=◌ ◌>>◌
abbrev pub ◌>>=◌ : {A B : Type 0} → Option A → (A → Option B) → Option B
none >>= k = none
some a >>= k = k a

abbrev pub ◌>>◌ : {B : Type 0} → Option (Unit {0}) → Option B → Option B
m >> k = m >>= λ _. k

-- `if (failed) err(...)`
abbrev pub unless : Bool → Option (Unit {0})
unless true = none
unless false = some tt

-- The copy of the descriptor, if there is one to copy.
abbrev pub dup_fd : Replies → Option ℕ → Option (Option ℕ)
dup_fd replies none = some none
dup_fd replies (some fd) = elim replies.dup [ none ↦ none | some copy ↦ some (some copy) ]

-- The requests after the first part of `ul_mmap`, which sets PTEditor up the first time.
abbrev pub set_up : Library → List Request
set_up lib =
    if lib.pteditor_init_flag
    then lib.requests
    else use_user_implementation ∷ init_ptedit ∷ lib.requests

-- `flags` is used nowhere in the code.
unfoldable pub ul_mmap :
    Replies
    → Library
    → (addr length prot flags : ℕ) → (fd : Option ℕ) → (offset : ℕ) → Option (ℕ × Library)
ul_mmap replies lib addr length prot flags fd offset = do
  unless (not lib.pteditor_init_flag && replies.init_failed)
  unless (replies.mmap_addr == map_failed)
  uffd ← replies.new_uffd
  unless replies.api_failed
  unless replies.register_failed
  copy ← dup_fd replies fd
  let pfh_args : PfhandleArgs = record {
    uffd = uffd;
    fd = copy;
    offset = offset;
    base_addr = replies.mmap_addr;
    finish = false;
    fault_cnt = 0;
  }
  some (
    replies.mmap_addr,
    record lib {
      pteditor_init_flag = true;
      mmap_regions = update lib.mmap_regions replies.mmap_addr (some pfh_args);
      requests =
          start_handler pfh_args
          ∷ register_missing uffd replies.mmap_addr length
          ∷ map_anonymous addr length prot offset
          ∷ set_up lib;
    },
  )

-- How `ul_munmap` ends: with its value, in `join` with the mutex held, or with the process.
pub data UnmapEnd : Type 0 where
  gives : ℕ → Library → UnmapEnd
  joining : Library → UnmapEnd
  process_ended : UnmapEnd

module _ (impl : Implementation) (file : (fd position : ℕ) → ℕ) where
  -- `evs` are the events that reach the thread of the region while `ul_munmap` joins it.
  pub ul_munmap : Library → (addr length : ℕ) → List Event → Process impl → UnmapEnd
  ul_munmap lib addr length evs p = elim (lib.mmap_regions addr) [
    | none ↦ gives 0 lib
    | some args ↦
        let finishing = record args { finish = true } in
        let lib' = record lib {
          mmap_regions = update lib.mmap_regions addr (some finishing);
          requests = unregister args.uffd addr length ∷ unmap addr length ∷ lib.requests;
        } in
        elim (handler_loop impl file finishing evs p) [
          | waiting _ ↦ joining lib'
          | returned _ ↦ gives 0 (record lib' { mmap_regions = update lib.mmap_regions addr none })
          | exited ↦ process_ended
          | aborted ↦ process_ended
        ]
  ]
