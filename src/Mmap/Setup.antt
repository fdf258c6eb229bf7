-- ===== src/Mmap/Setup.antt =====
-- `ul_mmap` and `ul_munmap` of src/user_level_mmap.cc together with the variables of PTEditor/ptedit.c
-- that they set up: runs of calls by one thread.
pub mod Once
mod Tests
use user_level_mmap.Base.{ℕ, Bool, not, Option, none, some, List, [], ◌∷◌, if◌then◌else◌}
use user_level_mmap.Ptedit.Interface.{Implementation}
use user_level_mmap.Ptedit.Access.{Session, init, use_implementation}
use user_level_mmap.Mmap.Fault.{Event, Process}
use user_level_mmap.Mmap.Region.{
  Library, Replies, gives, joining, process_ended, ul_mmap, ul_munmap,
}

-- The variables of the library and those of PTEditor.
pub record Program : Type 0 where
  pub lib : Library
  pub session : Session

-- What `ul_mmap` leaves of PTEditor where it goes on: `ptedit_init` and
-- `ptedit_use_implementation(PTEDIT_IMPL_USER)` at the first call only. `device` and `umem` are what
-- `open` returns, and `granted` is whether the kernel grants the mapping of physical memory.
abbrev pub session_after : (device umem : Option ℕ) → (granted : Bool) → Program → Session
session_after device umem granted p =
    if p.lib.pteditor_init_flag
    then p.session
    else use_implementation granted 2 (init device umem p.session).1

-- The arguments of `ul_mmap` and what the system replies; `init_failed` is what `ptedit_init` returns.
pub record MmapCall : Type 0 where
  pub replies : Replies
  pub device : Option ℕ
  pub umem : Option ℕ
  pub granted : Bool
  pub addr : ℕ
  pub length : ℕ
  pub prot : ℕ
  pub flags : ℕ
  pub fd : Option ℕ
  pub offset : ℕ

-- The address that a call returns, and the program after it.
abbrev pub returning : Session → Option (ℕ × Library) → Option (ℕ × Program)
returning s none = none
returning s (some (r, lib)) = some (r, record { lib = lib; session = s })

-- `ul_mmap` with `ptedit_init` as it is; `none` where the process ends.
unfoldable pub mmap_region : MmapCall → Program → Option (ℕ × Program)
mmap_region c p =
    let replies = record c.replies { init_failed = not (init c.device c.umem p.session).0 } in
    returning (session_after c.device c.umem c.granted p)
      (ul_mmap replies p.lib c.addr c.length c.prot c.flags c.fd c.offset)

module _ (impl : Implementation) (file : (fd position : ℕ) → ℕ) where
  -- A call of the program; that of `ul_munmap` with the events that reach the handler it joins.
  pub data Call : Type 0 where
    maps : MmapCall → Call
    unmaps : (addr length : ℕ) → List Event → Process impl → Call

  -- One call after the other, as far as they return.
  unfoldable pub run : List Call → Program → Option Program
  run [] p = some p
  run (maps c ∷ cs) p = elim (mmap_region c p) [ none ↦ none | some (r, p') ↦ run cs p' ]
  run (unmaps addr length evs q ∷ cs) p = elim (ul_munmap impl file p.lib addr length evs q) [
    | gives r lib' ↦ run cs (record p { lib = lib' })
    | joining lib' ↦ none
    | process_ended ↦ none
  ]
