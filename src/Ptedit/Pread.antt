-- ===== src/Ptedit/Pread.antt =====
-- The implementation PTEDIT_IMPL_USER_PREAD of PTEditor/ptedit.c on Linux: the walk and the update of
-- page tables by `pread` and `pwrite` on /proc/umem.
pub mod Equal
pub mod Update
mod Tests
use user_level_mmap.Base.{ℕ, Bool, if◌then◌else◌}
use user_level_mmap.Ptedit.Entry.{Entry}
use user_level_mmap.Ptedit.Walk.{
  PagingDefinition, Machine, PhysWrite, phys_write, resolve_user_ext, update_user_ext,
  invalidate_tlb,
}

-- The addresses at which `pread` and `pwrite` on `ptedit_umem` return -1; elsewhere they transfer all
-- bytes of a word.
pub record Umem : Type 0 where
  pub read_failed : ℕ → Bool
  pub write_failed : ℕ → Bool

module _ (u : Umem) where
  -- `ptedit_phys_read_pread`: `val` is still 0 where the call fails.
  abbrev pub phys_read_pread : (ℕ → ℕ) → ℕ → ℕ
  phys_read_pread mem address = if u.read_failed address then 0 else mem address

  -- `ptedit_phys_write_pwrite`
  abbrev pub phys_write_pwrite : PhysWrite
  phys_write_pwrite address value m =
      if u.write_failed address then m else phys_write address value m

  module _ (d : PagingDefinition) (addr : ℕ) where
    -- `ptedit_resolve_user`
    unfoldable pub resolve_user : (pid : ℕ) → Machine → Entry
    resolve_user pid m = resolve_user_ext d addr (phys_read_pread m.mem) pid (m.paging_root pid)

    -- `ptedit_update_user` flushes once more.
    unfoldable pub update_user : (pid : ℕ) → Entry → Machine → Machine
    update_user pid vm m =
        invalidate_tlb addr (update_user_ext d addr resolve_user phys_write_pwrite pid vm m)
