-- ===== src/Ptedit/Pread/Tests.antt =====
-- The tables of the fixture through /proc/umem, where the calls for a few addresses fail.
use user_level_mmap.Base.{ℕ, ◌≡◌, refl, true, none, [], ◌∷◌, ◌==◌}
use user_level_mmap.Ptedit.Entry.{test, valid_mask_pte}
use user_level_mmap.Ptedit.Walk.{x86_64_paging, resolve_user_map, update_user_map}
use user_level_mmap.Ptedit.Pread.{Umem, resolve_user, update_user}
use user_level_mmap.Ptedit.Pread.Update.{
  stored, update_user-walk, resolve_user-unread, resolve_user-update_user,
}
use user_level_mmap.Ptedit.Fixture.{tables, machine, vm, root-ne-zero}

-- Only the calls at one address fail.
abbrev unreadable : ℕ → Umem
unreadable place = record { read_failed = λ a. a == place; write_failed = λ a. a == place }

resolve_user-update_user_example :
    (resolve_user (unreadable 0x5000) x86_64_paging 0 0 machine
      ≡ resolve_user_map x86_64_paging 0 0 machine)
    × (update_user (unreadable 0x5000) x86_64_paging 0 0 vm machine
        ≡ update_user_map x86_64_paging 0 0 vm machine)
resolve_user-update_user_example =
    resolve_user-update_user (unreadable 0x5000) 0 0 vm machine refl root-ne-zero
      ((refl, refl), ((refl, refl), ((refl, refl), ((refl, refl), tt))))

-- The entry of the PMD cannot be read, so no PTE is found and nothing is stored.
update_user-walk_example :
    update_user (unreadable 0x3000) x86_64_paging 0 0 vm machine
    ≡ record machine { mem = stored (unreadable 0x3000) tables 0x9007 none; flushed = 0 ∷ 0 ∷ [] }
update_user-walk_example = update_user-walk (unreadable 0x3000) 0 0 machine root-ne-zero vm refl

-- The PTE itself cannot be read.
reads_zero :
    (let r = resolve_user (unreadable 0x4000) x86_64_paging 0 0 machine in
      (test r.valid valid_mask_pte ≡ true) × (r.pte ≡ 0))
reads_zero = resolve_user-unread (unreadable 0x4000) 0 0 machine root-ne-zero 0x4000 refl refl
