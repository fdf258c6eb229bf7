-- ===== src/Ptedit/Walk/Tests.antt =====
-- The theorems of the walk at a small page table.
use user_level_mmap.Base.{◌≡◌, refl, true, arith}
use user_level_mmap.Ptedit.Entry.{test, valid_mask_pte}
use user_level_mmap.Ptedit.Walk.{
  x86_64_paging, clean_root, resolve_user_ext, resolve_user_map, update_user_map, resolve_p4d,
  resolve_pud, resolve_pmd, resolve_pte,
}
use user_level_mmap.Ptedit.Walk.Spec.{walk, indices}
use user_level_mmap.Ptedit.Walk.Resolve.{IsResolved, resolve_user_ext-walk}
use user_level_mmap.Ptedit.Walk.Update.{resolve-update, resolve-update_ne}
use user_level_mmap.Ptedit.Fixture.{tables, machine, vm, root-ne-zero, first-IsLeaf}

resolve_user_ext-walk_example :
    IsResolved 0 tables
      (walk tables (clean_root 0x1000) (indices x86_64_paging 0))
      (resolve_user_ext x86_64_paging 0 tables 0 0x1000)
resolve_user_ext-walk_example = resolve_user_ext-walk 0 0 0x1000 tables root-ne-zero

resolve-update_example :
    (let r = resolve_user_map x86_64_paging 0 0 (update_user_map x86_64_paging 0 0 vm machine) in
      (test r.valid valid_mask_pte ≡ true) × (r.pte ≡ 0x9007))
resolve-update_example = resolve-update 0 0 0x4000 vm machine refl root-ne-zero first-IsLeaf

resolve-update_ne_example :
    (resolve_user_map x86_64_paging 4096 0 (update_user_map x86_64_paging 0 0 vm machine)).pte
    ≡ (resolve_user_map x86_64_paging 4096 0 machine).pte
resolve-update_ne_example =
    resolve-update_ne 0 0 0x4000 vm machine refl root-ne-zero first-IsLeaf 0 4096 0x4008
      root-ne-zero refl refl (omega arith)

resolves_first : (resolve_user_ext x86_64_paging 0x123 tables 0 0x1000).pte ≡ 0x5007
unfolding resolve_user_ext resolve_p4d resolve_pud resolve_pmd resolve_pte
resolves_first = refl
