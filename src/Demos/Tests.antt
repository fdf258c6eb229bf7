-- ===== src/Demos/Tests.antt =====
-- The programs on five pages whose PTEs are in one table.
use user_level_mmap.Base.{ℕ, ◌≡◌, ◌≢◌, ap, refl, false, true, some, [], ◌∷◌, arith}
use user_level_mmap.Ptedit.Entry.{get_pfn, entry_get_bit}
use user_level_mmap.Ptedit.Walk.{
  x86_64_paging, resolve_pte, resolve_pmd, resolve_pud, resolve_p4d, resolve_user_ext,
  resolve_user_map,
}
use user_level_mmap.Ptedit.Walk.Update.{IsResolved-leaf}
use user_level_mmap.Ptedit.UserMap.{
  user_map, user_map-IsImplementation, user_map-IsSeparate, HasPte,
}
use user_level_mmap.Ptedit.Fixture.{five_machine, five-LaidOut, SomePages, at_1, at_2, five-pte}
use user_level_mmap.Mmap.Fault.{readable}
use user_level_mmap.Demos.{Memory, load}
use user_level_mmap.Demos.MapPt
use user_level_mmap.Demos.MapPt.Works.{map_pt-done}
use user_level_mmap.Demos.Example
use user_level_mmap.Demos.Example.{ExampleReplies}
use user_level_mmap.Demos.Example.Remap.{example-done}

abbrev memory : Memory user_map
memory = record { tables = five_machine; bytes = λ a. 0 }

readable_1 : readable (user_map.resolve 0x1000 0 five_machine).pte ≡ true
unfolding entry_get_bit
readable_1 = ap readable (five-pte 0x1000 at_1)

map_pt-done_example :
    (final : Memory user_map) × (MapPt.map_pt
        (λ address pid m. resolve_user_map x86_64_paging address pid m)
        false
        (some 4)
        true
        0x1000
        0x2000
        memory
      ≡ MapPt.done true true final)
    × ((x : ℕ) → final.tables.mem x ≡ five_machine.mem x)
map_pt-done_example =
    map_pt-done SomePages memory five-LaidOut 0x1000 0x2000 at_1 at_2 (omega arith) refl refl 4
      (λ address pid m. resolve_user_map x86_64_paging address pid m)
      (λ a on.
        IsResolved-leaf a 0 (five-LaidOut.place a) five_machine five-LaidOut.rooted
          (five-LaidOut.leads a on))
      readable_1

abbrev replies : ExampleReplies
replies = record {
  init_failed = false;
  address = 0x1000;
  target = 0x2000;
  umem = some 4;
  read_failed = false;
  write_failed = false;
  granted = true;
}

first : HasPte 0 0x1000 five_machine
first = user_map-IsSeparate.laid_Mapped SomePages 0x1000 five_machine five-LaidOut at_1

second : HasPte 0 0x2000 five_machine
second = user_map-IsSeparate.laid_Mapped SomePages 0x2000 five_machine five-LaidOut at_2

apart :
    get_pfn (resolve_user_map x86_64_paging 0x1000 0 five_machine).pte
    ≢ get_pfn (resolve_user_map x86_64_paging 0x2000 0 five_machine).pte
unfolding resolve_user_map resolve_user_ext resolve_p4d resolve_pud resolve_pmd resolve_pte get_pfn
apart e = omega (arith, e)

rooted : (resolve_user_map x86_64_paging 0x1000 0 five_machine).pgd ≢ 0
unfolding resolve_user_map resolve_user_ext resolve_p4d resolve_pud resolve_pmd resolve_pte
rooted e = omega (arith, e)

example-done_example :
    (m : Memory user_map) × (Example.example user_map replies (λ i. 0) memory
      ≡ Example.done (true ∷ true ∷ true ∷ true ∷ true ∷ []) m)
    × (load user_map m 0x1000 ≡ some b'A')
example-done_example =
    example-done user_map user_map-IsImplementation replies memory
      (record {
        initialized = refl;
        read = refl;
        written = refl;
        fd = 4;
        opened = refl;
        granted = refl;
        page = refl;
        page' = refl;
      })
      first second apart readable_1 (λ i. 0) rooted
