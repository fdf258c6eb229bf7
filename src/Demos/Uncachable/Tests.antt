-- ===== src/Demos/Uncachable/Tests.antt =====
-- The program at the table of memory types that processors start with.
use user_level_mmap.Base.{ℕ, ◌≡◌, refl, false, Option, none, some, List, ◌∷◌}
use user_level_mmap.Ptedit.UserMap.{
  user_map, user_map-IsImplementation, user_map-IsSeparate, HasPte,
}
use user_level_mmap.Ptedit.Fixture.{five_machine, five-LaidOut, SomePages, at_1}
use user_level_mmap.Ptedit.MemoryType.{get_mt}
use user_level_mmap.Demos.{Memory}
use user_level_mmap.Demos.Uncachable.{mt_uc, mt_wb, UncachableReplies, done, type_of, uncachable}
use user_level_mmap.Demos.Uncachable.Selects.{uncachable-done}

abbrev memory : Memory user_map
memory = record { tables = five_machine; bytes = λ a. 0 }

abbrev replies : UncachableReplies
replies = record { init_failed = false; mts = 0x0007040600070406; pt = 0x1000; huge_page = none }

uncachable_at_3 : get_mt 0x0007040600070406 3 ≡ some mt_uc
unfolding get_mt
uncachable_at_3 = refl

write_back_at_0 : get_mt 0x0007040600070406 0 ≡ some mt_wb
unfolding get_mt
write_back_at_0 = refl

mapped : HasPte 0 0x1000 five_machine
mapped = user_map-IsSeparate.laid_Mapped SomePages 0x1000 five_machine five-LaidOut at_1

uncachable-done_example :
    (others : List (Option ℕ)) × (final : Memory user_map) × (uncachable user_map replies memory
      ≡ done
          (type_of user_map replies 0x1000 five_machine ∷ some mt_uc ∷ some mt_wb ∷ others)
          final)
uncachable-done_example =
    uncachable-done user_map user_map-IsImplementation replies memory 3 0 refl mapped
      uncachable_at_3 write_back_at_0
