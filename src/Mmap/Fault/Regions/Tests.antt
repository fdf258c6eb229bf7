-- ===== src/Mmap/Fault/Regions/Tests.antt =====
-- A region without a file and one of a file that take turns.
use user_level_mmap.Base.{
  ℕ, ◌≡◌, refl, false, none, some, List, [], ◌∷◌, arith, All, ◌==◌, if◌then◌else◌, ◌%◌,
}
use user_level_mmap.Ptedit.UserMap.{user_map, user_map-IsImplementation, user_map-IsSeparate}
use user_level_mmap.Ptedit.Fixture.{five_machine, SomePages, at_1, at_2, at_3, at_4, five-LaidOut}
use user_level_mmap.Mmap.Fault.{PfhandleArgs, Event, Process, waiting}
use user_level_mmap.Mmap.Fault.Fixture.{fault_at, fault_at-IsServed, frames_differ}
use user_level_mmap.Mmap.Fault.Rounds.{Shows}
use user_level_mmap.Mmap.Fault.Regions.{regions_loop, turns, regions_loop-Shows}

abbrev file : (fd position : ℕ) → ℕ
file fd position = position % 256

-- The region 0 is at 0x2000 with the file 9 from 0x6000 on, the other one at 0x3000 without a file.
abbrev args : ℕ → PfhandleArgs
args t =
    if t == 0
    then record {
      uffd = 4;
      fd = some 9;
      offset = 0x6000;
      base_addr = 0x2000;
      finish = false;
      fault_cnt = 0;
    }
    else record {
      uffd = 5;
      fd = none;
      offset = 0;
      base_addr = 0x3000;
      finish = false;
      fault_cnt = 7;
    }

abbrev events : List (ℕ × Event)
events = (1, fault_at 0x3000 0x1000) ∷ (0, fault_at 0x2000 0x4000) ∷ []

abbrev process : Process user_map
process = record { tables = five_machine; bytes = λ _. 0; woken = [] }

regions_loop-Shows_example :
    (args' : ℕ → PfhandleArgs) × (q : Process user_map) × (regions_loop user_map file args events
        process
      ≡ waiting (args', q))
    × All
        (Shows user_map user_map-IsImplementation user_map-IsSeparate file SomePages q)
        (turns args events)
regions_loop-Shows_example =
    regions_loop-Shows user_map user_map-IsImplementation user_map-IsSeparate file SomePages events
      args process five-LaidOut
      (
        record {
          served = fault_at-IsServed (args 1) 0x3000 0x1000 (omega arith);
          faulted = at_3;
          given = at_1;
          aligned = refl;
        },
        (
          record {
            served = fault_at-IsServed (args 0) 0x2000 0x4000 (omega arith);
            faulted = at_2;
            given = at_4;
            aligned = refl;
          },
          tt,
        ),
      )
      (((omega arith, omega arith, frames_differ), tt), (tt, tt))
