-- ===== src/Mmap/Fault/Fixture.antt =====
-- Faults whose calls succeed, and two pages of the fixture for them, for the examples.
use user_level_mmap.Base.{ℕ, ◌≡◌, ◌≢◌, refl, true, false, Option, none, some, arith, ◌==◌}
use user_level_mmap.Ptedit.Entry.{get_pfn}
use user_level_mmap.Ptedit.UserMap.{user_map}
use user_level_mmap.Ptedit.Fixture.{five_machine, at_1, at_4, five-pte}
use user_level_mmap.Mmap.Fault.{PfhandleArgs, Event, fill_ok}
use user_level_mmap.Mmap.Fault.Install.{IsServed}

abbrev pub fault_at : (address given_page : ℕ) → Event
fault_at address given_page = record {
  poll_failed = false;
  nread = some 32;
  is_pagefault = true;
  address = address;
  given_page = given_page;
  bytes_read = 4096;
  wake_failed = false;
}

fill_ok-fault_at :
    (args : PfhandleArgs) (address given_page : ℕ)
    → fill_ok args (fault_at address given_page) ≡ true
unfolding fill_ok
fill_ok-fault_at args address given_page = of_fd args.fd
  where
    of_fd : (fd : Option ℕ) → elim fd [ none ↦ true | some f ↦ 4096 == 4096 ] ≡ true
    of_fd none = refl
    of_fd (some f) = refl

pub fault_at-IsServed :
    (args : PfhandleArgs) (address given_page : ℕ)
    → given_page ≢ 0
    → IsServed args (fault_at address given_page)
fault_at-IsServed args address given_page real = record {
  polled = refl;
  count = 32;
  some_read = refl;
  nonzero = omega arith;
  fault = refl;
  allocated = real;
  filled = fill_ok-fault_at args address given_page;
  woken = refl;
}

frame_1 : get_pfn (user_map.resolve 0x1000 0 five_machine).pte ≡ 6
unfolding get_pfn
frame_1 = rw (five-pte 0x1000 at_1)

frame_4 : get_pfn (user_map.resolve 0x4000 0 five_machine).pte ≡ 9
unfolding get_pfn
frame_4 = rw (five-pte 0x4000 at_4)

-- The pages at 0x1000 and 0x4000 have frames of their own.
pub frames_differ :
    get_pfn (user_map.resolve 0x1000 0 five_machine).pte
    ≢ get_pfn (user_map.resolve 0x4000 0 five_machine).pte
frames_differ e = cc (frame_1, frame_4, e)
