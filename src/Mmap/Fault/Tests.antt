-- ===== src/Mmap/Fault/Tests.antt =====
-- One page fault at a small page table.
use user_level_mmap.Base.{
  List, ◌==◌, ℕ, ◌+◌, ◌*◌, ◌/◌, ◌%◌, ◌<◌, ◌≡◌, ◌≢◌, refl, All, true, false, some, [], ◌∷◌, arith,
}
use user_level_mmap.Ptedit.UserMap.{user_map, user_map-IsImplementation, user_map-IsSeparate}
use user_level_mmap.Ptedit.Fixture.{
  machine, first-HasPte, second-HasPte, five_machine, SomePages, in_0, at_1, in_2, at_3,
  five-LaidOut, five-pte,
}
use user_level_mmap.Mmap.Fault.{
  page_size, PfhandleArgs, Event, next, Process, ReadsAs, page_content, fill_ok, handle_event,
  fault_pte, waiting, handler_loop,
}
use user_level_mmap.Base.Bits.{bit_at}
use user_level_mmap.Ptedit.Entry.{get_pfn}
use user_level_mmap.Mmap.Fault.Pte.{bit_at-fault_pte}
use user_level_mmap.Mmap.Fault.Install.{IsServed, handle_event-shows}
use user_level_mmap.Mmap.Fault.Shared.{
  polling, resolve, update_pte, wake, Handlers, Used, Reach, used, Reach-mixed,
}
use user_level_mmap.Mmap.Fault.Sequence.{Shown, handler_loop-Shown}

abbrev file : (fd position : ℕ) → ℕ
file fd position = position % 256

abbrev args : PfhandleArgs
args = record {
  uffd = 5;
  fd = some 6;
  offset = 0x2000;
  base_addr = 0;
  finish = false;
  fault_cnt = 3;
}

-- A fault in the first page, served with the second one.
abbrev event : Event
event = record {
  poll_failed = false;
  nread = some 32;
  is_pagefault = true;
  address = 0x123;
  given_page = 0x1000;
  bytes_read = 4096;
  wake_failed = false;
}

abbrev process : Process user_map
process = record { tables = machine; bytes = λ _. 0; woken = [] }

event-IsServed : IsServed args event
unfolding fill_ok
event-IsServed = record {
  polled = refl;
  count = 32;
  some_read = refl;
  nonzero = omega arith;
  fault = refl;
  allocated = omega arith;
  filled = refl;
  woken = refl;
}

handle_event-shows_example :
    (args' : PfhandleArgs) × (p' : Process user_map) × (handle_event user_map file args event
        process
      ≡ next (args', p'))
    × ((k : ℕ)
        → k < page_size
        → ReadsAs user_map p' (0x123 / page_size * page_size + k) (page_content file args event k))
    × (args'.fault_cnt ≡ 4)
    × (p'.woken ≡ (0, page_size) ∷ [])
handle_event-shows_example =
    handle_event-shows user_map user_map-IsImplementation file args event process event-IsServed
      first-HasPte second-HasPte refl (omega arith)

-- A second fault, at the last byte of the third page, served with the fourth one.
abbrev later_event : Event
later_event = record event { address = 0x2fff; given_page = 0x3000 }

later-IsServed : IsServed args later_event
unfolding fill_ok
later-IsServed = record {
  polled = refl;
  count = 32;
  some_read = refl;
  nonzero = omega arith;
  fault = refl;
  allocated = omega arith;
  filled = refl;
  woken = refl;
}

abbrev five_process : Process user_map
five_process = record { tables = five_machine; bytes = λ _. 0; woken = [] }

frame_1 : get_pfn (user_map.resolve 0x1000 0 five_machine).pte ≡ 6
unfolding get_pfn
frame_1 = rw (five-pte 0x1000 at_1)

frame_3 : get_pfn (user_map.resolve 0x3000 0 five_machine).pte ≡ 8
unfolding get_pfn
frame_3 = rw (five-pte 0x3000 at_3)

frames_differ :
    get_pfn (user_map.resolve 0x1000 0 five_machine).pte
    ≢ get_pfn (user_map.resolve 0x3000 0 five_machine).pte
frames_differ e = cc (frame_1, frame_3, e)

handler_loop-Shown_example :
    (args' : PfhandleArgs) × (q : Process user_map) × (handler_loop user_map file args
        (event ∷ later_event ∷ [])
        five_process
      ≡ waiting (args', q))
    × Shown user_map user_map-IsImplementation user_map-IsSeparate file SomePages args
        (event ∷ later_event ∷ [])
        q
handler_loop-Shown_example =
    handler_loop-Shown user_map user_map-IsImplementation user_map-IsSeparate file SomePages
      (event ∷ later_event ∷ []) args five_process five-LaidOut
      (
        record { served = event-IsServed; faulted = in_0; given = at_1; aligned = refl },
        (record { served = later-IsServed; faulted = in_2; given = at_3; aligned = refl }, tt),
      )
      (((λ e. omega (arith, e), λ e. omega (arith, e), frames_differ), tt), (tt, tt))

bit_at-fault_pte_example :
    bit_at (fault_pte 0x8000000000005000 0x77) 63 ≡ bit_at 0x8000000000005000 63
bit_at-fault_pte_example =
    bit_at-fault_pte 0x8000000000005000 0x77 (omega arith) (omega arith) 63 (omega arith)

Reach-mixed_example :
    (h : Handlers) × Reach (λ t. t == 0) h
    × (h.pc 0 ≡ polling)
    × (h.sent 0 ≡ 0x1000)
    × All (λ x. (x.thread ≡ 0) × (x.at ≡ 0x7000)) h.uses
    × ((before : List Used) × (h.uses
          ≡ used 0x1000 0x7000 wake
            ∷ used 0x1000 0x7000 update_pte
            ∷ used 0x1000 0x7000 resolve
            ∷ before))
Reach-mixed_example = Reach-mixed (λ t. t == 0) 0x1000 0x7000
