-- ===== src/Userfaultfd/Tests.antt =====
-- One fault of the demo, and a region of two pages.
use user_level_mmap.Base.{ℕ, ◌+◌, ◌*◌, ◌/◌, ◌<◌, ◌≡◌, refl, true, false, some, [], ◌∷◌, arith}
use user_level_mmap.Ptedit.UserMap.{user_map, user_map-IsImplementation}
use user_level_mmap.Ptedit.Fixture.{machine, first-HasPte, second-HasPte}
use user_level_mmap.Mmap.Fault.{page_size, Event, next, Process, ReadsAs}
use user_level_mmap.Userfaultfd.{Handler, letter, serve}
use user_level_mmap.Userfaultfd.Serve.{IsReady, serve-shows}

-- The buffer 3 is the second page.
abbrev handler : Handler
handler = record { fault_cnt = 3; bufpool = λ i. 0x1000 }

abbrev event : Event
event = record {
  poll_failed = false;
  nread = some 32;
  is_pagefault = true;
  address = 0x123;
  given_page = 0;
  bytes_read = 0;
  wake_failed = false;
}

abbrev process : Process user_map
process = record { tables = machine; bytes = λ _. 0; woken = [] }

event-IsReady : IsReady handler event
event-IsReady = record {
  polled = refl;
  count = 32;
  some_read = refl;
  nonzero = omega arith;
  fault = refl;
  left = omega arith;
  woken = refl;
}

serve-shows_example :
    (h' : Handler) × (p' : Process user_map) × (serve user_map handler event process
      ≡ next (h', p'))
    × ((k : ℕ) → k < page_size → ReadsAs user_map p' (0x123 / page_size * page_size + k) (letter 3))
    × (h'.fault_cnt ≡ 4)
    × (p'.woken ≡ (0, page_size) ∷ [])
serve-shows_example =
    serve-shows user_map user_map-IsImplementation handler event process event-IsReady first-HasPte
      second-HasPte refl (omega arith)
