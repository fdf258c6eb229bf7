-- ===== src/Cache/Tests.antt =====
-- The tests of the caches at a small number of rounds.
use user_level_mmap.Base.{
  ℕ, ◌≤◌, ◌%◌, ◌≡◌, refl, true, false, none, some, arith, ◌==◌, if◌then◌else◌,
}
use user_level_mmap.Cache.{is_evicted, is_marked, is_unlocked, Cache, default_generator, next}
use user_level_mmap.Cache.Managers.{PagesReady}
use user_level_mmap.Cache.Locking.{
  owner, load, locked, pick, Page, Reach, start, later, Reach-one_owner, marked-two_owners,
}
use user_level_mmap.Cache.DataFile.{
  check_data_file, still_open, result_list, file_size, check_data_file-closes,
}
use user_level_mmap.Cache.Program.{
  MainReplies, IsGranted, IsPaged, plain_test, initial, main, returned_zero, main-returned_zero,
}

first_random : (next default_generator).current ≡ 1083814273
unfolding next
first_random = refl

abbrev zeros : Cache
zeros = record {
  state = λ pid. 0;
  buf_tags = λ pid. 0;
  buf_table = λ pid. none;
  virt_mem = 0x10000;
  word = λ a. if a % 4096 == 16 then 7 else 0;
  acc = 0;
}

zeros-PagesReady : PagesReady zeros
unfolding is_evicted is_unlocked
zeros-PagesReady = (omega arith, λ pid lt. ground arith)

-- A thread has locked the page, and another one has loaded its state.
abbrev held : (c : Page) × Reach 0 c
unfolding is_evicted is_unlocked is_marked
held = (_, later (later (later start (pick 0 load)) (pick 0 (locked refl refl refl))) (pick 1 load))

Reach-one_owner_example : ◌≡◌ {A = ℕ} 0 0 × (is_unlocked held.0.word ≡ false)
unfolding held is_marked
Reach-one_owner_example = Reach-one_owner refl held.1 0 0 refl refl

marked-two_owners_example : (c : Page) × Reach 2 c × (c.pc 0 ≡ owner) × (c.pc 1 ≡ owner)
unfolding is_evicted is_marked
marked-two_owners_example = marked-two_owners 2 refl refl

abbrev replies : MainReplies
replies = record {
  state_mmap = 0x1000;
  tags_mmap = 0x2000;
  virt_mmap = λ fd. 0x10000;
  madvise_failed = false;
  mlock_failed = false;
  data_file = record {
    good = true;
    create = none;
    lseek_failed = false;
    write_failed = false;
    opened_fd = some 3;
    stat = some 8192000;
  };
}

replies-IsGranted : IsGranted replies 0x10000
replies-IsGranted = record {
  states = omega arith;
  tags = omega arith;
  mapped = refl;
  real = omega arith;
  advised = refl;
  locked = refl;
}

zeros-IsPaged : IsPaged 0x10000 zeros.word
unfolding is_evicted is_unlocked
zeros-IsPaged = record { fits = omega arith; free = λ pid lt. ground arith }

main-returned_zero_example :
    main 1 2 replies zeros.word
    ≡ returned_zero (plain_test 2 (plain_test 2 (plain_test 2 (initial 0x10000 zeros.word))))
main-returned_zero_example =
    main-returned_zero 0 2 0x10000 replies zeros.word replies-IsGranted zeros-IsPaged

check_data_file-closes_example :
    (still_open (check_data_file replies.data_file).1
      ≡ result_list (check_data_file replies.data_file).0)
    × ((fd : ℕ)
        → (check_data_file replies.data_file).0 ≡ some fd
        → (some 3 ≡ some fd) × (size : ℕ) × (some 8192000 ≡ some size) × (file_size ≤ size))
check_data_file-closes_example = check_data_file-closes replies.data_file
