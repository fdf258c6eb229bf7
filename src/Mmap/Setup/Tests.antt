-- ===== src/Mmap/Setup/Tests.antt =====
-- Two regions in one program.
use user_level_mmap.Base.{ℕ, ◌≡◌, refl, true, false, none, some, List, [], ◌∷◌, update}
use user_level_mmap.Ptedit.UserMap.{user_map}
use user_level_mmap.Ptedit.Access.{
  Session, unmapped, mapped, nothing, impl_user, get_paging_root, init, use_implementation,
}
use user_level_mmap.Mmap.Fault.{PfhandleArgs}
use user_level_mmap.Mmap.Region.{
  Replies, ul_mmap, start_handler, register_missing, map_anonymous, use_user_implementation,
  init_ptedit,
}
use user_level_mmap.Mmap.Setup.{Program, MmapCall, mmap_region, Call, maps, run}
use user_level_mmap.Mmap.Setup.Once.{IsSetUp, run-IsSetUp}

abbrev file : (fd position : ℕ) → ℕ
file fd position = 0

abbrev replies : (at uffd : ℕ) → Replies
replies at uffd = record {
  init_failed = false;
  mmap_addr = at;
  new_uffd = some uffd;
  api_failed = false;
  register_failed = false;
  dup = none;
}

-- `open` gives 3 and 4.
abbrev call_at : (at uffd : ℕ) → MmapCall
call_at at uffd = record {
  replies = replies at uffd;
  device = some 3;
  umem = some 4;
  granted = true;
  addr = 0;
  length = 8192;
  prot = 3;
  flags = 0x22;
  fd = none;
  offset = 0;
}

abbrev calls : List (Call user_map file)
calls = maps (call_at 0x7000 5) ∷ maps (call_at 0x9000 6) ∷ []

abbrev before : Program
before = record {
  lib = record { pteditor_init_flag = false; mmap_regions = λ _. none; requests = [] };
  session = record {
    fd = none;
    umem = none;
    chosen = nothing;
    paging_root = 0;
    vmem = unmapped;
    open_files = 2 ∷ 1 ∷ 0 ∷ [];
    roots = λ pid. some 0x1000;
  };
}

abbrev session : Session
session = record {
  fd = some 3;
  umem = some 4;
  chosen = impl_user;
  paging_root = 0x1000;
  vmem = mapped;
  open_files = 4 ∷ 3 ∷ 2 ∷ 1 ∷ 0 ∷ [];
  roots = λ pid. some 0x1000;
}

abbrev args_at : (at uffd : ℕ) → PfhandleArgs
args_at at uffd = record {
  uffd = uffd;
  fd = none;
  offset = 0;
  base_addr = at;
  finish = false;
  fault_cnt = 0;
}

abbrev after : Program
after = record {
  lib = record {
    pteditor_init_flag = true;
    mmap_regions =
        update (update (λ _. none) 0x7000 (some (args_at 0x7000 5))) 0x9000
          (some (args_at 0x9000 6));
    requests =
        start_handler (args_at 0x9000 6)
        ∷ register_missing 6 0x9000 8192
        ∷ map_anonymous 0 8192 3 0
        ∷ start_handler (args_at 0x7000 5)
        ∷ register_missing 5 0x7000 8192
        ∷ map_anonymous 0 8192 3 0
        ∷ use_user_implementation
        ∷ init_ptedit
        ∷ [];
  };
  session = session;
}

runs : run user_map file calls before ≡ some after
unfolding run mmap_region ul_mmap init use_implementation get_paging_root
runs = refl

run-IsSetUp_example : IsSetUp (2 ∷ 1 ∷ 0 ∷ []) session
run-IsSetUp_example =
    run-IsSetUp user_map file calls before after 0x9000 (args_at 0x9000 6) refl (λ a. refl) refl
      runs ((refl, (4, refl)), ((refl, (4, refl)), tt)) refl
