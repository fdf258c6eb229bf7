-- ===== src/Demos/Nx/Tests.antt =====
-- A parent and its child, each with tables of its own.
use user_level_mmap.Base.{ℕ, refl, [], arith, ◌==◌, if◌then◌else◌}
use user_level_mmap.Ptedit.Walk.{Machine}
use user_level_mmap.Ptedit.UserMap.{HasPte}
use user_level_mmap.Demos.Nx.{nx_function_aligned}

-- The parent's tables are from 0x1000 on, the child's from 0x11000 on.
abbrev two_tables : ℕ → ℕ
two_tables a =
    if a == 0x1000
    then 0x2001
    else (if a == 0x2000
        then 0x3001
        else (if a == 0x3000
            then 0x4001
            else (if a == 0x4008
                then 0x8000000000005007
                else (if a == 0x11000
                    then 0x12001
                    else (if a == 0x12000
                        then 0x13001
                        else (if a == 0x13000
                            then 0x14001
                            else (if a == 0x14008 then 0x8000000000006007 else 0)))))))

abbrev family : Machine
family = record {
  mem = two_tables;
  paging_root = λ pid. if pid == 0 then 0x1000 else 0x11000;
  flushed = [];
}

child : HasPte 7 (nx_function_aligned 0x10) family
child = record {
  rooted = omega arith;
  place = 0x14008;
  leaf = (refl, refl);
  words = λ x. ground arith;
}

own : HasPte 0 (nx_function_aligned 0x10) family
own = record {
  rooted = omega arith;
  place = 0x4008;
  leaf = (refl, refl);
  words = λ x. ground arith;
}
