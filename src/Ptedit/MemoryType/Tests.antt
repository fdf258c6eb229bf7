-- ===== src/Ptedit/MemoryType/Tests.antt =====
-- Memory types at the table that processors start with.
use user_level_mmap.Base.{ℕ, ◌≡◌, refl}
use user_level_mmap.Ptedit.MemoryType.{find_loop, find_mt}

abbrev power_on : ℕ
power_on = 0x0007040600070406

-- Write-back memory is at the indices 0 and 4.
find_write_back : find_mt power_on 6 ≡ 0b10001
unfolding find_mt find_loop
find_write_back = refl
