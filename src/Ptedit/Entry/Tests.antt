-- ===== src/Ptedit/Entry/Tests.antt =====
-- The operations on an entry at concrete words.
use user_level_mmap.Base.{◌≡◌, refl}
use user_level_mmap.Ptedit.Entry.{set_pfn, get_pfn}

frame_of_word : get_pfn 0x8000000000005007 ≡ 5
unfolding get_pfn
frame_of_word = refl

word_with_frame : set_pfn 0x8000000000005007 0x77 ≡ 0x8000000000077007
unfolding set_pfn
word_with_frame = refl
