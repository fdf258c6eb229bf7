-- ===== src/Ptedit/Access/Pages.antt =====
-- Reading a physical page that was written.
use user_level_mmap.Base.{ℕ, ◌+◌, ◌-◌, ◌<◌, ◌≡◌, refl, ap, false, Option, none, some, arith}
use user_level_mmap.Ptedit.Access.{store_page, page_at, read_physical_page, write_physical_page}

-- The page that was written, whatever way it was written.
pub written :
    (umem : Option ℕ) (size pfn : ℕ) (content bytes : ℕ → ℕ)
    → write_physical_page umem false size pfn content bytes
      ≡ store_page (page_at pfn size) size content bytes
unfolding write_physical_page
written none size pfn content bytes = refl
written (some u) size pfn content bytes = ground arith

pub read_eq :
    (umem : Option ℕ) (size pfn : ℕ) (bytes buffer : ℕ → ℕ)
    → read_physical_page umem false size pfn bytes buffer
      ≡ store_page 0 size (λ i. bytes (page_at pfn size + i)) buffer
unfolding read_physical_page
read_eq none size pfn bytes buffer = refl
read_eq (some u) size pfn bytes buffer = ground arith

-- Given calls that do not fail, a page that was written is read back, byte for byte, also when one
-- call goes through /proc/umem and the other through the kernel module.
pub read_physical_page-write_physical_page :
    (umem umem' : Option ℕ) (size pfn : ℕ) (content bytes buffer : ℕ → ℕ) (i : ℕ)
    → i < size
    → read_physical_page umem' false size pfn
        (write_physical_page umem false size pfn content bytes)
        buffer
        i
      ≡ content i
read_physical_page-write_physical_page umem umem' size pfn content bytes buffer i lt =
    let same : page_at pfn size + i - page_at pfn size ≡ i = omega arith in
    rw
      (
        read_eq umem' size pfn (write_physical_page umem false size pfn content bytes) buffer,
        written umem size pfn content bytes,
      )
      (ground (arith, same, ap content same))
