-- ===== src/Ptedit/Access.antt =====
-- PTEditor/ptedit.c on Linux: opening and closing the devices, the choice of an implementation, the
-- roots of page tables and whole physical pages.
pub mod Close
pub mod Pages
mod Tests
use user_level_mmap.Base.{
  ℕ, ◌+◌, ◌-◌, ◌*◌, ◌%◌, ◌^◌, Bool, true, false, ◌&&◌, not, Option, none, some, List, [], ◌∷◌, ◌==◌,
  ltb, if◌then◌else◌, update,
}

-- PTEDIT_IMPL_KERNEL, PTEDIT_IMPL_USER_PREAD and PTEDIT_IMPL_USER, and what the function pointers
-- are before any of them was chosen.
pub data Chosen : Type 0 where
  nothing impl_kernel impl_user_pread impl_user : Chosen

-- `ptedit_vmem`: a null pointer, MAP_FAILED, or the mapping of physical memory.
pub data Vmem : Type 0 where
  unmapped map_refused mapped : Vmem

-- `ptedit_fd`, `ptedit_umem`, the function pointers, `ptedit_paging_root` and `ptedit_vmem`; the
-- descriptors that are open, and the roots that the kernel reports.
pub record Session : Type 0 where
  pub fd : Option ℕ
  pub umem : Option ℕ
  pub chosen : Chosen
  pub paging_root : ℕ
  pub vmem : Vmem
  pub open_files : List ℕ
  pub roots : (pid : ℕ) → Option ℕ

-- `ptedit_get_paging_root`: the root stays 0 where the ioctl fails.
unfoldable pub get_paging_root : (pid : ℕ) → Session → ℕ
get_paging_root pid s = elim (s.roots pid) [ none ↦ 0 | some root ↦ root ]

-- `ptedit_set_paging_root`: the ioctl does nothing for a process that it does not find.
pub set_paging_root : (pid root : ℕ) → Session → Session
set_paging_root pid root s = elim (s.roots pid) [
  | none ↦ s
  | some old ↦ record s { roots = update s.roots pid (some root) }
]

-- `mmap` of `ptedit_umem`: it fails for the -1 of a file that could not be opened, and may fail else.
abbrev pub map_umem : (granted : Bool) → Option ℕ → Vmem
map_umem granted none = map_refused
map_umem granted (some fd) = if granted then mapped else map_refused

-- `if (!ptedit_vmem) ...`; MAP_FAILED is not a null pointer, and the code does not test for it.
abbrev pub vmem_after : (granted : Bool) → (umem : Option ℕ) → Vmem → Vmem
vmem_after granted umem unmapped = map_umem granted umem
vmem_after granted umem map_refused = map_refused
vmem_after granted umem mapped = mapped

-- `granted` is whether the kernel grants the mapping of physical memory.
unfoldable pub use_implementation : (granted : Bool) (implementation : ℕ) → Session → Session
use_implementation granted implementation s =
    if implementation == 0
    then record s { chosen = impl_kernel }
    else if implementation == 1
    then record s { chosen = impl_user_pread; paging_root = get_paging_root 0 s }
    else if implementation == 2
    then record s {
      chosen = impl_user;
      paging_root = get_paging_root 0 s;
      vmem = vmem_after granted s.umem s.vmem;
    }
    else s

-- An open of a file, with the descriptor that the kernel gives, if it does.
abbrev pub opened : Option ℕ → List ℕ → List ℕ
opened none files = files
opened (some d) files = d ∷ files

-- `true` is the 0 of the code, `false` its -1; `device` and `umem` are what `open` returns for the
-- device and for /proc/umem.
unfoldable pub init : (device umem : Option ℕ) → Session → Bool × Session
init none umem s = (false, record s { fd = none })
init (some d) umem s = (
  true,
  use_implementation false 0
      (record s { fd = some d; umem = umem; open_files = opened umem (d ∷ s.open_files) }),
)

-- `close` of a descriptor.
abbrev pub closed : ℕ → List ℕ → List ℕ
closed d [] = []
closed d (f ∷ files) = let rest = closed d files in if d == f then files else f ∷ rest

-- The descriptor 0 is one that `ptedit_umem > 0` leaves out.
abbrev pub remaining : (fd umem : Option ℕ) → List ℕ → List ℕ
remaining fd umem files =
    let after_fd : List ℕ = elim fd [ none ↦ files | some d ↦ closed d files ] in
    elim umem [ none ↦ after_fd | some u ↦ if u == 0 then after_fd else closed u after_fd ]

pub cleanup : Session → Session
cleanup s = record s { open_files = remaining s.fd s.umem s.open_files }

-- The bytes of a page in physical memory.
abbrev pub store_page : (start size : ℕ) → (content : ℕ → ℕ) → (ℕ → ℕ) → ℕ → ℕ
store_page start size content bytes a =
    if not (ltb a start) && ltb a (start + size) then content (a - start) else bytes a

-- The place of a page: `pfn * ptedit_pagesize`.
abbrev pub page_at : (pfn size : ℕ) → ℕ
page_at pfn size = pfn * size % 2 ^ 64

-- Whether `pread` or `pwrite` is called rather than an ioctl, and whether that call fails; the
-- ioctl of the kernel module reaches the same page.
pub read_physical_page :
    (umem : Option ℕ) (failed : Bool) (size pfn : ℕ) (bytes : ℕ → ℕ) (buffer : ℕ → ℕ) → ℕ → ℕ
read_physical_page umem failed size pfn bytes buffer =
    let read = store_page 0 size (λ i. bytes (page_at pfn size + i)) buffer in
    elim umem [ none ↦ read | some u ↦ if not (u == 0) && failed then buffer else read ]

pub write_physical_page :
    (umem : Option ℕ) (failed : Bool) (size pfn : ℕ) (content : ℕ → ℕ) (bytes : ℕ → ℕ) → ℕ → ℕ
write_physical_page umem failed size pfn content bytes =
    let written = store_page (page_at pfn size) size content bytes in
    elim umem [ none ↦ written | some u ↦ if not (u == 0) && failed then bytes else written ]
