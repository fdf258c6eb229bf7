-- ===== src/Ptedit/Interface.antt =====
-- `ptedit_resolve` and `ptedit_update`, the two function pointers of PTEditor/ptedit.h that every
-- other function goes through, and what their documentation promises.
use user_level_mmap.Base.{ℕ, ◌/◌, ◌^◌, ◌<◌, ◌≡◌, ◌≢◌, true}
use user_level_mmap.Ptedit.Entry.{Entry, test, valid_mask_pte}

pub record Implementation : Type 1 where
  pub State : Type 0
  pub resolve : (address pid : ℕ) → State → Entry
  pub update : (address pid : ℕ) → Entry → State → State

-- `Mapped pid address s` says that the page tables of the process have a PTE for the address.
pub record IsImplementation (impl : Implementation) : Type 1 where
  pub Mapped : (pid address : ℕ) → impl.State → Type 0
  pub resolve_marked :
      (pid address : ℕ) (s : impl.State)
      → Mapped pid address s
      → test (impl.resolve address pid s).valid valid_mask_pte ≡ true
  pub resolve_lt :
      (pid address : ℕ) (s : impl.State)
      → Mapped pid address s
      → (impl.resolve address pid s).pte < 2 ^ 64
  pub update_Mapped :
      (pid address : ℕ) (vm : Entry) (s : impl.State)
      → vm.valid ≡ valid_mask_pte
      → vm.pte < 2 ^ 64
      → Mapped pid address s
      → Mapped pid address (impl.update address pid vm s)
  pub resolve_update :
      (pid address : ℕ) (vm : Entry) (s : impl.State)
      → vm.valid ≡ valid_mask_pte
      → vm.pte < 2 ^ 64
      → Mapped pid address s
      → (impl.resolve address pid (impl.update address pid vm s)).pte ≡ vm.pte
  pub resolve_same_page :
      (pid address address' : ℕ) (s : impl.State)
      → Mapped pid address s
      → address' / 2 ^ 12 ≡ address / 2 ^ 12
      → (impl.resolve address' pid s).pte ≡ (impl.resolve address pid s).pte

-- Pages of the current process whose PTEs are separate words: `Laid pages s` says that every address
-- in `pages` has a PTE, that pages of different numbers have different ones, and that none of them is
-- an entry on the way to another.
pub record IsSeparate (impl : Implementation) (laws : IsImplementation impl) : Type 1 where
  pub Laid : (pages : ℕ → Type 0) → impl.State → Type 0
  pub laid_Mapped :
      (pages : ℕ → Type 0) (address : ℕ) (s : impl.State)
      → Laid pages s
      → pages address
      → laws.Mapped 0 address s
  pub update_Laid :
      (pages : ℕ → Type 0) (address : ℕ) (vm : Entry) (s : impl.State)
      → vm.valid ≡ valid_mask_pte
      → vm.pte < 2 ^ 64
      → Laid pages s
      → pages address
      → Laid pages (impl.update address 0 vm s)
  pub resolve_update_ne :
      (pages : ℕ → Type 0) (address address' : ℕ) (vm : Entry) (s : impl.State)
      → vm.valid ≡ valid_mask_pte
      → Laid pages s
      → pages address
      → pages address'
      → address / 2 ^ 12 ≢ address' / 2 ^ 12
      → (impl.resolve address' 0 (impl.update address 0 vm s)).pte ≡ (impl.resolve address' 0 s).pte
