-- ===== src/Kernel/Implementation.antt =====
-- The implementation PTEDIT_IMPL_KERNEL of PTEditor/ptedit.c: `ptedit_resolve_kernel` and
-- `ptedit_update_kernel` through the ioctls of the module fill the interface of PTEditor.
use user_level_mmap.Base.{ℕ, ◌/◌, ◌^◌, ◌<◌, ◌≡◌, refl, sym, ap, ◌∙◌, some, arith, update}
use user_level_mmap.Ptedit.Entry.{Entry, test, valid_mask_pte}
use user_level_mmap.Ptedit.Interface.{Implementation, IsImplementation}
use user_level_mmap.Kernel.{Linux, Module, get_mm}
use user_level_mmap.Kernel.Update.{HasPlaces, HasPlaces-update, vm_update-stored, vm_resolve-places}
use user_level_mmap.Kernel.Device.{Reply, entry, vm_resolve, vm_update, device_ioctl}

-- Words of 64 bits stay so.
pub words-update :
    (mem : ℕ → ℕ) (a v : ℕ)
    → v < 2 ^ 64
    → ((x : ℕ) → mem x < 2 ^ 64)
    → (x : ℕ) → update mem a v x < 2 ^ 64
words-update mem a v small words x = ground (arith, words x)

module _ (k : Linux) where
  -- The structure that `ptedit_resolve_kernel` hands to the ioctl.
  abbrev pub query : (address pid : ℕ) → Entry
  query address pid = record {
    pid = pid;
    vaddr = address;
    pgd = 0;
    p4d = 0;
    pud = 0;
    pmd = 0;
    pte = 0;
    valid = 0;
  }

  -- What the ioctl leaves in it.
  abbrev pub entry_of : Reply → Entry → Entry
  entry_of (entry e) vm = e
  entry_of _ vm = vm

  unfoldable pub resolve_kernel : (address pid : ℕ) → Module → Entry
  resolve_kernel address pid s =
      entry_of (device_ioctl k (vm_resolve (query address pid)) s).0 (query address pid)

  pub update_kernel : (address pid : ℕ) → Entry → Module → Module
  update_kernel address pid vm s =
      (device_ioctl k (vm_update (record vm { vaddr = address; pid = pid })) s).1

  abbrev pub kernel : Implementation
  kernel = record { State = Module; resolve = resolve_kernel; update = update_kernel }

  -- The process has an address space whose tables lead to a PTE, and memory holds words of 64 bits.
  pub record HasPte (pid address : ℕ) (s : Module) : Type 0 where
    pub mm : ℕ
    pub found : get_mm k pid ≡ some mm
    pub p1 : ℕ
    pub p2 : ℕ
    pub p3 : ℕ
    pub p4 : ℕ
    pub p5 : ℕ
    pub places : HasPlaces k s.mem (s.pgd mm) address p1 p2 p3 p4 p5
    pub words : (x : ℕ) → s.mem x < 2 ^ 64

  -- The kernel finds the entries of an address by the bits above the page offset.
  pub record ByPage : Type 0 where
    pub pgd_page : (pgd a b : ℕ) → a / 2 ^ 12 ≡ b / 2 ^ 12 → k.pgd_offset pgd a ≡ k.pgd_offset pgd b
    pub p4d_page : (x w a b : ℕ) → a / 2 ^ 12 ≡ b / 2 ^ 12 → k.p4d_offset x w a ≡ k.p4d_offset x w b
    pub pud_page : (x w a b : ℕ) → a / 2 ^ 12 ≡ b / 2 ^ 12 → k.pud_offset x w a ≡ k.pud_offset x w b
    pub pmd_page : (x w a b : ℕ) → a / 2 ^ 12 ≡ b / 2 ^ 12 → k.pmd_offset x w a ≡ k.pmd_offset x w b
    pub pte_page :
        (x w a b : ℕ) → a / 2 ^ 12 ≡ b / 2 ^ 12 → k.pte_offset_map x w a ≡ k.pte_offset_map x w b

  HasPlaces-page :
      (page : ByPage) (mem : ℕ → ℕ) (pgd a b p1 p2 p3 p4 p5 : ℕ)
      → a / 2 ^ 12 ≡ b / 2 ^ 12
      → HasPlaces k mem pgd b p1 p2 p3 p4 p5
      → HasPlaces k mem pgd a p1 p2 p3 p4 p5
  HasPlaces-page page mem pgd a b p1 p2 p3 p4 p5 e h = record {
    at1 = page.pgd_page pgd a b e ∙ h.at1;
    ok1 = h.ok1;
    at2 = page.p4d_page _ _ a b e ∙ h.at2;
    ok2 = h.ok2;
    at3 = page.pud_page _ _ a b e ∙ h.at3;
    ok3 = h.ok3;
    at4 = page.pmd_page _ _ a b e ∙ h.at4;
    ok4 = h.ok4;
    at5 = page.pte_page _ _ a b e ∙ h.at5;
    ok5 = h.ok5;
    nonnull = h.nonnull;
    apart = h.apart;
  }

  -- What `ptedit_resolve_kernel` returns where there is a PTE.
  resolve_kernel-places :
      (address pid : ℕ) (s : Module) (h : HasPte pid address s)
      → ((resolve_kernel address pid s).valid ≡ 31)
        × ((resolve_kernel address pid s).pte ≡ s.mem h.p5)
  unfolding resolve_kernel
  resolve_kernel-places address pid s h =
      let e =
        vm_resolve-places k (s.pgd h.mm) address h.p1 h.p2 h.p3 h.p4 h.p5 h.mm (query address pid) s
          h.found refl h.places refl in
      (
        ap (λ r. (entry_of r (query address pid)).valid) e,
        ap (λ r. (entry_of r (query address pid)).pte) e,
      )

  -- What `ptedit_update_kernel` does to memory, asked to change the PTE alone.
  update_kernel-stored :
      (address pid : ℕ) (vm : Entry) (s : Module) (h : HasPte pid address s)
      → vm.valid ≡ valid_mask_pte
      → ((update_kernel address pid vm s).mem ≡ update s.mem h.p5 vm.pte)
        × ((update_kernel address pid vm s).pgd ≡ s.pgd)
  unfolding update_kernel
  update_kernel-stored address pid vm s h only =
      vm_update-stored k (s.pgd h.mm) address h.p1 h.p2 h.p3 h.p4 h.p5 h.mm
        (record vm { vaddr = address; pid = pid }) s h.found refl h.places only refl

  abbrev HasPte-update :
      (address pid : ℕ) (vm : Entry) (s : Module)
      → vm.valid ≡ valid_mask_pte
      → vm.pte < 2 ^ 64
      → HasPte pid address s
      → HasPte pid address (update_kernel address pid vm s)
  HasPte-update address pid vm s only small h =
      let (mem', pgd') = update_kernel-stored address pid vm s h only in
      record {
        mm = h.mm;
        found = h.found;
        p1 = h.p1;
        p2 = h.p2;
        p3 = h.p3;
        p4 = h.p4;
        p5 = h.p5;
        places =
            rw (mem', pgd')
              (HasPlaces-update k (s.pgd h.mm) address h.p1 h.p2 h.p3 h.p4 h.p5 s.mem vm.pte
                h.places);
        words = λ x. rw mem' (words-update s.mem h.p5 vm.pte small h.words x);
      }

  -- Where the kernel finds the entries of an address by its page, PTEDIT_IMPL_KERNEL keeps what the
  -- interface promises of `ptedit_resolve` and `ptedit_update`, of every process whose tables lead
  -- to a PTE for the address: it is reported as valid, an update of it is what the next resolution
  -- reports, and all addresses of a page have the same one.
  pub kernel-IsImplementation : ByPage → IsImplementation kernel
  kernel-IsImplementation page = record {
    Mapped = HasPte;
    resolve_marked = λ pid address s h.
        ap (λ v. test v valid_mask_pte) (resolve_kernel-places address pid s h).0;
    resolve_lt = λ pid address s h. rw (resolve_kernel-places address pid s h).1 (h.words h.p5);
    update_Mapped = λ pid address vm s only small h. HasPte-update address pid vm s only small h;
    resolve_update = λ pid address vm s only small h.
        (resolve_kernel-places address pid (update_kernel address pid vm s)
          (HasPte-update address pid vm s only small h)).1
        ∙ ap (λ (m : ℕ → ℕ). m h.p5) (update_kernel-stored address pid vm s h only).0
        ∙ ground arith;
    resolve_same_page = λ pid address address' s h e.
        (resolve_kernel-places address' pid s (record {
          mm = h.mm;
          found = h.found;
          p1 = h.p1;
          p2 = h.p2;
          p3 = h.p3;
          p4 = h.p4;
          p5 = h.p5;
          places =
              HasPlaces-page page s.mem (s.pgd h.mm) address' address h.p1 h.p2 h.p3 h.p4 h.p5 e
                h.places;
          words = h.words;
        })).1
        ∙ sym (resolve_kernel-places address pid s h).1;
  }
