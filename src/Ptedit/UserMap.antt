-- ===== src/Ptedit/UserMap.antt =====
-- The implementation PTEDIT_IMPL_USER fills the interface: `ptedit_resolve_user_map` and
-- `ptedit_update_user_map` over physical memory on x86_64.
use user_level_mmap.Base.{
  ℕ, ◌/◌, ◌%◌, ◌^◌, ◌<◌, ◌≡◌, ◌≢◌, sym, ◌∙◌, [], ◌∷◌, arith, some, has, ap, false,
}
use mathlib.Core.Path.{subst}
use user_level_mmap.Ptedit.Walk.{
  x86_64_paging, clean_root, Machine, resolve_user_map, update_user_map,
}
use user_level_mmap.Ptedit.Walk.Spec.{walk, above, indices}
use user_level_mmap.Ptedit.Walk.Update.{
  walk_of, IsLeaf, IsResolved-leaf, resolve-update, IsLeaf-update, mem-update-lt,
  paging_root-update, walk_of-update, resolve-update_ne,
}
use user_level_mmap.Ptedit.Interface.{Implementation, IsImplementation, IsSeparate}
use user_level_mmap.Ptedit.Entry.{Entry, valid_mask_pte}

abbrev pub user_map : Implementation
user_map = record {
  State = Machine;
  resolve = λ address pid m. resolve_user_map x86_64_paging address pid m;
  update = λ address pid vm m. update_user_map x86_64_paging address pid vm m;
}

-- The process has a root, the walk leads to a PTE that is not one of the entries above it, and
-- memory holds words of 64 bits.
pub record HasPte (pid address : ℕ) (m : Machine) : Type 0 where
  pub rooted : clean_root (m.paging_root pid) ≢ 0
  pub place : ℕ
  pub leaf : IsLeaf m pid address place
  pub words : (x : ℕ) → m.mem x < 2 ^ 64

-- The walk reads only the bits of an address above the page offset.
pub walk-same_page :
    (m : Machine) (pid address address' : ℕ)
    → address' / 2 ^ 12 ≡ address / 2 ^ 12
    → walk_of m pid address' ≡ walk_of m pid address
walk-same_page m pid address address' same =
    let e4 : address' / 2 ^ 39 % 2 ^ 9 ≡ address / 2 ^ 39 % 2 ^ 9 = omega arith in
    let e3 : address' / 2 ^ 30 % 2 ^ 9 ≡ address / 2 ^ 30 % 2 ^ 9 = omega arith in
    let e2 : address' / 2 ^ 21 % 2 ^ 9 ≡ address / 2 ^ 21 % 2 ^ 9 = omega arith in
    let e1 : address' / 2 ^ 12 % 2 ^ 9 ≡ address / 2 ^ 12 % 2 ^ 9 = omega arith in
    λ i. walk m.mem (clean_root (m.paging_root pid)) (e4 i ∷ e3 i ∷ e2 i ∷ e1 i ∷ [])

-- What is promised of the two function pointers holds of the implementation that works on mapped
-- physical memory.
abbrev pub user_map-IsImplementation : IsImplementation user_map
user_map-IsImplementation = record {
  Mapped = HasPte;
  resolve_marked = λ pid address m h. (IsResolved-leaf address pid h.place m h.rooted h.leaf.0).0;
  resolve_lt = λ pid address m h.
      subst (λ w. w < 2 ^ 64) (sym (IsResolved-leaf address pid h.place m h.rooted h.leaf.0).1)
        (h.words h.place);
  update_Mapped = λ pid address vm m only small h. record {
    rooted =
        subst (λ r. clean_root (r pid) ≢ 0)
          (sym (paging_root-update address pid h.place vm m only h.rooted h.leaf)) h.rooted;
    place = h.place;
    leaf = IsLeaf-update address pid h.place vm m only h.rooted h.leaf;
    words = mem-update-lt address pid h.place vm m only h.rooted h.leaf small h.words;
  };
  resolve_update = λ pid address vm m only small h.
      (resolve-update address pid h.place vm m only h.rooted h.leaf).1;
  resolve_same_page = λ pid address address' m h same.
      (IsResolved-leaf address' pid h.place m h.rooted
        (walk-same_page m pid address address' same ∙ h.leaf.0)).1
      ∙ sym (IsResolved-leaf address pid h.place m h.rooted h.leaf.0).1;
}

-- The walk of each page leads to its place, which no walk of the pages passes.
pub record LaidOut (pages : ℕ → Type 0) (m : Machine) : Type 0 where
  pub rooted : clean_root (m.paging_root 0) ≢ 0
  pub place : ℕ → ℕ
  pub leads : (a : ℕ) → pages a → walk_of m 0 a ≡ some (place a)
  pub below :
      (a b : ℕ)
      → pages a
      → pages b
      → has (place a) (above m.mem (clean_root (m.paging_root 0)) (indices x86_64_paging b)) ≡ false
  pub apart : (a b : ℕ) → pages a → pages b → a / 2 ^ 12 ≢ b / 2 ^ 12 → place a ≢ place b
  pub words : (x : ℕ) → m.mem x < 2 ^ 64

pub LaidOut-update :
    (pages : ℕ → Type 0) (address : ℕ) (vm : Entry) (m : Machine)
    → vm.valid ≡ valid_mask_pte
    → vm.pte < 2 ^ 64
    → LaidOut pages m
    → pages address
    → LaidOut pages (update_user_map x86_64_paging address 0 vm m)
LaidOut-update pages address vm m only small h here = record {
  rooted =
      subst (λ r. clean_root (r 0) ≢ 0)
        (sym (paging_root-update address 0 _ vm m only h.rooted leaf)) h.rooted;
  place = h.place;
  leads = λ a on.
      (walk_of-update address 0 _ vm m only h.rooted leaf 0 a (h.below address a here on)).0
      ∙ h.leads a on;
  below = λ a b on on'.
      ap (has (h.place a))
        (walk_of-update address 0 _ vm m only h.rooted leaf 0 b (h.below address b here on')).1
      ∙ h.below a b on on';
  apart = h.apart;
  words = mem-update-lt address 0 _ vm m only h.rooted leaf small h.words;
}
  where
    leaf : IsLeaf m 0 address (h.place address)
    leaf = (h.leads address here, h.below address address here here)

abbrev pub user_map-IsSeparate : IsSeparate user_map user_map-IsImplementation
user_map-IsSeparate = record {
  Laid = LaidOut;
  laid_Mapped = λ pages a m h on. record {
    rooted = h.rooted;
    place = h.place a;
    leaf = (h.leads a on, h.below a a on on);
    words = h.words;
  };
  update_Laid = LaidOut-update;
  resolve_update_ne = λ pages a b vm m only h on on' ne.
      resolve-update_ne a 0 (h.place a) vm m only h.rooted (h.leads a on, h.below a a on on) 0 b
        (h.place b) h.rooted (h.leads b on') (h.below a b on on') (h.apart a b on on' ne);
}
