-- ===== src/Ptedit/Walk/Spec.antt =====
-- The walk as a recursion on the list of indices, and the entries that it passes through.
use user_level_mmap.Base.{
  ℕ, ◌*◌, ◌≡◌, refl, false, ◌&&◌, Option, none, some, List, [], ◌∷◌, arith, ◌==◌, if◌then◌else◌,
  update, has,
}
use user_level_mmap.Ptedit.Entry.{present, size, pfn}
use user_level_mmap.Ptedit.Walk.{PagingDefinition, root_slot, pgdi, pudi, pmdi, pti}

-- The address of the last entry that the indices lead to from the table at `base`. A present
-- entry leads to the table in its frame; one of the last level but one must not map a large page.
abbrev pub walk : (ℕ → ℕ) → ℕ → List ℕ → Option ℕ
walk mem base [] = none
walk mem base (i ∷ []) = some (root_slot base i)
walk mem base (i ∷ j ∷ []) =
    let entry = mem (root_slot base i) in
    if (present entry == 1) && (size entry == 0)
    then some (root_slot (pfn entry * 4096) j)
    else none
walk mem base (i ∷ j ∷ k ∷ is) =
    let entry = mem (root_slot base i) in
    let rest = walk mem (pfn entry * 4096) (j ∷ k ∷ is) in if present entry == 1 then rest else none

-- The addresses of the entries above the last level, as far as the tables go.
abbrev pub above : (ℕ → ℕ) → ℕ → List ℕ → List ℕ
above mem base [] = []
above mem base (i ∷ []) = []
above mem base (i ∷ j ∷ is) =
    root_slot base i ∷ above mem (pfn (mem (root_slot base i)) * 4096) (j ∷ is)

-- The indices of an address, for the four levels of x86_64.
abbrev pub indices : PagingDefinition → ℕ → List ℕ
indices d addr = pgdi d addr ∷ pudi d addr ∷ pmdi d addr ∷ pti d addr ∷ []

-- A write outside the entries above the last level leads the walk to the same place.
pub walk-update :
    (mem : ℕ → ℕ) (a v base : ℕ) (is : List ℕ)
    → has a (above mem base is) ≡ false
    → walk (update mem a v) base is ≡ walk mem base is
walk-update mem a v base [] out = refl
walk-update mem a v base (i ∷ []) out = refl
walk-update mem a v base (i ∷ j ∷ []) out =
    let same : update mem a v (root_slot base i) ≡ mem (root_slot base i) = ground arith in rw same
walk-update mem a v base (i ∷ j ∷ k ∷ is) out =
    let same : update mem a v (root_slot base i) ≡ mem (root_slot base i) = ground arith in
    let ih =
      walk-update mem a v (pfn (mem (root_slot base i)) * 4096) (j ∷ k ∷ is) (ground arith) in
    rw (same, ih)

pub above-update :
    (mem : ℕ → ℕ) (a v base : ℕ) (is : List ℕ)
    → has a (above mem base is) ≡ false
    → above (update mem a v) base is ≡ above mem base is
above-update mem a v base [] out = refl
above-update mem a v base (i ∷ []) out = refl
above-update mem a v base (i ∷ j ∷ is) out =
    let same : update mem a v (root_slot base i) ≡ mem (root_slot base i) = ground arith in
    let ih = above-update mem a v (pfn (mem (root_slot base i)) * 4096) (j ∷ is) (ground arith) in
    rw (same, ih)
