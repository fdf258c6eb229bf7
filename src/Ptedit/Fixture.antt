-- ===== src/Ptedit/Fixture.antt =====
-- A page table of four levels for the first pages of an address space, for the examples.
use user_level_mmap.Base.{
  ℕ, ◌+◌, ◌*◌, ◌/◌, ◌^◌, ◌<◌, ◌≡◌, ◌≢◌, refl, ap, ◌∙◌, some, [], ◌∷◌, arith, ◌==◌, if◌then◌else◌,
  has,
}
use user_level_mmap.Ptedit.Entry.{Entry, valid_mask_pte}
use user_level_mmap.Ptedit.Walk.{x86_64_paging, clean_root, Machine, resolve_user_map}
use user_level_mmap.Ptedit.Walk.Spec.{above, indices}
use user_level_mmap.Ptedit.Walk.Update.{walk_of, IsLeaf, IsResolved-leaf}
use user_level_mmap.Ptedit.UserMap.{HasPte, LaidOut}

-- The tables lie at 0x1000, 0x2000, 0x3000 and 0x4000; the last one maps the first two pages.
abbrev pub tables : ℕ → ℕ
tables a =
    if a == 0x1000
    then 0x2001
    else (if a == 0x2000
        then 0x3001
        else (if a == 0x3000
            then 0x4001
            else (if a == 0x4000 then 0x5007 else (if a == 0x4008 then 0x6007 else 0))))

abbrev pub machine : Machine
machine = record { mem = tables; paging_root = λ _. 0x1000; flushed = [] }

abbrev pub vm : Entry
vm = record {
  pid = 0;
  vaddr = 0;
  pgd = 0;
  p4d = 0;
  pud = 0;
  pmd = 0;
  pte = 0x9007;
  valid = valid_mask_pte;
}

pub root-ne-zero : clean_root (machine.paging_root 0) ≢ 0
root-ne-zero = omega arith

pub first-IsLeaf : IsLeaf machine 0 0 0x4000
first-IsLeaf = (refl, refl)

pub tables-words : (x : ℕ) → tables x < 2 ^ 64
tables-words x = ground arith

-- An address in the first page, and the first one of the second page.
pub first-HasPte : HasPte 0 0x123 machine
first-HasPte = record {
  rooted = root-ne-zero;
  place = 0x4000;
  leaf = (refl, refl);
  words = tables-words;
}

pub second-HasPte : HasPte 0 0x1000 machine
second-HasPte = record {
  rooted = root-ne-zero;
  place = 0x4008;
  leaf = (refl, refl);
  words = tables-words;
}

-- Five pages, with their PTEs in one table.
abbrev pub five_tables : ℕ → ℕ
five_tables a =
    if a == 0x4010
    then 0x7007
    else (if a == 0x4018 then 0x8007 else (if a == 0x4020 then 0x9007 else tables a))

abbrev pub five_machine : Machine
five_machine = record { mem = five_tables; paging_root = λ _. 0x1000; flushed = [] }

-- Some addresses in them.
pub data SomePages : ℕ → Type 0 where
  in_0 : SomePages 0x123
  at_1 : SomePages 0x1000
  at_2 : SomePages 0x2000
  in_2 : SomePages 0x2fff
  at_3 : SomePages 0x3000
  at_4 : SomePages 0x4000

five-leads : (a : ℕ) → SomePages a → walk_of five_machine 0 a ≡ some (0x4000 + a / 4096 * 8)
five-leads a in_0 = refl
five-leads a at_1 = refl
five-leads a at_2 = refl
five-leads a in_2 = refl
five-leads a at_3 = refl
five-leads a at_4 = refl

five-above :
    (a : ℕ)
    → SomePages a
    → above five_tables (clean_root 0x1000) (indices x86_64_paging a)
      ≡ 0x1000 ∷ 0x2000 ∷ 0x3000 ∷ []
five-above a in_0 = refl
five-above a at_1 = refl
five-above a at_2 = refl
five-above a in_2 = refl
five-above a at_3 = refl
five-above a at_4 = refl

pub five-LaidOut : LaidOut SomePages five_machine
five-LaidOut = record {
  rooted = omega arith;
  place = λ a. 0x4000 + a / 4096 * 8;
  leads = five-leads;
  below = λ a b on on'. ap (has (0x4000 + a / 4096 * 8)) (five-above b on') ∙ ground arith;
  apart = λ a b on on' ne e. ne (omega (arith, e));
  words = λ x. ground (arith, tables-words x);
}

pub five-pte :
    (a : ℕ)
    → SomePages a
    → (resolve_user_map x86_64_paging a 0 five_machine).pte ≡ five_tables (0x4000 + a / 4096 * 8)
five-pte a on =
    (IsResolved-leaf a 0 (0x4000 + a / 4096 * 8) five_machine (omega arith) (five-leads a on)).1
