-- ===== src/Cache/DataFile.antt =====
-- `check_data_file`: the file behind the pages is created where it is missing, and opened.
use user_level_mmap.Base.{
  ℕ, ◌-◌, ◌*◌, ◌≤◌, ◌≡◌, refl, Bool, true, false, Option, none, some, List, [], ◌∷◌, arith, ◌==◌,
  ltb, if◌then◌else◌, Bool-cases, inl, inr,
}
use user_level_mmap.Cache.{page_size, num_pages}

-- What the calls reply; `none` is -1, and `stat` has the size that `fstat` finds.
pub record FileReplies : Type 0 where
  pub good : Bool
  pub create : Option ℕ
  pub lseek_failed : Bool
  pub write_failed : Bool
  pub opened_fd : Option ℕ
  pub stat : Option ℕ

-- What was done to descriptors.
pub data Action : Type 0 where
  opened closed : (fd : ℕ) → Action
  wrote_last_byte : (fd position : ℕ) → Action

abbrev pub file_size : ℕ
file_size = num_pages * page_size

-- The part that creates the file, with the actions so far, the last one first; `none` is the
-- return of -1.
pub create_file : FileReplies → Bool × List Action
create_file r = elim r.create [
  | none ↦ (false, [])
  | some fd ↦
      if r.lseek_failed
      then (false, closed fd ∷ opened fd ∷ [])
      else (if r.write_failed
          then (false, closed fd ∷ opened fd ∷ [])
          else (true, closed fd ∷ wrote_last_byte fd (file_size - 1) ∷ opened fd ∷ []))
]

-- From the second `open` on, by its reply and the size that `fstat` finds.
pub open_with : (opened_fd stat : Option ℕ) → List Action → Option ℕ × List Action
open_with none stat before = (none, before)
open_with (some fd) none before = (none, closed fd ∷ opened fd ∷ before)
open_with (some fd) (some size) before =
    if ltb size file_size
    then (none, closed fd ∷ opened fd ∷ before)
    else (some fd, opened fd ∷ before)

abbrev pub open_file : FileReplies → List Action → Option ℕ × List Action
open_file r before = open_with r.opened_fd r.stat before

-- With the file there, or after the attempt to create it.
pub check_with : (good : Bool) → FileReplies → Bool × List Action → Option ℕ × List Action
check_with true r created = open_file r []
check_with false r (true, acts) = open_file r acts
check_with false r (false, acts) = (none, acts)

pub check_data_file : FileReplies → Option ℕ × List Action
check_data_file r = check_with r.good r (create_file r)

-- The descriptors that are open after some actions.
abbrev pub drop : ℕ → List ℕ → List ℕ
drop fd [] = []
drop fd (x ∷ xs) = let rest = drop fd xs in if fd == x then xs else x ∷ rest

abbrev pub still_open : List Action → List ℕ
still_open [] = []
still_open (opened fd ∷ acts) = fd ∷ still_open acts
still_open (closed fd ∷ acts) = drop fd (still_open acts)
still_open (wrote_last_byte fd position ∷ acts) = still_open acts

abbrev pub result_list : Option ℕ → List ℕ
result_list none = []
result_list (some fd) = fd ∷ []

create_file-closes : (r : FileReplies) → still_open (create_file r).1 ≡ []
unfolding create_file
create_file-closes r = ground arith

open_with-closes :
    (o t : Option ℕ) (before : List Action)
    → still_open before ≡ []
    → (let (fd, acts) = open_with o t before in still_open acts ≡ result_list fd)
unfolding open_with
open_with-closes none t before e = e
open_with-closes (some fd) none before e = ground (arith, e)
open_with-closes (some fd) (some size) before e = ground (arith, e)

check_with-closes :
    (good : Bool) (r : FileReplies) (created : Bool × List Action)
    → still_open created.1 ≡ []
    → (let (fd, acts) = check_with good r created in still_open acts ≡ result_list fd)
unfolding check_with
check_with-closes true r created e = open_with-closes r.opened_fd r.stat [] refl
check_with-closes false r (true, acts) e = open_with-closes r.opened_fd r.stat acts e
check_with-closes false r (false, acts) e = e

open_with-size :
    (o t : Option ℕ) (before : List Action) (fd : ℕ)
    → (open_with o t before).0 ≡ some fd
    → (o ≡ some fd) × (size : ℕ) × (t ≡ some size) × (file_size ≤ size)
unfolding open_with
open_with-size none t before fd e = cc
open_with-size (some x) none before fd e = cc
open_with-size (some x) (some size) before fd e = elim (Bool-cases (ltb size file_size)) [
  | inl small ↦ let q : ◌≡◌ {A = Option ℕ} none (some fd) = rw small at e in cc
  | inr large ↦
      let q : ◌≡◌ {A = Option ℕ} (some x) (some fd) = rw large at e in (q, size, refl, ground arith)
]

check_with-size :
    (good : Bool) (r : FileReplies) (created : Bool × List Action) (fd : ℕ)
    → (check_with good r created).0 ≡ some fd
    → (r.opened_fd ≡ some fd) × (size : ℕ) × (r.stat ≡ some size) × (file_size ≤ size)
unfolding check_with
check_with-size true r created fd e = open_with-size r.opened_fd r.stat [] fd e
check_with-size false r (true, acts) fd e = open_with-size r.opened_fd r.stat acts fd e
check_with-size false r (false, acts) fd e = cc

-- Whatever the calls reply, `check_data_file` leaves open the descriptor that it returns and no
-- other; and one that it returns is the descriptor of a file with room for all pages.
pub check_data_file-closes :
    (r : FileReplies)
    → (let (result, acts) = check_data_file r in
        (still_open acts ≡ result_list result)
        × ((fd : ℕ)
            → result ≡ some fd
            → (r.opened_fd ≡ some fd) × (size : ℕ) × (r.stat ≡ some size) × (file_size ≤ size)))
unfolding check_data_file
check_data_file-closes r = (
  check_with-closes r.good r (create_file r) (create_file-closes r),
  check_with-size r.good r (create_file r),
)
