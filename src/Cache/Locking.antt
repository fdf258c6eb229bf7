-- ===== src/Cache/Locking.antt =====
-- `fix` and `unfix` of one page by any number of threads: one access to the state of the page per
-- step, the store of `setUnlocked` as the load and the store of a word that it is.
use user_level_mmap.Base.{ℕ, ◌≡◌, ◌≢◌, refl, ap, ◌∙◌, Bool, true, false, ◌||◌, arith, update}
use user_level_mmap.Cache.{is_evicted, is_marked, is_unlocked, locked_state, set_unlocked}
use user_level_mmap.Cache.State.{Fields-locked_state, Fields-set_unlocked}

-- Where a thread stands, with the state that it has loaded.
pub data Pc : Type 0 where
  outside : Pc  -- at the head of the loop of `fix`, or not in it
  loaded : (s : ℕ) → Pc  -- after `auto s = ...`
  owner : Pc  -- between `fix` and `unfix`
  clearing : (s : ℕ) → Pc  -- in `setUnlocked`

pub data Move (w : ℕ) : Pc → ℕ → Pc → Type 0 where
  load : Move w outside w (loaded w)
  locked :
      {s : ℕ}
      → is_evicted s ≡ false
      → (is_marked s || is_unlocked s) ≡ true
      → w ≡ s
      → Move w (loaded s) (locked_state s) owner
  again : {s : ℕ} → Move w (loaded s) w outside
  unfix : Move w owner w (clearing w)
  unlocked : {s : ℕ} → Move w (clearing s) (set_unlocked s) outside

-- The state of the page and the threads.
pub record Page : Type 0 where
  pub word : ℕ
  pub pc : ℕ → Pc

pub data Step (c : Page) : Page → Type 0 where
  pick :
      (t : ℕ) {w : ℕ} {p : Pc}
      → Move c.word (c.pc t) w p
      → Step c (record { word = w; pc = update c.pc t p })

pub data Reach (s : ℕ) : Page → Type 0 where
  start : Reach s (record { word = s; pc = λ _. outside })
  later : {c d : Page} → Reach s c → Step c d → Reach s d

-- The thread has the page.
abbrev pub holds : Pc → Bool
holds owner = true
holds (clearing s) = true
holds _ = false

record Inv (w : ℕ) (pc : ℕ → Pc) : Type 0 where
  unmarked : is_marked w ≡ false
  closed : (t : ℕ) → holds (pc t) ≡ true → is_unlocked w ≡ false
  unique : (t u : ℕ) → holds (pc t) ≡ true → holds (pc u) ≡ true → t ≡ u
  current : (t s : ℕ) → pc t ≡ clearing s → w ≡ s

module _ {w : ℕ} {pc : ℕ → Pc} (inv : Inv w pc) (t : ℕ) where
  open inv use {unmarked, closed, unique, current}

  Move-Inv : {w' : ℕ} {p p' : Pc} → Move w p w' p' → pc t ≡ p → Inv w' (update pc t p')
  Move-Inv load e = record {
    unmarked = unmarked;
    closed = λ u h. ground (arith, closed u);
    unique = λ u v h h'. ground (arith, unique u v);
    current = λ u s q. ground (arith, current u s);
  }
  Move-Inv (locked {s} on allowed same) e =
      let plain : is_marked s ≡ false = rw same at unmarked in
      let open_before : is_unlocked w ≡ true = ground (arith, allowed, plain, same) in
      let nobody : (u : ℕ) → holds (pc u) ≡ false = λ u. ground (arith, closed u, open_before) in
      record {
        unmarked = (Fields-locked_state s).marked_field ∙ plain;
        closed = λ u h. (Fields-locked_state s).unlocked_field;
        unique = λ u v h h'. ground (arith, nobody u, nobody v);
        current = λ u x q. ground (arith, nobody u, ap holds q);
      }
  Move-Inv again e = record {
    unmarked = unmarked;
    closed = λ u h. ground (arith, closed u);
    unique = λ u v h h'. ground (arith, unique u v);
    current = λ u s q. ground (arith, current u s);
  }
  Move-Inv unfix e = record {
    unmarked = unmarked;
    closed = λ u h. ground (arith, closed u, closed t);
    unique = λ u v h h'. ground (arith, unique u v, unique t u, unique t v);
    current = λ u s q. ground (arith, current u s);
  }
  Move-Inv (unlocked {s}) e =
      let same : w ≡ s = current t s e in
      let mine : holds (pc t) ≡ true = rw e in
      let nobody : (u : ℕ) → t ≢ u → holds (pc u) ≡ false =
        λ u ne. ground (arith, unique t u mine) in
      record {
        unmarked = (Fields-set_unlocked s).marked_field ∙ (rw same at unmarked);
        closed = λ u h. ground (arith, nobody u);
        unique = λ u v h h'. ground (arith, nobody u, nobody v);
        current = λ u x q. ground (arith, nobody u, ap holds q);
      }

Reach-Inv : {s : ℕ} {c : Page} → is_marked s ≡ false → Reach s c → Inv c.word c.pc
Reach-Inv plain start = record {
  unmarked = plain;
  closed = λ t h. cc;
  unique = λ t u h h'. cc;
  current = λ t x q. cc;
}
Reach-Inv plain (later r (pick t mv)) = Move-Inv (Reach-Inv plain r) t mv refl

-- Mutual exclusion: while the state of a page was not marked at first, however the threads run, no
-- two of them have the page at once, and the state is locked while one has it.
pub Reach-one_owner :
    {s : ℕ} {c : Page}
    → is_marked s ≡ false
    → Reach s c
    → (t u : ℕ) → holds (c.pc t) ≡ true
    → holds (c.pc u) ≡ true
    → (t ≡ u) × (is_unlocked c.word ≡ false)
Reach-one_owner plain r t u h h' =
    let inv = Reach-Inv plain r in (inv.unique t u h h', inv.closed t h)

-- A page whose state is marked and not evicted is not exclusive: two threads get it, one after the
-- other, and neither has given it back.
pub marked-two_owners :
    (s : ℕ)
    → is_evicted s ≡ false
    → is_marked s ≡ true
    → (c : Page) × Reach s c × (c.pc 0 ≡ owner) × (c.pc 1 ≡ owner)
marked-two_owners s on marked = (
  _,
  later
      (later (later (later start (pick 0 load)) (pick 0 (locked on (rw marked) refl)))
        (pick 1 load))
      (pick 1 (
        locked ((Fields-locked_state s).evicted_field ∙ on)
          (rw ((Fields-locked_state s).marked_field, marked)) refl)),
  refl,
  refl,
)
