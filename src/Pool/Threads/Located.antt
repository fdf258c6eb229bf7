-- ===== src/Pool/Threads/Located.antt =====
-- What it means that a page is at a place, before and after a step of a thread (src/phy_page_pool.h).
use user_level_mmap.Base.{
  ℕ, ◌<◌, ◌≡◌, ◌≢◌, true, List, [], ◌∷◌, inl, inr, arith, ◌==◌, Bool-cases, update, has,
}
use user_level_mmap.Pool.{null}
use user_level_mmap.Pool.Threads.{Pc, without}
use user_level_mmap.Pool.Threads.Invariant.{Place, freed, kept, with_thread, owned}

abbrev pub IsAt : (n : ℕ) → (ℕ → List ℕ) → (held : List ℕ) → (ℕ → Pc) → Place → ℕ → Type 0
IsAt n free held pc (freed i) p = (i < n) × (has p (free i) ≡ true)
IsAt n free held pc kept p = has p held ≡ true
IsAt n free held pc (with_thread t) p = owned (pc t) ≡ p

pub has-without_keep :
    (a p : ℕ) (xs : List ℕ) → p ≢ a → has p xs ≡ true → has p (without a xs) ≡ true
has-without_keep a p [] ne h = h
has-without_keep a p (x ∷ xs) ne h = ground (arith, ne, has-without_keep a p xs ne)

-- What threads own after thread `t` has stepped from `p` to `p'`.
pub owned-update :
    (pc : ℕ → Pc) (t : ℕ) {p : Pc} (p' : Pc) (page : ℕ)
    → pc t ≡ p
    → ((q : ℕ) → q ≢ page → q ≢ null → owned p ≡ q → owned p' ≡ q)
    → (u q : ℕ) → q ≢ page
    → q ≢ null
    → owned (pc u) ≡ q
    → owned (update pc t p' u) ≡ q
owned-update pc t p' page e own u q ne real h = elim (Bool-cases (t == u)) [
  | inl here ↦
      let same : u ≡ t = ground arith in
      let k : owned (pc t) ≡ q = rw same at h in rw here (own q ne real (rw e at k))
  | inr there ↦ rw there h
]

module _ (n : ℕ) (free free' : ℕ → List ℕ) (held held' : List ℕ) (pc pc' : ℕ → Pc) where
  -- A step under which lists only grow, but for `page`, and other pages stay with their threads.
  pub record Keeps (page : ℕ) : Type 0 where
    pub keeps_free : (i p : ℕ) → p ≢ page → has p (free i) ≡ true → has p (free' i) ≡ true
    pub keeps_held : (p : ℕ) → p ≢ page → has p held ≡ true → has p held' ≡ true
    pub keeps_owned : (t p : ℕ) → p ≢ page → p ≢ null → owned (pc t) ≡ p → owned (pc' t) ≡ p

  IsAt-other :
      (page : ℕ) (x : Place) (p : ℕ)
      → Keeps page
      → p ≢ page
      → p ≢ null
      → IsAt n free held pc x p
      → IsAt n free' held' pc' x p
  IsAt-other page (freed i) p keeps ne real (lt, h) = (lt, keeps.keeps_free i p ne h)
  IsAt-other page kept p keeps ne real h = keeps.keeps_held p ne h
  IsAt-other page (with_thread t) p keeps ne real h = keeps.keeps_owned t p ne real h

  -- The page goes to `x`.
  pub IsAt-moved :
      (place : ℕ → Place) (page : ℕ) (x : Place)
      → Keeps page
      → IsAt n free' held' pc' x page
      → (p : ℕ) → p ≢ null
      → IsAt n free held pc (place p) p
      → IsAt n free' held' pc' (update place page x p) p
  IsAt-moved place page x keeps now p real h = elim (Bool-cases (page == p)) [
    | inl here ↦ let e : p ≡ page = ground arith in rw (here, e) now
    | inr there ↦
        let ne : p ≢ page = ground arith in rw there (IsAt-other page (place p) p keeps ne real h)
  ]

  -- No page is moved.
  pub IsAt-still :
      (place : ℕ → Place)
      → Keeps null
      → (p : ℕ) → p ≢ null
      → IsAt n free held pc (place p) p
      → IsAt n free' held' pc' (place p) p
  IsAt-still place keeps p real h = IsAt-other null (place p) p keeps real real h
