-- ===== src/Pool/Threads/Invariant.antt =====
-- Where every page is, while threads allocate and free: in one free list, in the hands of the
-- callers, or with one thread that takes it out or puts it back.
use user_level_mmap.Base.{ℕ, ◌<◌, ◌≡◌, ◌≢◌, true, false, List, has, Distinct}
use user_level_mmap.Pool.{null, MemoryPool, home}
use user_level_mmap.Pool.Invariant.{Chain}
use user_level_mmap.Pool.Threads.{
  Pc, load_head, load_next, pop, count_down, scan, raise, free_load, free_store, push,
}

pub data Place : Type 0 where
  freed : (i : ℕ) → Place
  kept : Place
  with_thread : (t : ℕ) → Place

-- The page that a thread has for itself, or `null`.
abbrev pub owned : Pc → ℕ
owned (count_down i page) = page
owned (free_load ptr) = ptr
owned (free_store ptr expected) = ptr
owned (push ptr expected) = ptr
owned _ = null

-- What the locals of a thread say about shared memory, with `n` pools.
abbrev pub IsFresh : (n : ℕ) → (next : ℕ → ℕ) → (ℕ → List ℕ) → Pc → Type 0
IsFresh n next free (load_head i) = i < n
IsFresh n next free (load_next i page) = (i < n) × (page ≢ null)
IsFresh n next free (pop i page after) =
    (i < n) × (page ≢ null) × (has page (free i) ≡ true → next page ≡ after)
IsFresh n next free (scan k richest max_remain has_page) = richest < n
IsFresh n next free (raise k) = k < n
IsFresh n next free (free_load ptr) = ptr ≢ null
IsFresh n next free (free_store ptr expected) = ptr ≢ null
IsFresh n next free (push ptr expected) = (ptr ≢ null) × (next ptr ≡ expected)
IsFresh n next free _ = Unit

pub record Inv (s : MemoryPool) (held : List ℕ) (pc : ℕ → Pc) (free : ℕ → List ℕ)
    (place : ℕ → Place) : Type 0 where
  pub some_pool : 0 < s.num_pools
  pub chains : (i : ℕ) → i < s.num_pools → Chain s.next (s.local_pools i) (free i)
  pub homes : (i p : ℕ) → i < s.num_pools → has p (free i) ≡ true → home s p ≡ i
  pub distinct : (i : ℕ) → i < s.num_pools → Distinct (free i)
  pub distinct_held : Distinct held
  pub null_held : has null held ≡ false
  pub freed_at : (i p : ℕ) → i < s.num_pools → has p (free i) ≡ true → place p ≡ freed i
  pub kept_at : (p : ℕ) → has p held ≡ true → place p ≡ kept
  pub thread_at : (t : ℕ) → owned (pc t) ≢ null → place (owned (pc t)) ≡ with_thread t
  pub fresh : (t : ℕ) → IsFresh s.num_pools s.next free (pc t)
