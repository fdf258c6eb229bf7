-- ===== src/Cache/State.antt =====
-- The lock bit of a page state, and what setting and clearing it leaves alone.
use user_level_mmap.Base.{ℕ, ◌≡◌, Bool, true, false, arith}
use user_level_mmap.Cache.{
  set_field, is_evicted, is_marked, is_unlocked, set_evicted, set_marked, unsafe_lock, set_unlocked,
  locked_state,
}

-- Unlocking a state that was locked for the first time gives the state before.
pub set_unlocked-locked_state : (s : ℕ) → is_unlocked s ≡ true → set_unlocked (locked_state s) ≡ s
unfolding is_unlocked set_unlocked locked_state unsafe_lock set_field
set_unlocked-locked_state s e = ground arith

-- What the fields of a state are after an operation.
pub record Fields (s : ℕ) (evicted marked unlocked : Bool) : Type 0 where
  pub evicted_field : is_evicted s ≡ evicted
  pub marked_field : is_marked s ≡ marked
  pub unlocked_field : is_unlocked s ≡ unlocked

pub Fields-locked_state : (s : ℕ) → Fields (locked_state s) (is_evicted s) (is_marked s) false
unfolding is_evicted is_marked is_unlocked locked_state unsafe_lock set_field
Fields-locked_state s = record {
  evicted_field = ground arith;
  marked_field = ground arith;
  unlocked_field = ground arith;
}

pub Fields-set_unlocked : (s : ℕ) → Fields (set_unlocked s) (is_evicted s) (is_marked s) true
unfolding is_evicted is_marked is_unlocked set_unlocked set_field
Fields-set_unlocked s = record {
  evicted_field = ground arith;
  marked_field = ground arith;
  unlocked_field = ground arith;
}

pub Fields-set_marked : (s : ℕ) → Fields (set_marked s) (is_evicted s) true (is_unlocked s)
unfolding is_evicted is_marked is_unlocked set_marked set_field
Fields-set_marked s = record {
  evicted_field = ground arith;
  marked_field = ground arith;
  unlocked_field = ground arith;
}

pub Fields-set_evicted : (s : ℕ) → Fields (set_evicted s) true false true
unfolding is_evicted is_marked is_unlocked set_evicted set_field
Fields-set_evicted s = record {
  evicted_field = ground arith;
  marked_field = ground arith;
  unlocked_field = ground arith;
}
