-- ===== src/Cache/Managers.antt =====
-- The three versions of `fix` and `unfix` do the same to the data of a page.
use user_level_mmap.Base.{
  ℕ, suc, Bool, ◌&&◌, ◌||◌, if◌then◌else◌, ◌+◌, ◌*◌, ◌%◌, ◌^◌, ◌≤◌, ◌<◌, ◌≡◌, refl, fun_ext, true,
  false, some, arith, ◌==◌, eq→==, ne→==, update,
}
use user_level_mmap.Cache.{
  page_size, num_pages, is_evicted, is_marked, is_unlocked, locked_state, set_unlocked, Cache, Fix,
  fixed, decide, vmcache_fix, vmcache_unfix, hash_fix, hash_unfix, neovmcache_fix, neovmcache_unfix,
  Manager, vmcache, hash, neovmcache, use_page,
}
use user_level_mmap.Cache.State.{set_unlocked-locked_state}

abbrev pub page_at : Cache → ℕ → ℕ
page_at c pid = c.virt_mem + pid * page_size

-- What the loop that times a manager relies on: while it is ready for a page, `fix` returns its
-- address, and `unfix` after the work leaves nothing changed but what the work did.
pub record IsManager (m : Manager) (Ready : Cache → Type 0) : Type 0 where
  pub access :
      (pid : ℕ) (c : Cache)
      → pid < num_pages
      → Ready c
      → (c' : Cache) × (m.fix pid c ≡ fixed (page_at c pid) c')
        × (m.unfix pid (page_at c pid) (use_page (page_at c pid) c') ≡ use_page (page_at c pid) c)
  pub still_ready :
      (pid : ℕ) (c : Cache) → pid < num_pages → Ready c → Ready (use_page (page_at c pid) c)

-- The page at this state can be fixed.
abbrev pub IsFree : ℕ → Type 0
IsFree s = (is_evicted s ≡ false) × (is_unlocked s ≡ true)

-- The pages end before the end of the address space.
abbrev pub Fits : Cache → Type 0
Fits c = c.virt_mem + num_pages * page_size ≤ 2 ^ 64

page-mod : (c : Cache) (pid : ℕ) → Fits c → pid < num_pages → page_at c pid % 2 ^ 64 ≡ page_at c pid
page-mod c pid fits lt = omega arith

relock :
    (s : ℕ → ℕ) (pid : ℕ)
    → IsFree (s pid)
    → update
        (update s pid (locked_state (s pid)))
        pid
        (set_unlocked (update s pid (locked_state (s pid)) pid))
      ≡ s
relock s pid free = fun_ext λ x. ground (arith, set_unlocked-locked_state (s pid) free.1)

-- A free page is taken in the first round.
decide-free :
    (s : ℕ) (more : Bool) (taken rest : Fix)
    → IsFree s
    → more ≡ true
    → decide s ((is_marked s || is_unlocked s) && more) taken rest ≡ taken
decide-free s more taken rest (off, free) e = rw (off, free, e) (or_true (is_marked s))
  where
    or_true : (b : Bool) → (if (b || true) && true then taken else rest) ≡ taken
    or_true true = refl
    or_true false = refl

and_true : (b : Bool) → (b && true) ≡ b
and_true true = refl
and_true false = refl

decide-open :
    (s : ℕ) (taken rest : Fix)
    → IsFree s
    → decide s (is_marked s || is_unlocked s) taken rest ≡ taken
decide-open s taken rest free =
    rw (← and_true (is_marked s || is_unlocked s)) (decide-free s true taken rest free refl)

abbrev pub StatesReady : Cache → Type 0
StatesReady c = Fits c × ((pid : ℕ) → pid < num_pages → IsFree (c.state pid))

abbrev pub TagsReady : Cache → Type 0
TagsReady c =
    (pid : ℕ) → pid < num_pages → IsFree (c.buf_tags pid) × (c.buf_table pid ≡ some (page_at c pid))

abbrev pub PagesReady : Cache → Type 0
PagesReady c =
    Fits c
    × ((pid : ℕ)
        → pid < num_pages
        → IsFree (c.word (page_at c pid)) × (c.word (page_at c pid + 8) ≡ 0))

pub vmcache-IsManager : (fuel : ℕ) → IsManager (vmcache (suc fuel)) StatesReady
unfolding vmcache_fix vmcache_unfix use_page
vmcache-IsManager fuel = record {
  access = λ pid c lt ready. (
    record c { state = update c.state pid (locked_state (c.state pid)) },
    rw (page-mod c pid ready.0 lt) (decide-open (c.state pid) _ _ (ready.1 pid lt)),
    λ i. record (use_page (page_at c pid) c) { state = relock c.state pid (ready.1 pid lt) i },
  );
  still_ready = λ pid c lt ready. ready;
}

pub hash-IsManager : (fuel : ℕ) → IsManager (hash (suc fuel)) TagsReady
unfolding hash_fix hash_unfix use_page
hash-IsManager fuel = record {
  access = λ pid c lt ready.
      let (free, page) = ready pid lt in
      (
        record c { buf_tags = update c.buf_tags pid (locked_state (c.buf_tags pid)) },
        rw page (decide-open (c.buf_tags pid) _ _ free),
        λ i. record (use_page (page_at c pid) c) { buf_tags = relock c.buf_tags pid free i },
      );
  still_ready = λ pid c lt ready. ready;
}

-- The work on a page does not read or write its first word.
sum-eq :
    (c : Cache) (p : ℕ)
    → (c.acc + update c.word p (locked_state (c.word p)) (p + 16)) % 2 ^ 64
      ≡ (c.acc + c.word (p + 16)) % 2 ^ 64
sum-eq c p = ground arith

relock_beside :
    (w : ℕ → ℕ) (p v v' : ℕ)
    → v ≡ v'
    → IsFree (w p)
    → (let w' = update (update w p (locked_state (w p))) (p + 16) v in
        update w' p (set_unlocked (w' p)) ≡ update w (p + 16) v')
relock_beside w p v v' e free = fun_ext λ x. ground (arith, set_unlocked-locked_state (w p) free.1)

pub neovmcache-IsManager : (fuel : ℕ) → IsManager (neovmcache (suc fuel)) PagesReady
unfolding neovmcache_fix neovmcache_unfix use_page
neovmcache-IsManager fuel = record {
  access = λ pid c lt ready.
      let (free, clear) = ready.1 pid lt in
      let p = page_at c pid in
      (
        record c { word = update c.word p (locked_state (c.word p)) },
        rw (page-mod c pid ready.0 lt)
            (decide-free (c.word p) (c.word (p + 8) == 0) _ _ free (eq→== _ _ clear)),
        λ i. record c { acc = sum-eq c p i; word = relock_beside c.word p _ _ (sum-eq c p) free i },
      );
  still_ready = λ pid c lt ready. (
    ready.0,
    λ other lt'.
        let (free, clear) = ready.1 other lt' in
        let p = page_at c pid in
        let p' = page_at c other in
        let apart : (p + 16 == p') ≡ false = ne→== _ _ (λ e. omega (arith, e)) in
        let apart' : (p + 16 == p' + 8) ≡ false = ne→== _ _ (λ e. omega (arith, e)) in
        rw (apart, apart') (free, clear),
  );
}
