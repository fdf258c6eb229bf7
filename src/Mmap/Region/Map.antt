-- ===== src/Mmap/Region/Map.antt =====
-- What a caller of `ul_mmap` gets.
use mathlib.Core.Path.{subst}
use user_level_mmap.Base.{
  ℕ, ◌≡◌, ◌≢◌, refl, Bool, true, false, not, ◌&&◌, eq→==, sym, ◌⊎◌, inl, inr, Option, none, some,
  ◌∷◌, ◌==◌, ne→==, update,
}
use user_level_mmap.Mmap.Fault.{PfhandleArgs}
use user_level_mmap.Mmap.Region.{
  map_anonymous, register_missing, start_handler, Library, Replies, map_failed, set_up, ◌>>=◌, ◌>>◌,
  unless, dup_fd, ul_mmap,
}

-- The requests of a call, and the region that it registers.
pub record IsMapped (replies : Replies) (lib lib' : Library) (addr length prot : ℕ) (fd : Option ℕ)
    (position : ℕ) : Type 0 where
  pub args : PfhandleArgs
  pub nonfailed : replies.mmap_addr ≢ map_failed
  pub regions : lib'.mmap_regions ≡ update lib.mmap_regions replies.mmap_addr (some args)
  pub handled : args.base_addr ≡ replies.mmap_addr
  pub offset : args.offset ≡ position
  pub descriptor : replies.new_uffd ≡ some args.uffd
  pub file : args.fd ≡ elim fd [ none ↦ none | some _ ↦ replies.dup ]
  pub fresh : args.fault_cnt ≡ 0
  pub requests :
      lib'.requests
      ≡ start_handler args
        ∷ register_missing args.uffd replies.mmap_addr length
        ∷ map_anonymous addr length prot position
        ∷ set_up lib
  pub initialised : lib'.pteditor_init_flag ≡ true

-- The tests of `ul_mmap` in a row, and what it does when all of them are passed.
abbrev chain :
    {B : Type 0} (init failed : Bool) (uffd : Option ℕ) (api register : Bool)
    (copy : Option (Option ℕ))
    → (ℕ → Option ℕ → B)
    → Option B
chain init failed uffd api register copy k = do
  unless init
  unless failed
  u ← uffd
  unless api
  unless register
  c ← copy
  some (k u c)

some-chain :
    {B : Type 0} (init failed : Bool) (uffd : Option ℕ) (api register : Bool)
    (copy : Option (Option ℕ)) (k : ℕ → Option ℕ → B) (b : B)
    → chain init failed uffd api register copy k ≡ some b
    → (u : ℕ) × (c : Option ℕ) × (failed ≡ false) × (uffd ≡ some u) × (copy ≡ some c) × (k u c ≡ b)
some-chain true failed uffd api register copy k b e = cc
some-chain false true uffd api register copy k b e = cc
some-chain false false none api register copy k b e = cc
some-chain false false (some u) true register copy k b e = cc
some-chain false false (some u) false true copy k b e = cc
some-chain false false (some u) false false none k b e = cc
some-chain false false (some u) false false (some c) k b e = (u, c, refl, refl, refl, cc)

some-dup_fd :
    (replies : Replies) (fd c : Option ℕ)
    → dup_fd replies fd ≡ some c
    → c ≡ elim fd [ none ↦ none | some _ ↦ replies.dup ]
some-dup_fd replies none c e = cc
some-dup_fd replies (some fd) c e = of_dup replies.dup e
  where
    of_dup : (d : Option ℕ) → elim d [ none ↦ none | some copy ↦ some (some copy) ] ≡ some c → c ≡ d
    of_dup none q = cc
    of_dup (some copy) q = cc

dup_fd-some :
    (replies : Replies) (fd : Option ℕ)
    → (fd ≡ none) ⊎ ((copy : ℕ) × (replies.dup ≡ some copy))
    → (c : Option ℕ) × (dup_fd replies fd ≡ some c)
dup_fd-some replies none h = (none, refl)
dup_fd-some replies (some fd) (inl e) = cc
dup_fd-some replies (some fd) (inr (copy, e)) = rw e (some copy, refl)

&&-false : (b : Bool) → (b && false) ≡ false
&&-false true = refl
&&-false false = refl

-- A call that returns has passed every test, and returns the kernel's address, which is not
-- MAP_FAILED; exactly one region is registered, the one at that address, with fresh arguments for
-- its handler, and the kernel was asked for the mapping, for its page faults and for the thread, after
-- PTEditor was set up where it was not yet.
pub ul_mmap-IsMapped :
    (replies : Replies) (lib : Library) (addr length prot flags : ℕ) (fd : Option ℕ) (offset r : ℕ)
    (lib' : Library)
    → ul_mmap replies lib addr length prot flags fd offset ≡ some (r, lib')
    → (r ≡ replies.mmap_addr) × IsMapped replies lib lib' addr length prot fd offset
unfolding ul_mmap
ul_mmap-IsMapped replies lib addr length prot flags fd offset r lib' e =
    let (u, c, f, un, cp, out) =
      some-chain (not lib.pteditor_init_flag && replies.init_failed)
        (replies.mmap_addr == map_failed) replies.new_uffd replies.api_failed
        replies.register_failed (dup_fd replies fd) _ (r, lib') e in
    (
      sym (λ i. (out i).0),
      subst (λ l. IsMapped replies lib l addr length prot fd offset) (λ i. (out i).1)
          (record {
            args = record {
              uffd = u;
              fd = c;
              offset = offset;
              base_addr = replies.mmap_addr;
              finish = false;
              fault_cnt = 0;
            };
            nonfailed = λ q. cc (f, eq→== replies.mmap_addr map_failed q);
            regions = refl;
            handled = refl;
            offset = refl;
            descriptor = un;
            file = some-dup_fd replies fd c cp;
            fresh = refl;
            requests = refl;
            initialised = refl;
          }),
    )

-- The calls that `ul_mmap` makes succeed, that of `dup` where there is a file.
pub record Replied (replies : Replies) (fd : Option ℕ) : Type 0 where
  pub started : replies.init_failed ≡ false
  pub mapped : replies.mmap_addr ≢ map_failed
  pub uffd : ℕ
  pub opened : replies.new_uffd ≡ some uffd
  pub agreed : replies.api_failed ≡ false
  pub registered : replies.register_failed ≡ false
  pub copied : (fd ≡ none) ⊎ ((copy : ℕ) × (replies.dup ≡ some copy))

-- When every call that `ul_mmap` makes succeeds, it returns the address from the kernel.
pub ul_mmap-returns :
    (replies : Replies) (lib : Library) (addr length prot flags : ℕ) (fd : Option ℕ) (offset : ℕ)
    → Replied replies fd
    → (lib' : Library) × (ul_mmap replies lib addr length prot flags fd offset
        ≡ some (replies.mmap_addr, lib'))
unfolding ul_mmap
ul_mmap-returns replies lib addr length prot flags fd offset ok =
    let mapped = ne→== replies.mmap_addr map_failed ok.mapped in
    let (c, copied) = dup_fd-some replies fd ok.copied in
    rw
      (
        ok.started,
        &&-false (not lib.pteditor_init_flag),
        mapped,
        ok.opened,
        ok.agreed,
        ok.registered,
        copied,
      )
      (_, refl)
