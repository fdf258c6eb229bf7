-- ===== src/Mmap/Region/Unmap.antt =====
-- What a caller of `ul_munmap` gets.
use user_level_mmap.Base.{
  ℕ, ◌≡◌, ◌≢◌, refl, ap, true, Option, none, some, List, eq→==, if◌then◌else◌, update,
}
use user_level_mmap.Ptedit.Interface.{Implementation}
use user_level_mmap.Mmap.Fault.{
  PfhandleArgs, Event, Process, HandlerEnd, waiting, returned, exited, aborted, handler_loop,
}
use user_level_mmap.Mmap.Fault.Loop.{handler_loop-ne-returned}
use user_level_mmap.Mmap.Region.{Library, Replies, gives, ul_mmap, ul_munmap}
use user_level_mmap.Mmap.Region.Map.{ul_mmap-IsMapped}

at_own :
    (f g : ℕ → Option PfhandleArgs) (b a : ℕ) (args : PfhandleArgs)
    → g ≡ update f b (some args)
    → a ≡ b
    → g a ≡ some args
at_own f g b a args e same = rw (e, same) (ap (λ t. if t then some args else f b) (eq→== b b refl))

module _ (impl : Implementation) (file : (fd position : ℕ) → ℕ) where
  -- Where an address is registered, `ul_munmap` gives no value, whatever events arrive.
  registered-ne-gives :
      (lib lib' : Library) (addr length r : ℕ) (evs : List Event) (p : Process impl)
      (args : PfhandleArgs)
      → lib.mmap_regions addr ≡ some args
      → ul_munmap impl file lib addr length evs p ≢ gives r lib'
  unfolding ul_munmap
  registered-ne-gives lib lib' addr length r evs p args e =
      after (handler_loop impl file (record args { finish = true }) evs p) refl
    where
      after :
          (o : HandlerEnd (PfhandleArgs × Process impl))
          → handler_loop impl file (record args { finish = true }) evs p ≡ o
          → ul_munmap impl file lib addr length evs p ≢ gives r lib'
      after (waiting x) h = rw (e, ul_munmap, h) (λ q. cc)
      after (returned x) h = λ q. handler_loop-ne-returned impl file evs _ p x h
      after exited h = rw (e, ul_munmap, h) (λ q. cc)
      after aborted h = rw (e, ul_munmap, h) (λ q. cc)

  -- `ul_munmap` gives a value only where no region is registered at the address; the value is then
  -- 0, and nothing was changed or requested.
  pub ul_munmap-gives :
      (lib lib' : Library) (addr length r : ℕ) (evs : List Event) (p : Process impl)
      → ul_munmap impl file lib addr length evs p ≡ gives r lib'
      → (lib.mmap_regions addr ≡ none) × (r ≡ 0) × (lib' ≡ lib)
  unfolding ul_munmap
  ul_munmap-gives lib lib' addr length r evs p q = of_region (lib.mmap_regions addr) refl
    where
      of_region :
          (o : Option PfhandleArgs)
          → lib.mmap_regions addr ≡ o
          → (lib.mmap_regions addr ≡ none) × (r ≡ 0) × (lib' ≡ lib)
      of_region none e =
          let given : gives 0 lib ≡ gives r lib' = rw (ul_munmap, e) at q in (e, cc given, cc given)
      of_region (some args) e = absurd (registered-ne-gives lib lib' addr length r evs p args e q)

  -- After a call of `ul_mmap` that returned, `ul_munmap` of the address that it returned never
  -- gives a value, whatever events arrive.
  pub ul_munmap-ul_mmap :
      (replies : Replies) (lib lib' after : Library) (addr length prot flags : ℕ) (fd : Option ℕ)
      (offset a r : ℕ) (evs : List Event) (p : Process impl)
      → ul_mmap replies lib addr length prot flags fd offset ≡ some (a, lib')
      → ul_munmap impl file lib' a length evs p ≢ gives r after
  ul_munmap-ul_mmap replies lib lib' after addr length prot flags fd offset a r evs p e =
      let (same, ok) = ul_mmap-IsMapped replies lib addr length prot flags fd offset a lib' e in
      registered-ne-gives lib' after a length r evs p ok.args
        (at_own _ _ _ a ok.args ok.regions same)
