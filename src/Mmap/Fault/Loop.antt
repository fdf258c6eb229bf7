-- ===== src/Mmap/Fault/Loop.antt =====
-- The handler's loop over many events.
use user_level_mmap.Base.{ℕ, ◌≡◌, ◌≢◌, refl, List, [], ◌∷◌}
use user_level_mmap.Ptedit.Interface.{Implementation}
use user_level_mmap.Mmap.Fault.{
  PfhandleArgs, Event, Round, next, exit_failure, assert_failed, Process, handle_event, returned,
  handler_loop,
}

module _ (impl : Implementation) (file : (fd position : ℕ) → ℕ) where
  -- Whatever events arrive, the handler does not return: `finish` is read nowhere in its loop.
  pub handler_loop-ne-returned :
      (evs : List Event) (args : PfhandleArgs) (p : Process impl) (r : PfhandleArgs × Process impl)
      → handler_loop impl file args evs p ≢ returned r
  unfolding handler_loop
  handler_loop-ne-returned [] args p r = λ e. cc
  handler_loop-ne-returned (ev ∷ evs) args p r =
      after (handle_event impl file args ev p) refl
        (λ args' p'. handler_loop-ne-returned evs args' p' r)
    where
      after :
          (o : Round (PfhandleArgs × Process impl))
          → handle_event impl file args ev p ≡ o
          → ((args' : PfhandleArgs) (p' : Process impl)
              → handler_loop impl file args' evs p' ≢ returned r)
          → handler_loop impl file args (ev ∷ evs) p ≢ returned r
      after (next (args', p')) e ih = rw (e, handler_loop) (ih args' p')
      after exit_failure e ih = rw (e, handler_loop) (λ q. cc)
      after assert_failed e ih = rw (e, handler_loop) (λ q. cc)
