-- ===== src/Mmap/Fault/Regions.antt =====
-- The handlers of several regions over the same page tables and the same memory, a round of one of
-- them after a round of another.
mod Tests
use user_level_mmap.Base.{
  ℕ, ◌≡◌, refl, Bool, true, false, List, [], ◌∷◌, All, All-map, ◌==◌, if◌then◌else◌, update, inl,
  inr, Bool-cases, arith,
}
use mathlib.Core.Path.{subst}
use user_level_mmap.Ptedit.Interface.{Implementation, IsImplementation, IsSeparate}
use user_level_mmap.Mmap.Fault.{
  PfhandleArgs, Event, Process, next, exit_failure, assert_failed, HandlerEnd, waiting, exited,
  aborted, handle_event,
}
use user_level_mmap.Mmap.Fault.Install.{handle_event-served}
use user_level_mmap.Mmap.Fault.Batch.{one_more, IsReady-one_more, frame_at, IsReady}
use user_level_mmap.Mmap.Fault.Rounds.{
  Apart, Turn, ScatteredTurns, after_turns, Shows, Each, after_turns-Shows,
}

module _ (impl : Implementation) (file : (fd position : ℕ) → ℕ) where
  -- The rounds of the handlers, each with the number of its region; `args` are the arguments that the
  -- threads have.
  unfoldable pub regions_loop :
      (args : ℕ → PfhandleArgs)
      → List (ℕ × Event)
      → Process impl
      → HandlerEnd ((ℕ → PfhandleArgs) × Process impl)
  regions_loop args [] p = waiting (args, p)
  regions_loop args ((t, ev) ∷ evs) p = elim (handle_event impl file (args t) ev p) [
    | next (args', p') ↦ regions_loop (update args t args') evs p'
    | exit_failure ↦ exited
    | assert_failed ↦ aborted
  ]

-- The arguments that the handler of each round has then, every region with its own count of faults.
abbrev pub turns : (args : ℕ → PfhandleArgs) → List (ℕ × Event) → List Turn
turns args [] = []
turns args ((t, ev) ∷ evs) = (args t, ev) ∷ turns (update args t (one_more (args t))) evs

abbrev pub ScatteredEvents : (frame : ℕ → ℕ) → List (ℕ × Event) → Type 0
ScatteredEvents frame [] = Unit
ScatteredEvents frame ((_, ev) ∷ evs) =
    All (λ x. Apart frame ev x.1) evs × ScatteredEvents frame evs

All-turns :
    (P : Event → Type 0) (args : ℕ → PfhandleArgs) (evs : List (ℕ × Event))
    → All (λ x. P x.1) evs
    → All (λ t. P t.1) (turns args evs)
All-turns P args [] all = tt
All-turns P args ((t, ev) ∷ evs) (here, all) =
    (here, All-turns P (update args t (one_more (args t))) evs all)

ScatteredEvents-turns :
    (frame : ℕ → ℕ) (args : ℕ → PfhandleArgs) (evs : List (ℕ × Event))
    → ScatteredEvents frame evs
    → ScatteredTurns frame (turns args evs)
ScatteredEvents-turns frame args [] scattered = tt
ScatteredEvents-turns frame args ((t, ev) ∷ evs) (apart, scattered) = (
  All-turns (Apart frame ev) (update args t (one_more (args t))) evs apart,
  ScatteredEvents-turns frame (update args t (one_more (args t))) evs scattered,
)

same_region : (t u : ℕ) → (t == u) ≡ true → u ≡ t
same_region t u e = ground arith

module _ (impl : Implementation) (laws : IsImplementation impl) (sep : IsSeparate impl laws)
    (file : (fd position : ℕ) → ℕ) (pages : ℕ → Type 0) where
  abbrev pub ReadyAt : (args : ℕ → PfhandleArgs) → ℕ × Event → Type 0
  ReadyAt args (t, ev) = IsReady impl laws sep file pages (args t) ev

  -- A round of one handler leaves the events of all of them ready.
  ReadyAt-update :
      (args : ℕ → PfhandleArgs) (t : ℕ) (x : ℕ × Event)
      → ReadyAt args x
      → ReadyAt (update args t (one_more (args t))) x
  ReadyAt-update args t (u, ev) ready = elim (Bool-cases (t == u)) [
    | inr other ↦ rw other ready
    | inl same ↦ rw same (
        subst (λ v. IsReady impl laws sep file pages (one_more (args v)) ev) (same_region t u same)
          (IsReady-one_more impl laws sep file pages (args u) ev ready))
  ]

  Each-turns :
      (frame : ℕ → ℕ) (s : impl.State) (args : ℕ → PfhandleArgs) (evs : List (ℕ × Event))
      → ((a : ℕ) → frame_at impl laws sep file pages a s ≡ frame a)
      → All (ReadyAt args) evs
      → All (Each impl laws sep file pages frame s) (turns args evs)
  Each-turns frame s args [] e ready = tt
  Each-turns frame s args ((t, ev) ∷ evs) e (ok, ready) = (
    (ok, e ev.given_page),
    Each-turns frame s (update args t (one_more (args t))) evs e
        (All-map _ _ evs (ReadyAt-update args t) ready),
  )

  counts : (args : ℕ → PfhandleArgs) → List (ℕ × Event) → ℕ → PfhandleArgs
  counts args [] = args
  counts args ((t, ev) ∷ evs) = counts (update args t (one_more (args t))) evs

  regions_loop-after_turns :
      (evs : List (ℕ × Event)) (args : ℕ → PfhandleArgs) (p : Process impl)
      → All (ReadyAt args) evs
      → regions_loop impl file args evs p
        ≡ waiting (counts args evs, after_turns impl laws sep file pages (turns args evs) p)
  unfolding counts regions_loop
  regions_loop-after_turns [] args p ready = refl
  regions_loop-after_turns ((t, ev) ∷ evs) args p (ok, ready) =
      rw (handle_event-served impl laws file (args t) ev p ok.served, regions_loop)
        (regions_loop-after_turns evs (update args t (one_more (args t))) _
          (All-map _ _ evs (ReadyAt-update args t) ready))

  -- The handlers of any regions, a whole round of one of them after a whole round of another in any
  -- order, given faults in different pages whose calls all succeed, each served by a page from
  -- `malloc` at a page boundary with a frame of its own that was not the page of an earlier fault,
  -- where the PTEs of all these pages are separate words: all rounds are served, and then the program
  -- can write to every byte of every page that faulted, as far as its PTE decides, and reads it as the
  -- content that its own region has for it, the letter of the count of that region or the bytes of its
  -- file, whatever the rounds of other regions did in between.
  pub regions_loop-Shows :
      (evs : List (ℕ × Event)) (args : ℕ → PfhandleArgs) (p : Process impl)
      → sep.Laid pages p.tables
      → All (ReadyAt args) evs
      → ScatteredEvents (λ a. frame_at impl laws sep file pages a p.tables) evs
      → (args' : ℕ → PfhandleArgs) × (q : Process impl) × (regions_loop impl file args evs p
          ≡ waiting (args', q))
        × All (Shows impl laws sep file pages q) (turns args evs)
  regions_loop-Shows evs args p laid ready scattered =
      let frame : ℕ → ℕ = λ a. frame_at impl laws sep file pages a p.tables in
      (
        _,
        _,
        regions_loop-after_turns evs args p ready,
        after_turns-Shows impl laws sep file pages frame (turns args evs) p laid
            (Each-turns frame p.tables args evs (λ a. refl) ready)
            (ScatteredEvents-turns frame args evs scattered),
      )
