-- ===== src/Mmap/Fault/Sequence.antt =====
-- Many faults of one region, one after the other, in its handler.
use user_level_mmap.Base.{ℕ, ◌+◌, ◌*◌, ◌/◌, ◌<◌, ◌≡◌, refl, List, [], ◌∷◌, All, All-map}
use user_level_mmap.Ptedit.Interface.{Implementation, IsImplementation, IsSeparate}
use user_level_mmap.Mmap.Fault.{
  page_size, PfhandleArgs, Event, Process, ReadsAs, page_content, waiting, handler_loop,
}
use user_level_mmap.Mmap.Fault.Install.{handle_event-served}
use user_level_mmap.Mmap.Fault.Batch.{one_more, IsReady-one_more, frame_at, IsReady}
use user_level_mmap.Mmap.Fault.Rounds.{
  Apart, Turn, ScatteredTurns, after_turns, Shows, Each, after_turns-Shows,
}

abbrev pub Scattered : (frame : ℕ → ℕ) → List Event → Type 0
Scattered frame [] = Unit
Scattered frame (ev ∷ evs) = All (Apart frame ev) evs × Scattered frame evs

-- The arguments at the event, with one more fault counted at each.
abbrev numbered : PfhandleArgs → List Event → List Turn
numbered args [] = []
numbered args (ev ∷ evs) = (args, ev) ∷ numbered (one_more args) evs

-- What holds of all events holds of them as turns.
All-numbered :
    (P : Event → Type 0) (args : PfhandleArgs) (evs : List Event)
    → All P evs
    → All (λ t. P t.1) (numbered args evs)
All-numbered P args [] all = tt
All-numbered P args (ev ∷ evs) (here, all) = (here, All-numbered P (one_more args) evs all)

Scattered-numbered :
    (frame : ℕ → ℕ) (args : PfhandleArgs) (evs : List Event)
    → Scattered frame evs
    → ScatteredTurns frame (numbered args evs)
Scattered-numbered frame args [] scattered = tt
Scattered-numbered frame args (ev ∷ evs) (apart, scattered) = (
  All-numbered (Apart frame ev) (one_more args) evs apart,
  Scattered-numbered frame (one_more args) evs scattered,
)

module _ (impl : Implementation) (laws : IsImplementation impl) (sep : IsSeparate impl laws)
    (file : (fd position : ℕ) → ℕ) (pages : ℕ → Type 0) where
  count_all : PfhandleArgs → List Event → PfhandleArgs
  count_all args [] = args
  count_all args (ev ∷ evs) = count_all (one_more args) evs

  -- The program can write to each page that faulted and reads it as its content, at the count of its
  -- fault.
  abbrev pub Shown : PfhandleArgs → List Event → Process impl → Type 0
  Shown args [] q = Unit
  Shown args (ev ∷ evs) q =
      ((k : ℕ)
        → k < page_size
        → ReadsAs impl q (ev.address / page_size * page_size + k) (page_content file args ev k))
      × Shown (one_more args) evs q

  Each-numbered :
      (frame : ℕ → ℕ) (s : impl.State) (args : PfhandleArgs) (evs : List Event)
      → ((a : ℕ) → frame_at impl laws sep file pages a s ≡ frame a)
      → All (IsReady impl laws sep file pages args) evs
      → All (Each impl laws sep file pages frame s) (numbered args evs)
  Each-numbered frame s args [] e ready = tt
  Each-numbered frame s args (ev ∷ evs) e (ok, ready) = (
    (ok, e ev.given_page),
    Each-numbered frame s (one_more args) evs e
        (All-map _ _ evs (λ ev' r. IsReady-one_more impl laws sep file pages args ev' r) ready),
  )

  Shown-numbered :
      (q : Process impl) (args : PfhandleArgs) (evs : List Event)
      → All (Shows impl laws sep file pages q) (numbered args evs)
      → Shown args evs q
  Shown-numbered q args [] shows = tt
  Shown-numbered q args (ev ∷ evs) (now, shows) = (now, Shown-numbered q (one_more args) evs shows)

  handler_loop-after_turns :
      (evs : List Event) (args : PfhandleArgs) (p : Process impl)
      → All (IsReady impl laws sep file pages args) evs
      → handler_loop impl file args evs p
        ≡ waiting (count_all args evs, after_turns impl laws sep file pages (numbered args evs) p)
  unfolding count_all handler_loop
  handler_loop-after_turns [] args p ready = refl
  handler_loop-after_turns (ev ∷ evs) args p (ok, ready) =
      rw (handle_event-served impl laws file args ev p ok.served, handler_loop)
        (handler_loop-after_turns evs (one_more args) _
          (All-map _ _ evs (λ ev' r. IsReady-one_more impl laws sep file pages args ev' r) ready))

  -- Given faults in different pages whose calls all succeed, each served by a page from `malloc` at
  -- a page boundary with a frame of its own that was not the page of an earlier fault, where the
  -- PTEs of all these pages are separate words: the handler serves them all and waits for the next
  -- event, and then the program can write to every byte of every page that faulted, as far as its PTE
  -- decides, and reads it as the content chosen for it at its fault, the letter of its count or the
  -- bytes of the file.
  pub handler_loop-Shown :
      (evs : List Event) (args : PfhandleArgs) (p : Process impl)
      → sep.Laid pages p.tables
      → All (IsReady impl laws sep file pages args) evs
      → Scattered (λ a. frame_at impl laws sep file pages a p.tables) evs
      → (args' : PfhandleArgs) × (q : Process impl) × (handler_loop impl file args evs p
          ≡ waiting (args', q))
        × Shown args evs q
  handler_loop-Shown evs args p laid ready scattered =
      let frame : ℕ → ℕ = λ a. frame_at impl laws sep file pages a p.tables in
      (
        _,
        _,
        handler_loop-after_turns evs args p ready,
        Shown-numbered _ args evs (
            after_turns-Shows impl laws sep file pages frame (numbered args evs) p laid
              (Each-numbered frame p.tables args evs (λ a. refl) ready)
              (Scattered-numbered frame args evs scattered)),
      )
