-- ===== src/Mmap/Fault/Rounds.antt =====
-- Rounds of handlers one after the other, each with the arguments that its thread has then: what an
-- earlier one put into memory is still there after the later ones.
use user_level_mmap.Base.{
  ℕ, ◌+◌, ◌*◌, ◌/◌, ◌<◌, ◌≡◌, ◌≢◌, refl, sym, ap, ◌∙◌, List, [], ◌∷◌, All, All-map,
}
use user_level_mmap.Ptedit.Entry.{get_pfn}
use user_level_mmap.Ptedit.Interface.{Implementation, IsImplementation, IsSeparate}
use user_level_mmap.Mmap.Fault.{
  page_size, PfhandleArgs, Event, Process, ReadsAs, readable, writable, page_content,
}
use user_level_mmap.Mmap.Fault.Install.{ReadsAs-frame}
use user_level_mmap.Mmap.Fault.Batch.{
  frame_at, IsReady, after_round, round-Laid, round-resolve, round-frame, round-open, round-shows,
  round-keeps,
}

-- Two faults in different pages, the second served by a page that is not that of the first fault,
-- and with another frame; `frame` gives the frames of the pages from `malloc`.
abbrev pub Apart : (frame : ℕ → ℕ) → Event → Event → Type 0
Apart frame ev ev' =
    (ev.address / page_size ≢ ev'.address / page_size)
    × (ev.address / page_size ≢ ev'.given_page / page_size)
    × (frame ev.given_page ≢ frame ev'.given_page)

-- The arguments of a handler and the event that it serves.
abbrev pub Turn : Type 0
Turn = PfhandleArgs × Event

abbrev pub ScatteredTurns : (frame : ℕ → ℕ) → List Turn → Type 0
ScatteredTurns frame [] = Unit
ScatteredTurns frame (t ∷ ts) = All (λ t'. Apart frame t.1 t'.1) ts × ScatteredTurns frame ts

module _ (impl : Implementation) (laws : IsImplementation impl) (sep : IsSeparate impl laws)
    (file : (fd position : ℕ) → ℕ) (pages : ℕ → Type 0) where
  abbrev pub after_turns : List Turn → Process impl → Process impl
  after_turns [] p = p
  after_turns ((args, ev) ∷ ts) p = after_turns ts (after_round impl laws sep file pages args ev p)

  -- The program can write to every byte of the page that faulted and reads it as its content.
  abbrev pub Shows : Process impl → Turn → Type 0
  Shows q (args, ev) =
      (k : ℕ)
      → k < page_size
      → ReadsAs impl q (ev.address / page_size * page_size + k) (page_content file args ev k)

  module _ (frame : ℕ → ℕ) where
    abbrev pub Each : impl.State → Turn → Type 0
    Each s (args, ev) =
        IsReady impl laws sep file pages args ev
        × (frame_at impl laws sep file pages ev.given_page s ≡ frame ev.given_page)

    -- A round leaves the later turns ready, with the frames that they had.
    Each-round :
        (args : PfhandleArgs) (ev : Event) (p : Process impl) (ts : List Turn)
        → IsReady impl laws sep file pages args ev
        → sep.Laid pages p.tables
        → All (λ t. Apart frame ev t.1) ts
        → All (Each p.tables) ts
        → All (Each (after_round impl laws sep file pages args ev p).tables) ts
    Each-round args ev p [] ok laid apart each = tt
    Each-round args ev p ((_, e) ∷ ts) ok laid (away, apart) ((ready, same), each) = (
      (
        ready,
        ap get_pfn (
              round-resolve impl laws sep file pages args ev p ok laid e.given_page ready.given
                away.1)
            ∙ same,
      ),
      Each-round args ev p ts ok laid apart each,
    )

    -- A page with the PTE `w` that no later turn touches keeps its PTE and its bytes.
    after_turns-keeps :
        (ts : List Turn) (p : Process impl) (x w : ℕ)
        → sep.Laid pages p.tables
        → All (Each p.tables) ts
        → ScatteredTurns frame ts
        → pages x
        → All
            (λ t. (x / page_size ≢ t.1.address / page_size) × (get_pfn w ≢ frame t.1.given_page))
            ts
        → (impl.resolve x 0 p.tables).pte ≡ w
        → (let q = after_turns ts p in
            sep.Laid pages q.tables
            × ((impl.resolve x 0 q.tables).pte ≡ w)
            × ((k : ℕ)
                → k < page_size
                → q.bytes (get_pfn w * page_size + k) ≡ p.bytes (get_pfn w * page_size + k)))
    after_turns-keeps [] p x w laid each scattered on away e = (laid, e, λ k lt. refl)
    after_turns-keeps ((args, ev) ∷ ts) p x w laid ((ok, same), each) (apart, scattered) on
          ((ne, ne'), away) e =
        let (laid', e', keeps) =
          after_turns-keeps ts (after_round impl laws sep file pages args ev p) x w
            (round-Laid impl laws sep file pages args ev p ok laid)
            (Each-round args ev p ts ok laid apart each) scattered on away
            (round-resolve impl laws sep file pages args ev p ok laid x on (λ q. ne (sym q)) ∙ e) in
        (
          laid',
          e',
          λ k lt.
              keeps k lt
              ∙ round-keeps impl laws sep file pages args ev p ok laid (get_pfn w) k lt
                  (λ q. ne' (q ∙ same)),
        )

    -- After all rounds, each page that faulted shows what its own round put into it.
    pub after_turns-Shows :
        (ts : List Turn) (p : Process impl)
        → sep.Laid pages p.tables
        → All (Each p.tables) ts
        → ScatteredTurns frame ts
        → All (Shows (after_turns ts p)) ts
    after_turns-Shows [] p laid each scattered = tt
    after_turns-Shows ((args, ev) ∷ ts) p laid ((ok, same), each) (apart, scattered) =
        let p' = after_round impl laws sep file pages args ev p in
        let laid' = round-Laid impl laws sep file pages args ev p ok laid in
        let each' = Each-round args ev p ts ok laid apart each in
        let q = after_turns ts p' in
        let word = (impl.resolve ev.address 0 p'.tables).pte in
        let in_frame : get_pfn word ≡ frame ev.given_page =
          round-frame impl laws sep file pages args ev p ok laid ∙ same in
        let (laid'', kept, keeps) =
          after_turns-keeps ts p' ev.address word laid' each' scattered ok.faulted
            (All-map (λ t. Apart frame ev t.1) _ ts (λ t h. (h.0, λ e. h.2 (sym in_frame ∙ e)))
              apart)
            refl in
        let (reads, writes) = round-open impl laws sep file pages args ev p ok laid in
        (
          λ k lt.
              ReadsAs-frame impl laws q ev.address k (page_content file args ev k)
                (sep.laid_Mapped pages ev.address q.tables laid'' ok.faulted) lt
                (ap readable kept ∙ reads, ap writable kept ∙ writes)
                (ap (λ (w : ℕ). q.bytes (get_pfn w * page_size + k)) kept
                  ∙ keeps k lt
                  ∙ ap (λ g. p'.bytes (g * page_size + k)) (in_frame ∙ sym same)
                  ∙ round-shows impl laws sep file pages args ev p ok laid k lt),
          after_turns-Shows ts p' laid' each' scattered,
        )
