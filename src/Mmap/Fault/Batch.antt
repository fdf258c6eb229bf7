-- ===== src/Mmap/Fault/Batch.antt =====
-- One round of the handler among pages whose PTEs are separate: what changes and what stays.
use user_level_mmap.Base.{ℕ, ◌+◌, ◌*◌, ◌/◌, ◌%◌, ◌<◌, ◌≡◌, ◌≢◌, refl, ap, ◌∙◌, ◌∷◌, true, arith}
use user_level_mmap.Ptedit.Entry.{get_pfn}
use user_level_mmap.Ptedit.Interface.{Implementation, IsImplementation, IsSeparate}
use user_level_mmap.Mmap.Fault.{
  page_size, PfhandleArgs, Event, Process, translate, readable, writable, page_content, fill_page,
  install_page, wake_range, fill_ok,
}
use user_level_mmap.Mmap.Fault.Pte.{fault_pte-lt, fault_pte-open, get_pfn-fault_pte}
use user_level_mmap.Mmap.Fault.Fill.{store_bytes-out}
use user_level_mmap.Mmap.Fault.Install.{
  IsServed, resolve-install_page, stored_bytes, translate-given, pte_get_pfn-eq, old_pte-lt,
  frame-lt,
}

-- The arguments after one more fault.
abbrev pub one_more : PfhandleArgs → PfhandleArgs
one_more args = record args { fault_cnt = args.fault_cnt + 1 }

IsServed-one_more :
    (args : PfhandleArgs) (ev : Event) → IsServed args ev → IsServed (one_more args) ev
unfolding fill_ok
IsServed-one_more args ev ok = record {
  polled = ok.polled;
  count = ok.count;
  some_read = ok.some_read;
  nonzero = ok.nonzero;
  fault = ok.fault;
  allocated = ok.allocated;
  filled = ok.filled;
  woken = ok.woken;
}

module _ (impl : Implementation) (laws : IsImplementation impl) (sep : IsSeparate impl laws)
    (file : (fd position : ℕ) → ℕ) (pages : ℕ → Type 0) where
  -- The frame behind an address.
  abbrev pub frame_at : ℕ → impl.State → ℕ
  frame_at a s = get_pfn (impl.resolve a 0 s).pte

  -- The fault and the page from `malloc` are among the pages, and the calls of the round succeed.
  pub record IsReady (args : PfhandleArgs) (ev : Event) : Type 0 where
    pub served : IsServed args ev
    pub faulted : pages ev.address
    pub given : pages ev.given_page
    pub aligned : ev.given_page % page_size ≡ 0

  pub IsReady-one_more :
      (args : PfhandleArgs) (ev : Event) → IsReady args ev → IsReady (one_more args) ev
  IsReady-one_more args ev ok = record {
    served = IsServed-one_more args ev ok.served;
    faulted = ok.faulted;
    given = ok.given;
    aligned = ok.aligned;
  }

  -- The process after a round.
  abbrev pub after_round : PfhandleArgs → Event → Process impl → Process impl
  after_round args ev p = record (install_page impl ev (fill_page impl file args ev p)) {
    woken = wake_range ev ∷ p.woken;
  }

  module _ (args : PfhandleArgs) (ev : Event) (p : Process impl) (ok : IsReady args ev)
      (laid : sep.Laid pages p.tables) where
    open ok use {served, faulted, given, aligned}

    fault_Mapped : laws.Mapped 0 ev.address p.tables
    fault_Mapped = sep.laid_Mapped pages ev.address p.tables laid faulted

    given_Mapped : laws.Mapped 0 ev.given_page p.tables
    given_Mapped = sep.laid_Mapped pages ev.given_page p.tables laid given

    abbrev pub p' : Process impl
    p' = after_round args ev p

    pub round-Laid : sep.Laid pages p'.tables
    unfolding install_page fill_page
    round-Laid =
        sep.update_Laid pages ev.address _ p.tables refl
          (rw (pte_get_pfn-eq impl laws ev.given_page p.tables given_Mapped) (
            fault_pte-lt _ _ (old_pte-lt impl laws ev p fault_Mapped given_Mapped)
              (frame-lt impl laws ev p fault_Mapped given_Mapped)))
          laid faulted

    pub round-resolve :
        (x : ℕ)
        → pages x
        → ev.address / page_size ≢ x / page_size
        → (impl.resolve x 0 p'.tables).pte ≡ (impl.resolve x 0 p.tables).pte
    unfolding install_page fill_page
    round-resolve x on ne =
        sep.resolve_update_ne pages ev.address x _ p.tables refl laid faulted on ne

    pub round-frame : frame_at ev.address p'.tables ≡ frame_at ev.given_page p.tables
    unfolding install_page fill_page
    round-frame =
        ap get_pfn (resolve-install_page impl laws ev p fault_Mapped given_Mapped)
        ∙ get_pfn-fault_pte _ _ (old_pte-lt impl laws ev p fault_Mapped given_Mapped)
            (frame-lt impl laws ev p fault_Mapped given_Mapped)

    -- The page that faulted is open to the program.
    pub round-open :
        (let word = (impl.resolve ev.address 0 p'.tables).pte in
          (readable word ≡ true) × (writable word ≡ true))
    unfolding install_page fill_page
    round-open =
        let new = resolve-install_page impl laws ev p fault_Mapped given_Mapped in
        let (reads, writes) =
          fault_pte-open _ _ (old_pte-lt impl laws ev p fault_Mapped given_Mapped)
            (frame-lt impl laws ev p fault_Mapped given_Mapped) in
        (ap readable new ∙ reads, ap writable new ∙ writes)

    pub round-shows :
        (k : ℕ)
        → k < page_size
        → p'.bytes (frame_at ev.given_page p.tables * page_size + k) ≡ page_content file args ev k
    unfolding install_page fill_page
    round-shows =
        stored_bytes impl laws (page_content file args ev) ev p fault_Mapped given_Mapped aligned

    pub round-keeps :
        (g k : ℕ)
        → k < page_size
        → g ≢ frame_at ev.given_page p.tables
        → p'.bytes (g * page_size + k) ≡ p.bytes (g * page_size + k)
    unfolding install_page fill_page
    round-keeps g k lt ne =
        store_bytes-out page_size (λ j. translate impl p.tables (ev.given_page + j))
          (page_content file args ev) p.bytes (g * page_size + k)
          (λ j lt' e. ne (
            omega
              (arith, e, translate-given impl laws ev p fault_Mapped given_Mapped j aligned lt')))
