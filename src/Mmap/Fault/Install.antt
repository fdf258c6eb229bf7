-- ===== src/Mmap/Fault/Install.antt =====
-- What a round of the handler leaves behind for the page that faulted.
use mathlib.Core.Path.{subst}
use user_level_mmap.Base.{
  ℕ, ◌+◌, ◌-◌, ◌*◌, ◌/◌, ◌%◌, ◌^◌, ◌<◌, ◌≡◌, ◌≢◌, refl, ap, ◌∙◌, bit_and, true, false, some, List,
  ◌∷◌, arith, ne→==,
}
use user_level_mmap.Base.Bits.{
  bit_at, bit_at-le-one, bit_at-bit_and, bit_at-complement, bit_at-ones, bit_at-shl, bit_at-shr,
  bit_and-lt, eq_of_bits,
}
use user_level_mmap.Ptedit.Entry.{not64, get_pfn}
use user_level_mmap.Ptedit.Entry.Laws.{get_pfn-lt}
use user_level_mmap.Ptedit.Interface.{Implementation, IsImplementation}
use user_level_mmap.Ptedit.PteOps.{with_pte, pte_get_pfn}
use user_level_mmap.Mmap.Fault.{
  page_size, PfhandleArgs, Event, next, Process, translate, readable, writable, read, may_write,
  ReadsAs, page_content, fill_ok, fault_pte, install_page, fill_page, wake_range, store_bytes,
  handle_event,
}
use user_level_mmap.Mmap.Fault.Pte.{fault_pte-lt, fault_pte-open, get_pfn-fault_pte}
use user_level_mmap.Mmap.Fault.Fill.{store_bytes-at}

-- `address & ~(PAGE_SIZE - 1)` is the start of the page.
pub page_start : (a : ℕ) → a < 2 ^ 64 → bit_and a (not64 (page_size - 1)) ≡ a / 2 ^ 12 * 2 ^ 12
page_start a h =
    eq_of_bits 64 _ _ (bit_and-lt 64 a (not64 (page_size - 1)) h) (omega arith) (λ i lt. ground (
      arith,
      bit_at-bit_and a (not64 (page_size - 1)) i,
      bit_at-complement 64 (2 ^ 12 - 1) i (omega arith) lt,
      bit_at-ones 12 i,
      bit_at-shl (a / 2 ^ 12) 12 i,
      bit_at-shr a 12 (i - 12),
      bit_at-le-one a i,
      ap (bit_at a) {x = 12 + (i - 12)} {y = i},
    ))

-- The calls of a round succeed, and the event is a page fault.
pub record IsServed (args : PfhandleArgs) (ev : Event) : Type 0 where
  pub polled : ev.poll_failed ≡ false
  pub count : ℕ
  pub some_read : ev.nread ≡ some count
  pub nonzero : count ≢ 0
  pub fault : ev.is_pagefault ≡ true
  pub allocated : ev.given_page ≢ 0
  pub filled : fill_ok args ev ≡ true
  pub woken : ev.wake_failed ≡ false

module _ (impl : Implementation) (laws : IsImplementation impl) where
  -- Where the bytes of a page go whose first address is aligned.
  pub place-eq :
      (addr k : ℕ) (s : impl.State)
      → laws.Mapped 0 addr s
      → k < page_size
      → translate impl s (addr / page_size * page_size + k)
        ≡ get_pfn (impl.resolve addr 0 s).pte * page_size + k
  unfolding translate
  place-eq addr k s mapped lt =
      let word =
        laws.resolve_same_page 0 addr (addr / page_size * page_size + k) s mapped (omega arith) in
      let low : (addr / page_size * page_size + k) % page_size ≡ k = omega arith in rw (word, low)

  -- A page whose PTE is open reads as the bytes of its frame.
  pub ReadsAs-frame :
      (p : Process impl) (addr k x : ℕ)
      → laws.Mapped 0 addr p.tables
      → k < page_size
      → (let word = (impl.resolve addr 0 p.tables).pte in
          (readable word ≡ true) × (writable word ≡ true))
      → p.bytes (get_pfn (impl.resolve addr 0 p.tables).pte * page_size + k) ≡ x
      → ReadsAs impl p (addr / page_size * page_size + k) x
  unfolding read may_write
  ReadsAs-frame p addr k x mapped lt (open_word, writable_word) e =
      let same =
        laws.resolve_same_page 0 addr (addr / page_size * page_size + k) p.tables mapped
          (omega arith) in
      let there : readable (impl.resolve (addr / page_size * page_size + k) 0 p.tables).pte ≡ true =
        ap readable same ∙ open_word in
      let writes : writable (impl.resolve (addr / page_size * page_size + k) 0 p.tables).pte
          ≡ true =
        ap writable same ∙ writable_word in
      (simp there (ap some (ap p.bytes (place-eq addr k p.tables mapped lt) ∙ e)), writes)

  pub pte_get_pfn-eq :
      (addr : ℕ) (s : impl.State)
      → laws.Mapped 0 addr s
      → pte_get_pfn impl addr 0 s ≡ get_pfn (impl.resolve addr 0 s).pte
  unfolding pte_get_pfn
  pte_get_pfn-eq addr s mapped = rw (laws.resolve_marked 0 addr s mapped)

  module _ (ev : Event) (p : Process impl) (mapped : laws.Mapped 0 ev.address p.tables)
      (given : laws.Mapped 0 ev.given_page p.tables) where
    abbrev old_pte : ℕ
    old_pte = (impl.resolve ev.address 0 p.tables).pte

    abbrev frame : ℕ
    frame = get_pfn (impl.resolve ev.given_page 0 p.tables).pte

    pub old_pte-lt : old_pte < 2 ^ 64
    old_pte-lt = laws.resolve_lt 0 ev.address p.tables mapped

    pub frame-lt : frame < 2 ^ 40
    frame-lt = get_pfn-lt _ (laws.resolve_lt 0 ev.given_page p.tables given)

    abbrev installed : impl.State
    installed = (install_page impl ev p).tables

    installed-Mapped : laws.Mapped 0 ev.address installed
    unfolding install_page
    installed-Mapped =
        laws.update_Mapped 0 ev.address _ p.tables refl
          (rw (pte_get_pfn-eq ev.given_page p.tables given)
            (fault_pte-lt old_pte frame old_pte-lt frame-lt))
          mapped

    -- Given a PTE for the fault address and one for the page from `malloc`, the handler leaves the
    -- fault address with the word that `fault_pte` describes, for the frame of that page.
    pub resolve-install_page : (impl.resolve ev.address 0 installed).pte ≡ fault_pte old_pte frame
    unfolding install_page
    resolve-install_page = rw (pte_get_pfn-eq ev.given_page p.tables given) (
        laws.resolve_update 0 ev.address
          (with_pte (impl.resolve ev.address 0 p.tables) (fault_pte old_pte frame)) p.tables refl
          (fault_pte-lt old_pte frame old_pte-lt frame-lt) mapped)

    pub translate-given :
        (k : ℕ)
        → ev.given_page % page_size ≡ 0
        → k < page_size
        → translate impl p.tables (ev.given_page + k) ≡ frame * page_size + k
    translate-given k aligned lt =
        let start : ev.given_page / page_size * page_size ≡ ev.given_page = omega arith in
        subst (λ a. translate impl p.tables (a + k) ≡ frame * page_size + k) start
          (place-eq ev.given_page k p.tables given lt)

  -- A page that was filled through its own address has the content at its frame.
  pub stored_bytes :
      (content : ℕ → ℕ) (ev : Event) (p : Process impl)
      → (mapped : laws.Mapped 0 ev.address p.tables)
      → (given : laws.Mapped 0 ev.given_page p.tables) → ev.given_page % page_size ≡ 0
      → (k : ℕ) → k < page_size
      → store_bytes page_size
          (λ j. translate impl p.tables (ev.given_page + j))
          content
          p.bytes
          (frame ev p mapped given * page_size + k)
        ≡ content k
  stored_bytes content ev p mapped given aligned k lt =
      rw (← translate-given ev p mapped given k aligned lt) (
        store_bytes-at page_size (λ j. translate impl p.tables (ev.given_page + j)) content p.bytes
          k
          (λ a b la lb e. omega (
            arith,
            e,
            translate-given ev p mapped given a aligned la,
            translate-given ev p mapped given b aligned lb,
          ))
          lt)

  -- So it shows at the fault address.
  pub shown_bytes :
      (content : ℕ → ℕ) (ev : Event) (p : Process impl)
      → (mapped : laws.Mapped 0 ev.address p.tables)
      → (given : laws.Mapped 0 ev.given_page p.tables) → ev.given_page % page_size ≡ 0
      → (k : ℕ) → k < page_size
      → (woken : List (ℕ × ℕ))
      → ReadsAs impl
          (record {
            tables = installed ev p mapped given;
            bytes =
                store_bytes page_size
                  (λ j. translate impl p.tables (ev.given_page + j))
                  content
                  p.bytes;
            woken = woken;
          })
          (ev.address / page_size * page_size + k)
          (content k)
  shown_bytes content ev p mapped given aligned k lt woken =
      let new = resolve-install_page ev p mapped given in
      let old = old_pte-lt ev p mapped given in
      let small = frame-lt ev p mapped given in
      let (reads, writes) =
        fault_pte-open (old_pte ev p mapped given) (frame ev p mapped given) old small in
      ReadsAs-frame
        (record {
          tables = installed ev p mapped given;
          bytes =
              store_bytes page_size (λ j. translate impl p.tables (ev.given_page + j)) content
                p.bytes;
          woken = woken;
        })
        ev.address k (content k) (installed-Mapped ev p mapped given) lt
        (ap readable new ∙ reads, ap writable new ∙ writes)
        (rw (new, get_pfn-fault_pte (old_pte ev p mapped given) (frame ev p mapped given) old small)
          (stored_bytes content ev p mapped given aligned k lt))

module _ (impl : Implementation) (laws : IsImplementation impl) (file : (fd position : ℕ) → ℕ) where
  pub handle_event-served :
      (args : PfhandleArgs) (ev : Event) (p : Process impl)
      → IsServed args ev
      → handle_event impl file args ev p
        ≡ next (
          record args { fault_cnt = args.fault_cnt + 1 },
          record (install_page impl ev (fill_page impl file args ev p)) {
            woken = wake_range ev ∷ p.woken;
          },
        )
  unfolding handle_event install_page fill_page
  handle_event-served args ev p ok = simp (
    ok.polled,
    ok.some_read,
    ne→== ok.count 0 ok.nonzero,
    ok.fault,
    ne→== ev.given_page 0 ok.allocated,
    ok.filled,
    ok.woken,
  )

  -- After a round in which all calls succeed: where the tables have a PTE for the fault address and
  -- one for the page from `malloc`, and that page starts at a page boundary, the program can write to
  -- every byte of the page that faulted and reads it as the content chosen for it (a letter, or the
  -- file's bytes), as far as the PTE decides; the fault is counted, and exactly the page of the
  -- fault is woken.
  pub handle_event-shows :
      (args : PfhandleArgs) (ev : Event) (p : Process impl)
      → IsServed args ev
      → laws.Mapped 0 ev.address p.tables
      → laws.Mapped 0 ev.given_page p.tables
      → ev.given_page % page_size ≡ 0
      → ev.address < 2 ^ 64
      → (args' : PfhandleArgs) × (p' : Process impl) × (handle_event impl file args ev p
          ≡ next (args', p'))
        × ((k : ℕ)
            → k < page_size
            → ReadsAs impl p'
                (ev.address / page_size * page_size + k)
                (page_content file args ev k))
        × (args'.fault_cnt ≡ args.fault_cnt + 1)
        × (p'.woken ≡ (ev.address / page_size * page_size, page_size) ∷ p.woken)
  unfolding wake_range install_page fill_page
  handle_event-shows args ev p ok mapped given aligned small = (
    _,
    _,
    handle_event-served args ev p ok,
    λ k lt.
        shown_bytes impl laws (page_content file args ev) ev p mapped given aligned k lt
          (wake_range ev ∷ p.woken),
    refl,
    ap (λ a. (a, page_size) ∷ p.woken) (page_start ev.address small),
  )
