-- ===== src/Userfaultfd/Serve.antt =====
-- What the handler of the demo does with a fault, and how many faults it can serve.
use user_level_mmap.Base.{
  ℕ, ◌+◌, ◌*◌, ◌/◌, ◌%◌, ◌^◌, ◌<◌, ◌≡◌, ◌≢◌, refl, ap, true, false, some, ◌∷◌, lt→ltb, ne→==,
}
use user_level_mmap.Ptedit.Interface.{Implementation, IsImplementation}
use user_level_mmap.Mmap.Fault.{
  page_size, Event, next, Process, translate, ReadsAs, wake_range, install_page, store_bytes,
}
use user_level_mmap.Mmap.Fault.Install.{page_start, shown_bytes}
use user_level_mmap.Userfaultfd.{Handler, bufpool_size, letter, with_buffer, serve}

-- The calls of a round succeed, the event is a page fault, and a buffer is left.
pub record IsReady (h : Handler) (ev : Event) : Type 0 where
  pub polled : ev.poll_failed ≡ false
  pub count : ℕ
  pub some_read : ev.nread ≡ some count
  pub nonzero : count ≢ 0
  pub fault : ev.is_pagefault ≡ true
  pub left : h.fault_cnt < bufpool_size
  pub woken : ev.wake_failed ≡ false

module _ (impl : Implementation) where
  -- The buffer with its letter.
  abbrev pub filled : Handler → Process impl → Process impl
  filled h p = record p {
    bytes =
        store_bytes page_size (λ k. translate impl p.tables (h.bufpool h.fault_cnt + k))
          (λ k. letter h.fault_cnt) p.bytes;
  }

  pub serve-served :
      (h : Handler) (ev : Event) (p : Process impl)
      → IsReady h ev
      → serve impl h ev p
        ≡ next (
          record h { fault_cnt = h.fault_cnt + 1 },
          record (install_page impl (with_buffer h ev) (filled h p)) {
            woken = wake_range ev ∷ p.woken;
          },
        )
  unfolding serve install_page
  serve-served h ev p ok = simp (
    ok.polled,
    ok.some_read,
    ne→== ok.count 0 ok.nonzero,
    ok.fault,
    lt→ltb h.fault_cnt bufpool_size ok.left,
    ok.woken,
  )

module _ (impl : Implementation) (laws : IsImplementation impl) where
  -- A round in which all calls succeed serves the fault with the next buffer: where the tables have
  -- a PTE for the fault address and one for the buffer, and that starts at a page boundary, the
  -- program can write to every byte of the page that faulted, as far as its PTE decides, and reads it
  -- as the letter of the count; the count goes up by one, and exactly the page of the fault is woken.
  pub serve-shows :
      (h : Handler) (ev : Event) (p : Process impl)
      → IsReady h ev
      → laws.Mapped 0 ev.address p.tables
      → laws.Mapped 0 (h.bufpool h.fault_cnt) p.tables
      → h.bufpool h.fault_cnt % page_size ≡ 0
      → ev.address < 2 ^ 64
      → (h' : Handler) × (p' : Process impl) × (serve impl h ev p ≡ next (h', p'))
        × ((k : ℕ)
            → k < page_size
            → ReadsAs impl p' (ev.address / page_size * page_size + k) (letter h.fault_cnt))
        × (h'.fault_cnt ≡ h.fault_cnt + 1)
        × (p'.woken ≡ (ev.address / page_size * page_size, page_size) ∷ p.woken)
  unfolding wake_range install_page
  serve-shows h ev p ok mapped given aligned small = (
    _,
    _,
    serve-served impl h ev p ok,
    λ k lt.
        shown_bytes impl laws (λ k. letter h.fault_cnt) (with_buffer h ev) p mapped given aligned k
          lt (wake_range ev ∷ p.woken),
    refl,
    ap (λ a. (a, page_size) ∷ p.woken) (page_start ev.address small),
  )
