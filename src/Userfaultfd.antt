-- ===== src/Userfaultfd.antt =====
-- demos/userfaultfd_demo/userfaultfd_demo.c: a handler that serves each fault with the next one of
-- 1024 buffers, and a main thread that touches the region.
pub mod Serve
pub mod Touch
pub mod Main
mod Tests
use user_level_mmap.Base.{
  ℕ, zero, suc, ◌+◌, ◌*◌, ◌/◌, ◌%◌, ◌^◌, Bool, true, false, Option, none, some, List, [], ◌∷◌, ltb,
  ◌==◌, if◌then◌else◌, update,
}
use user_level_mmap.Ptedit.Interface.{Implementation}
use user_level_mmap.Mmap.Fault.{
  page_size, Event, Round, next, exit_failure, assert_failed, HandlerEnd, waiting, returned, exited,
  aborted, Process, translate, store_bytes, wake_range, install_page,
}

-- BUFPOOLSIZE
abbrev pub bufpool_size : ℕ
bufpool_size = 1024

-- The static variables of `fault_handler_thread`.
pub record Handler : Type 0 where
  pub fault_cnt : ℕ
  pub bufpool : ℕ → ℕ

-- The loop of `posix_memalign` at index `i`; `memalign i` is the address that round `i` gets.
pub init_loop : (left i : ℕ) → (memalign : ℕ → Option ℕ) → Handler → Option Handler
init_loop zero i memalign h = some h
init_loop (suc left) i memalign h = elim (memalign i) [
  | none ↦ none
  | some buffer ↦ init_loop left (i + 1) memalign (record h { bufpool = update h.bufpool i buffer })
]

-- Up to the loop over events; `none` is the end of the process.
pub init_handler : (memalign : ℕ → Option ℕ) → (ptedit_failed : Bool) → Handler → Option Handler
init_handler memalign ptedit_failed h =
    let pool : Option Handler = init_loop bufpool_size 0 memalign h in
    let ready : Option Handler = elim pool [
      | none ↦ none
      | some h' ↦ if ptedit_failed then none else some h'
    ] in
    if h.fault_cnt == 0 then ready else some h

-- The letter that fills the buffer; the count of faults is one up by then.
abbrev pub letter : (fault_cnt : ℕ) → ℕ
letter fault_cnt = (b'A' + (fault_cnt + 1) % 20) % 256

-- The event with the buffer that it is served with.
abbrev pub with_buffer : Handler → Event → Event
with_buffer h ev = record ev { given_page = h.bufpool h.fault_cnt }

module _ (impl : Implementation) where
  -- One round of the `for (;;)`.
  pub serve : Handler → Event → Process impl → Round (Handler × Process impl)
  serve h ev p =
      let buffer = h.bufpool h.fault_cnt in
      let filled = record p {
        bytes =
            store_bytes page_size (λ k. translate impl p.tables (buffer + k))
              (λ k. letter h.fault_cnt) p.bytes;
      } in
      let installed = install_page impl (with_buffer h ev) filled in
      let served =
        if ev.wake_failed
        then exit_failure
        else next (
          record h { fault_cnt = h.fault_cnt + 1 },
          record installed { woken = wake_range ev ∷ installed.woken },
        ) in
      if ev.poll_failed then exit_failure else elim ev.nread [
        | none ↦ exit_failure
        | some n ↦
            if n == 0
            then exit_failure
            else (if ev.is_pagefault
                then (if ltb h.fault_cnt bufpool_size then served else assert_failed)
                else exit_failure)
      ]

  pub serve_loop : Handler → List Event → Process impl → HandlerEnd (Handler × Process impl)
  serve_loop h [] p = waiting (h, p)
  serve_loop h (ev ∷ evs) p = elim (serve h ev p) [
    | next (h', p') ↦ serve_loop h' evs p'
    | exit_failure ↦ exited
    | assert_failed ↦ aborted
  ]

-- The loop of `main` that reads `addr[l]`; the list has the offsets that it reads, or is `none`
-- when the fuel ran out.
pub touch_loop : (fuel len l : ℕ) → Option (List ℕ)
touch_loop zero len l = none
touch_loop (suc fuel) len l =
    let rest : Option (List ℕ) = elim (touch_loop fuel len ((l + 1024) % 2 ^ 64)) [
      | none ↦ none
      | some ls ↦ some (l ∷ ls)
    ] in
    if ltb l len then rest else some []

-- From the first offset on, which is not at the start of a page.
pub touch : (fuel len : ℕ) → Option (List ℕ)
touch fuel len = touch_loop fuel len 0xf
