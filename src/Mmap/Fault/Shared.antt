-- ===== src/Mmap/Fault/Shared.antt =====
-- The handlers of several regions, each a thread in `page_fault_handler`, with the one variable `msg`
-- that they share since it is static: each access to it is a step of its own.
use mathlib.Core.Path.{subst}
use user_level_mmap.Base.{ℕ, ◌≡◌, refl, sym, Bool, true, false, List, [], ◌∷◌, All, update}

-- Where a handler stands in its round.
pub data Pc : Type 0 where
  polling : Pc  -- before the `read` into `msg`
  was_read : Pc  -- before the content is put into the new page
  filled : Pc  -- before `ptedit_resolve`
  resolved : Pc  -- before `ptedit_update`
  updated : Pc  -- before UFFDIO_WAKE

-- What a handler does with the address in `msg`.
pub data Use : Type 0 where
  fill resolve update_pte wake : Use

-- A use by a thread that was sent the address `sent`, at the address that `msg` has.
pub record Used : Type 0 where
  pub thread : ℕ
  pub use_of : Use
  pub sent : ℕ
  pub at : ℕ

-- The address in `msg`, the handlers, the address of the last event that each of them was sent, and
-- the uses so far, the last one first.
pub record Handlers : Type 0 where
  pub msg : ℕ
  pub pc : ℕ → Pc
  pub sent : ℕ → ℕ
  pub uses : List Used

-- The uses of `msg` in a round, in their order; only a region with a file has one for the content of
-- its pages, the offset in that file.
pub data Next : (has_file : Bool) → Pc → Use → Pc → Type 0 where
  content : Next true was_read fill filled
  old_pte : {has_file : Bool} → Next has_file filled resolve resolved
  new_pte : {has_file : Bool} → Next has_file resolved update_pte updated
  woken : {has_file : Bool} → Next has_file updated wake polling

abbrev pub init : Handlers
init = record { msg = 0; pc = λ t. polling; sent = λ t. 0; uses = [] }

-- Which of the regions have a file: those whose `fd` is not -1.
module _ (has_file : ℕ → Bool) where
  pub data Step (h : Handlers) : Handlers → Type 0 where
    read :
        (t address : ℕ)
        → h.pc t ≡ polling
        → Step h (record h {
          msg = address;
          pc = update h.pc t was_read;
          sent = update h.sent t address;
        })
    -- `memset` of the page of a region without a file
    sets_page :
        (t : ℕ)
        → h.pc t ≡ was_read
        → has_file t ≡ false
        → Step h (record h { pc = update h.pc t filled })
    uses_msg :
        (t : ℕ) {p p' : Pc} {u : Use}
        → h.pc t ≡ p
        → Next (has_file t) p u p'
        → Step h (record h {
          pc = update h.pc t p';
          uses = record { thread = t; use_of = u; sent = h.sent t; at = h.msg } ∷ h.uses;
        })

  -- Steps of the handlers in any order.
  pub data Reach : Handlers → Type 0 where
    start : Reach init
    later : {h h' : Handlers} → Reach h → Step h h' → Reach h'

-- What the handler of the first region does with an event.
abbrev pub used : (sent at : ℕ) → Use → Used
used sent at u = record { thread = 0; use_of = u; sent = sent; at = at }

-- For any two addresses, the handlers of two regions that run freely, with files or without, can come
-- to this: the one that was sent the first address has finished its round, and all that it did was at
-- the second one, where it resolved, wrote the PTE and woke.
pub Reach-mixed :
    (has_file : ℕ → Bool) (a b : ℕ)
    → (h : Handlers) × Reach has_file h
      × (h.pc 0 ≡ polling)
      × (h.sent 0 ≡ a)
      × All (λ x. (x.thread ≡ 0) × (x.at ≡ b)) h.uses
      × ((before : List Used) × (h.uses
            ≡ used a b wake ∷ used a b update_pte ∷ used a b resolve ∷ before))
Reach-mixed has_file a b = with_content (has_file 0) refl
  where
    with_content :
        (f : Bool)
        → has_file 0 ≡ f
        → (h : Handlers) × Reach has_file h
          × (h.pc 0 ≡ polling)
          × (h.sent 0 ≡ a)
          × All (λ x. (x.thread ≡ 0) × (x.at ≡ b)) h.uses
          × ((before : List Used) × (h.uses
                ≡ used a b wake ∷ used a b update_pte ∷ used a b resolve ∷ before))
    with_content true e = (
      _,
      later
          (later
            (later
              (later (later (later start (read 0 a refl)) (read 1 b refl))
                (uses_msg 0 refl (subst (λ x. Next x was_read fill filled) (sym e) content)))
              (uses_msg 0 refl old_pte))
            (uses_msg 0 refl new_pte))
          (uses_msg 0 refl woken),
      refl,
      refl,
      ((refl, refl), ((refl, refl), ((refl, refl), ((refl, refl), tt)))),
      (used a b fill ∷ [], refl),
    )
    with_content false e = (
      _,
      later
          (later
            (later
              (later (later (later start (read 0 a refl)) (read 1 b refl)) (sets_page 0 refl e))
              (uses_msg 0 refl old_pte))
            (uses_msg 0 refl new_pte))
          (uses_msg 0 refl woken),
      refl,
      refl,
      ((refl, refl), ((refl, refl), ((refl, refl), tt))),
      ([], refl),
    )
