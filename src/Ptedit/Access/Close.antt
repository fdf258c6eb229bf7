-- ===== src/Ptedit/Access/Close.antt =====
-- A session with PTEditor, from `ptedit_init` to `ptedit_cleanup`.
use mathlib.Core.Path.{subst}
use user_level_mmap.Base.{
  ℕ, ◌≡◌, ◌≢◌, refl, sym, ap, Bool, true, false, Option, none, some, List, ◌∷◌, arith, eq→==, ne→==,
}
use user_level_mmap.Ptedit.Access.{
  Session, init, cleanup, closed, remaining, opened, use_implementation,
}

closed-head : (d : ℕ) (files : List ℕ) → closed d (d ∷ files) ≡ files
closed-head d files = rw (eq→== d d refl) refl

closed-second : (d u : ℕ) (files : List ℕ) → d ≢ u → closed d (u ∷ d ∷ files) ≡ u ∷ files
closed-second d u files ne = rw (ne→== d u ne, eq→== d d refl) refl

-- No choice of an implementation opens or closes a file.
files-use_implementation :
    (granted : Bool) (implementation : ℕ) (s : Session)
    → let t = use_implementation granted implementation s in
      (t.fd ≡ s.fd) × (t.umem ≡ s.umem) × (t.open_files ≡ s.open_files)
unfolding use_implementation
files-use_implementation granted implementation s = ground arith

remaining-opened :
    (d : ℕ) (umem : Option ℕ) (files : List ℕ)
    → umem ≢ some 0
    → umem ≢ some d
    → remaining (some d) umem (opened umem (d ∷ files)) ≡ files
remaining-opened d none files nz ne = closed-head d files
remaining-opened d (some u) files nz ne =
    let nonzero : u ≢ 0 = λ q. nz (ap some q) in
    let differ : d ≢ u = λ q. ne (ap some (sym q)) in
    rw (ne→== u 0 nonzero, closed-second d u files differ) (closed-head u files)

-- After `ptedit_init` succeeded, whatever implementation is chosen, `ptedit_cleanup` leaves open
-- exactly the files that were open before, if the descriptor of /proc/umem differs from that of
-- the device and is not 0.
pub cleanup-init :
    (granted : Bool) (d implementation : ℕ) (umem : Option ℕ) (s s' : Session)
    → init (some d) umem s ≡ (true, s')
    → umem ≢ some 0
    → umem ≢ some d
    → (cleanup (use_implementation granted implementation s')).open_files ≡ s.open_files
unfolding init cleanup
cleanup-init granted d implementation umem s s' e nz ne =
    let t = record s { fd = some d; umem = umem; open_files = opened umem (d ∷ s.open_files) } in
    let (f, u, o) = files-use_implementation false 0 t in
    let (f', u', o') =
      files-use_implementation granted implementation (use_implementation false 0 t) in
    subst (λ r. (cleanup (use_implementation granted implementation r)).open_files ≡ s.open_files)
      (λ i. (e i).1) (rw (f', u', o', f, u, o) (remaining-opened d umem s.open_files nz ne))
