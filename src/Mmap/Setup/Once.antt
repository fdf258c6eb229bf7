-- ===== src/Mmap/Setup/Once.antt =====
-- PTEditor is set up once, and before the first region is registered.
use mathlib.Core.Path.{subst}
use user_level_mmap.Base.{
  ℕ, ◌≡◌, refl, sym, ap, ◌∙◌, true, false, not, ◌⊎◌, inl, inr, Option, none, some, List, [], ◌∷◌,
}
use user_level_mmap.Ptedit.Interface.{Implementation}
use user_level_mmap.Ptedit.Access.{
  Session, unmapped, mapped, vmem_after, impl_user, get_paging_root, init, use_implementation,
}
use user_level_mmap.Mmap.Fault.{PfhandleArgs}
use user_level_mmap.Mmap.Region.{
  Library, UnmapEnd, gives, joining, process_ended, ul_mmap, ul_munmap,
}
use user_level_mmap.Mmap.Region.Map.{ul_mmap-IsMapped}
use user_level_mmap.Mmap.Region.Unmap.{ul_munmap-gives}
use user_level_mmap.Mmap.Setup.{
  Program, MmapCall, session_after, returning, mmap_region, Call, maps, unmaps, run,
}

-- PTEditor works on mapped physical memory, below the root of the process itself; one descriptor of
-- the device and one of /proc/umem are open besides the files of before.
pub record IsSetUp (files : List ℕ) (s : Session) : Type 0 where
  pub chosen : s.chosen ≡ impl_user
  pub mapped : s.vmem ≡ mapped
  pub rooted : s.paging_root ≡ get_paging_root 0 s
  pub device : ℕ
  pub fd : s.fd ≡ some device
  pub memory : ℕ
  pub umem : s.umem ≡ some memory
  pub open_files : s.open_files ≡ memory ∷ device ∷ files

-- Where `ul_mmap` sets PTEditor up, /proc/umem is opened and the kernel grants its mapping.
abbrev pub Granted : MmapCall → Type 0
Granted c = (c.granted ≡ true) × ((memory : ℕ) × (c.umem ≡ some memory))

-- The same of all calls of `ul_mmap` in a run.
abbrev pub AllGranted :
    (impl : Implementation) (file : (fd position : ℕ) → ℕ) → List (Call impl file) → Type 0
AllGranted impl file [] = Unit
AllGranted impl file (maps c ∷ cs) = Granted c × AllGranted impl file cs
AllGranted impl file (unmaps addr length evs q ∷ cs) = AllGranted impl file cs

-- No call has returned yet, or PTEditor is set up.
abbrev pub Ready : List ℕ → Program → Type 0
Ready files p =
    ((p.lib.pteditor_init_flag ≡ false)
      × (p.session.open_files ≡ files)
      × (p.session.vmem ≡ unmapped)
      × ((a : ℕ) → p.lib.mmap_regions a ≡ none))
    ⊎ ((p.lib.pteditor_init_flag ≡ true) × IsSetUp files p.session)

init-IsSetUp :
    (d memory : ℕ) (s : Session)
    → s.vmem ≡ unmapped
    → IsSetUp s.open_files (use_implementation true 2 (init (some d) (some memory) s).1)
unfolding init use_implementation get_paging_root
init-IsSetUp d memory s fresh = record {
  chosen = refl;
  mapped = ap (vmem_after true (some memory)) fresh;
  rooted = refl;
  device = d;
  fd = refl;
  memory = memory;
  umem = refl;
  open_files = refl;
}

-- Without the flag, the call ends the process where the device cannot be opened.
mmap_region-none :
    (c : MmapCall) (p : Program)
    → p.lib.pteditor_init_flag ≡ false
    → c.device ≡ none
    → mmap_region c p ≡ none
unfolding mmap_region ul_mmap init
mmap_region-none c p off closed = rw (off, closed) refl

some-returning :
    (o : Option (ℕ × Library)) (s : Session) (r : ℕ) (p' : Program)
    → returning s o ≡ some (r, p')
    → (l : Library) × (o ≡ some (r, l)) × (p'.lib ≡ l) × (p'.session ≡ s)
some-returning none s r p' e = cc
some-returning (some (a, l)) s r p' e =
    let out : ℕ × Program = (a, record { lib = l; session = s }) in
    let q : out ≡ (r, p') = cc in
    (l, (λ i. some ((q i).0, l)), (λ i. (sym q i).1.lib), (λ i. (sym q i).1.session))

-- What a call that returns has done.
mmap_region-some :
    (c : MmapCall) (p p' : Program) (r : ℕ)
    → mmap_region c p ≡ some (r, p')
    → (p'.lib.pteditor_init_flag ≡ true) × (p'.session ≡ session_after c.device c.umem c.granted p)
unfolding mmap_region
mmap_region-some c p p' r e =
    let replies = record c.replies { init_failed = not (init c.device c.umem p.session).0 } in
    let (lib', returned, lib, session) =
      some-returning (ul_mmap replies p.lib c.addr c.length c.prot c.flags c.fd c.offset)
        (session_after c.device c.umem c.granted p) r p' e in
    let m =
      (ul_mmap-IsMapped replies p.lib c.addr c.length c.prot c.flags c.fd c.offset r lib'
        returned).1 in
    (ap (λ l. l.pteditor_init_flag) lib ∙ m.initialised, session)

mmap_region-IsSetUp :
    (files : List ℕ) (c : MmapCall) (p p' : Program) (r : ℕ)
    → mmap_region c p ≡ some (r, p')
    → Granted c
    → Ready files p
    → (p'.lib.pteditor_init_flag ≡ true) × IsSetUp files p'.session
mmap_region-IsSetUp files c p p' r e (granted, (memory, umem)) ready =
    let (flag, session) = mmap_region-some c p p' r e in (flag, after ready c.device refl session)
  where
    after :
        Ready files p
        → (d : Option ℕ) → c.device ≡ d
        → p'.session ≡ session_after c.device c.umem c.granted p
        → IsSetUp files p'.session
    after (inr (on, up)) d h q = subst (IsSetUp files) (sym (q ∙ rw on refl)) up
    after (inl (off, before, fresh, empty)) none h q = cc (mmap_region-none c p off h, e)
    after (inl (off, before, fresh, empty)) (some d) h q =
        subst (IsSetUp files) (sym (q ∙ rw (off, h, granted, umem) refl)) (
          subst
            (λ fs. IsSetUp fs (use_implementation true 2 (init (some d) (some memory) p.session).1))
            before (init-IsSetUp d memory p.session fresh))

module _ (impl : Implementation) (file : (fd position : ℕ) → ℕ) where
  run-Ready :
      (files : List ℕ) (cs : List (Call impl file)) (p p' : Program)
      → run impl file cs p ≡ some p'
      → AllGranted impl file cs
      → Ready files p
      → Ready files p'
  unfolding run
  run-Ready files [] p p' e all ready = let q : p ≡ p' = cc in subst (Ready files) q ready
  run-Ready files (maps c ∷ cs) p p' e (granted, all) ready =
      of_call (λ p1 p'' q. run-Ready files cs p1 p'' q all) (mmap_region c p) refl e
    where
      of_call :
          ((p1 p'' : Program) → run impl file cs p1 ≡ some p'' → Ready files p1 → Ready files p'')
          → (o : Option (ℕ × Program)) → mmap_region c p ≡ o
          → elim o [ none ↦ none | some (r, p1) ↦ run impl file cs p1 ] ≡ some p'
          → Ready files p'
      of_call ih none h q = cc
      of_call ih (some (r, p1)) h q =
          ih p1 p' q (inr (mmap_region-IsSetUp files c p p1 r h granted ready))
  run-Ready files (unmaps addr length evs t ∷ cs) p p' e all ready =
      of_end (λ p1 p'' q. run-Ready files cs p1 p'' q all)
        (ul_munmap impl file p.lib addr length evs t) refl e
    where
      of_end :
          ((p1 p'' : Program) → run impl file cs p1 ≡ some p'' → Ready files p1 → Ready files p'')
          → (o : UnmapEnd) → ul_munmap impl file p.lib addr length evs t ≡ o
          → elim o [
            | gives r lib' ↦ run impl file cs (record p { lib = lib' })
            | joining lib' ↦ none
            | process_ended ↦ none
          ]
            ≡ some p'
          → Ready files p'
      of_end ih (gives r lib') h q =
          let (_, _, same) = ul_munmap-gives impl file p.lib lib' addr length r evs t h in
          ih (record p { lib = lib' }) p' q
            (subst (λ l. Ready files (record p { lib = l })) (sym same) ready)
      of_end ih (joining lib') h q = cc
      of_end ih process_ended h q = cc

  -- A program starts with no region, with its own files open and no mapping of physical memory. After
  -- any calls of `ul_mmap` and `ul_munmap`, one after the other, that all return, where /proc/umem can
  -- be opened and mapped when the calls ask for that: if a region is registered then PTEditor works
  -- on mapped physical memory below the root of the process itself, and however many calls there
  -- were, one descriptor of the device and one of /proc/umem are open besides the files of before.
  pub run-IsSetUp :
      (cs : List (Call impl file)) (p p' : Program) (addr : ℕ) (args : PfhandleArgs)
      → p.lib.pteditor_init_flag ≡ false
      → ((a : ℕ) → p.lib.mmap_regions a ≡ none)
      → p.session.vmem ≡ unmapped
      → run impl file cs p ≡ some p'
      → AllGranted impl file cs
      → p'.lib.mmap_regions addr ≡ some args
      → IsSetUp p.session.open_files p'.session
  run-IsSetUp cs p p' addr args off empty fresh returned all registered =
      elim (run-Ready p.session.open_files cs p p' returned all (inl (off, refl, fresh, empty))) [
        | inl (_, _, _, empty') ↦ cc (empty' addr, registered)
        | inr (_, up) ↦ up
      ]
