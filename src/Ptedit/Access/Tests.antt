-- ===== src/Ptedit/Access/Tests.antt =====
-- The session after `ptedit_init`.
use user_level_mmap.Base.{◌≡◌, refl, true, none, some, [], ◌∷◌}
use user_level_mmap.Ptedit.Access.{
  Session, unmapped, nothing, impl_kernel, use_implementation, init,
}

abbrev before : Session
before = record {
  fd = none;
  umem = none;
  chosen = nothing;
  paging_root = 0;
  vmem = unmapped;
  open_files = 2 ∷ 1 ∷ 0 ∷ [];
  roots = λ pid. none;
}

abbrev after : Session
after = record before {
  fd = some 3;
  umem = some 4;
  chosen = impl_kernel;
  open_files = 4 ∷ 3 ∷ 2 ∷ 1 ∷ 0 ∷ [];
}

inits : init (some 3) (some 4) before ≡ (true, after)
unfolding init use_implementation
inits = refl
