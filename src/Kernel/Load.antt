-- ===== src/Kernel/Load.antt =====
-- Loading and unloading the module: what it registers with the kernel.
use user_level_mmap.Base.{◌≡◌, Bool, true, false, ◌&&◌, not, if◌then◌else◌, arith}

-- What the calls of `pteditor_init` return.
pub record Lookup : Type 0 where
  pub kallsyms_found : Bool
  pub register_failed : Bool
  pub flush_found : Bool
  pub invpcid_single : Bool
  pub cr4_found : Bool
  pub probe_failed : Bool
  pub umem_found : Bool

-- What the kernel holds for the module, and its variable `has_umem`.
pub record Loaded : Type 0 where
  pub device : Bool
  pub probe : Bool
  pub umem_entry : Bool
  pub has_umem : Bool

abbrev pub unloaded : Loaded
unloaded = record { device = false; probe = false; umem_entry = false; has_umem = false }

-- `true` is the 0 of the code, `false` its -ENXIO.
unfoldable pub pteditor_init : Lookup → Loaded → Bool × Loaded
pteditor_init l s =
    let registered = record s { device = true } in
    let probed = if l.probe_failed then registered else record registered { probe = true } in
    let served =
      if not l.umem_found then probed else record probed { umem_entry = true; has_umem = true } in
    if not l.kallsyms_found
    then (false, s)
    else if l.register_failed
    then (false, s)
    else if not l.flush_found
    then (false, registered)
    else if not l.invpcid_single && not l.cr4_found
    then (false, registered)
    else (true, served)

pub pteditor_exit : Loaded → Loaded
pteditor_exit s =
    let probeless = record s { device = false; probe = false } in
    if s.has_umem then record probeless { umem_entry = false } else probeless

-- Once a load succeeded, unloading leaves nothing registered.
pub pteditor_exit-pteditor_init :
    (l : Lookup) (s : Loaded)
    → pteditor_init l unloaded ≡ (true, s)
    → ((pteditor_exit s).device ≡ false)
      × ((pteditor_exit s).probe ≡ false)
      × ((pteditor_exit s).umem_entry ≡ false)
unfolding pteditor_init pteditor_exit
pteditor_exit-pteditor_init l s e = ground arith

-- A load that fails leaves the device registered exactly when `misc_register` had succeeded before
-- the failure, and neither the probe nor the entry of /proc.
pub pteditor_init-failed :
    (l : Lookup) (s : Loaded)
    → pteditor_init l unloaded ≡ (false, s)
    → (s.device ≡ (l.kallsyms_found && not l.register_failed))
      × (s.probe ≡ false)
      × (s.umem_entry ≡ false)
unfolding pteditor_init
pteditor_init-failed l s e = ground arith
