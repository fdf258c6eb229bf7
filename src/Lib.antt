-- ===== src/Lib.antt =====
-- Verification library of user_level_mmap: memory mappings whose page faults a thread of the same
-- process handles, by writing page-table entries through PTEditor.
--
-- How the parts interact. `ul_mmap` (src/user_level_mmap.cc) reserves a region, registers it with a
-- userfaultfd and starts a thread in `page_fault_handler`, which fills a page for each fault and
-- puts its frame into the PTE of the fault address. It reads and writes PTEs through the function
-- pointers `ptedit_resolve` and `ptedit_update` of PTEditor (PTEditor/ptedit.c), which reach the
-- tables either through a mapping of physical memory or through the ioctls of a kernel module
-- (PTEditor/module/pteditor.c). `MemoryPool` (src/phy_page_pool.h) keeps free pages in one list per
-- pool.
--
-- Files.
--   Base      numbers, bits of words, lists and Boolean tests that the parts share.
--   Pool      class MemoryPool: the record has the fields of the class, and the functions
--             construct, destroy, get_rough_richest_pool, allocate and deallocate its methods, run
--             by one thread at a time. Pool/Invariant says which lists of free pages a state stands
--             for. Pool/Threads has allocate and deallocate as threads that interleave, one access
--             to shared memory per step, with compare-exchanges that fail and that fail spuriously;
--             Pool/Benchmark is memory_pool_test of src/mem_pool_benchmark.cc.
--   Ptedit    PTEditor in user space on x86_64: Entry (one word), Walk (ptedit_resolve_user_ext and
--             ptedit_update_user_ext over the words of physical memory), PteOps (ptedit_pte_*),
--             Pread (the same through /proc/umem, with calls that fail), MemoryType (ptedit_*_mt),
--             Access (ptedit_init, ptedit_cleanup, roots and whole pages). Interface states what
--             the two function pointers promise, and UserMap fills it with Walk.
--   Mmap      Fault is page_fault_handler over any implementation of that interface, Region is
--             ul_mmap and ul_munmap with the table of regions. Fault/Sequence is about many faults,
--             Fault/Regions about the handlers of several regions that take turns over the same
--             tables, Fault/Shared about the handlers of several regions and the static variable
--             they share, Region/Reads joins ul_mmap, its handler and the bytes that the program
--             reads, Setup joins runs of ul_mmap and ul_munmap with the variables of PTEditor
--             (Ptedit/Access), and Demo is demos/user_level_mmap_demo/simple_mmap.cc.
--   Kernel    the kernel module: its two operations on page tables, Device (open, release, ioctl)
--             and Load (pteditor_init, pteditor_exit). Implementation fills the interface of
--             PTEditor with ptedit_resolve_kernel and ptedit_update_kernel. The functions of the
--             kernel are parameters; Agrees states what is assumed of them and compares the result
--             with that of the walk in user space.
--   Cache     experiments/neovmcache_vs_vmcache.cc: page states, three buffer managers behind one
--             interface (Managers), the loop that times them (Timing), their lock under threads
--             (Locking), the data file (DataFile) and main (Program).
--   Demos     programs that come with PTEditor: Memmap is PTEditor/demos/memmap.c, which prints all
--             pages of a process; MapPt, Virt2phys, Nx, Uncachable and Example are demos/map_pt.c,
--             demos/virt2phys.c, demos/nx.c, demos/uncachable.c and example.c there, with the
--             memory that they see.
--   Userfaultfd   demos/userfaultfd_demo/userfaultfd_demo.c, the handler with a pool of buffers and
--             main.
--
-- State is passed explicitly; a call of the system is an input (what it returned) or an entry of a
-- list of requests. Numbers are natural numbers, and the wrap-around of a machine word is written
-- out. Where a model leaves the bounds of a loop open it takes fuel: `allocate` counts its rounds
-- and a theorem says after which number it returns or still runs, `destroy` needs one round more
-- than the longest list of free pages, and the loops of the `fix` functions need one round for a
-- free page. Threads are relations on states, with no bound on their number or on the steps.
--
-- Not modelled: memory orders weaker than sequential consistency, the `int` range of counters of
-- faults, the Windows and aarch64 branches of PTEditor, printing, the instructions that flush the
-- TLB, the timing of benchmarks and the other demos of PTEditor. The mapping of physical memory, of
-- 32 GiB in the code, is taken to cover every address that is used. The page tables that a round of
-- the handler starts from are those after the page from `malloc` was filled, so that it has a PTE.
-- Whether an access of a program goes through is decided by the bits of its PTE alone (present, user
-- and, for a write, rw): the entries above it are taken to allow the access. A mapping of /proc/umem
-- that the kernel refuses and a `pread` that fails are inputs of the functions that call them.
pub mod Base
pub mod Cache
pub mod Demos
pub mod Kernel
pub mod Mmap
pub mod Pool
pub mod Ptedit
pub mod Userfaultfd
