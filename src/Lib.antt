-- ===== src/Lib.antt =====
-- A verification library for the FOS kernel and its user library: its lists, its heaps and their block
-- allocator, its frames and page tables, its shared memory, its process queues and schedulers, its
-- locks that sleep and that spin, its page file, its page replacement, the checks of its faults and its string
-- routines.
--
-- The parts and their files (paths from the root of the repository):
-- - Queue: the list macros of inc/queue.h. A store of links (`next` and `prev` of an address) and a
--   head are passed along; LIST_INSERT_TAIL is `insert_tail`, LIST_REMOVE is `remove`, and so on.
-- - KHeap: kern/mem/kheap.c. The state is the list of free regions, the list of allocated ones, the
--   break and the lock; page_alloc_custom_fit, kmalloc, merge_bulks and kfree keep their names. A
--   list of regions stands for the chain of struct Bulk, each with the address of its node. The
--   block allocator and the frame manager are the record `Below`, and `Reliable` says what is
--   relied on of them while they have room: `Ready n` holds of a state from which `n` more calls
--   that take memory find it, and a theorem asks for as many as its calls make.
-- - BlockAlloc: lib/dynamic_allocator.c and inc/dynamic_allocator.h, the allocator of small blocks of
--   both heaps. `block_size` and `num_of_free_blocks` are the members of pageBlockInfoArr as functions
--   of a page's index, the free lists are lists of addresses; `Pages` are get_page and return_page.
--   The invariant `IsBlockAlloc` ties the counters of pages to the free lists.
-- - Frames: kern/mem/memory_manager.c and kern/mem/paging_helpers.c. A frame is its number; the entries
--   of all page tables are one store, `link` are the entries of the directories. `IsCounted` says that
--   the references of each frame are the entries that stand for it and those held otherwise, and that
--   the free frames are those without references, other than the ones in hand between allocate_frame
--   and map_frame. kheap_virtual_address and kheap_physical_address of kern/mem/kheap.c are in
--   Frames/Address, allocate_user_mem and free_user_mem of kern/mem/chunk_operations.c in
--   Frames/Chunk, where the loops have three rounds more than the size has whole pages, enough for the
--   pages at both ends and the last test. kmalloc and kfree of a table are parameters.
-- - UHeap: lib/uheap.c, with the lists of free regions of KHeap. The block allocator and the system
--   calls are its record `Below`.
-- - Share: kern/mem/shared_memory_manager.c. The list of objects and their frames; the kernel heap and
--   the frame manager are its record `Below`, relied on in `Works` while they have room. A size is the
--   int that struct Share keeps.
-- - Sched: kern/cpu/sched_helpers.c, kern/cpu/sched.c and the checks of sched and yield in
--   kern/proc/user_environment.c. A queue is the list of its processes; a process is its address,
--   and `env` gives its fields. A call may stop, which is `none`: a panic or a failed assertion. The
--   lock of the queues is a flag; its acquire and its release are pushcli and popcli too, on `ncli`,
--   `intena` and `interrupts`, which sched checks. So it is with the guards of Conc.
-- - Conc: kern/conc/channel.c, ksemaphore.c and sleeplock.c, over the state of Sched. The code that
--   sleeps is cut at the switch into a half before it and a half after it. Conc/Interleaved interleaves the
--   calls of any processes on one sleep lock, each up to its switch or its end, as steps between states
--   of the lock and of the places of the processes; a process releases the lock only while it holds it,
--   which release_sleeplock does not check. A sleeper is woken when a release left it in a ready queue.
-- - Spin: kern/conc/kspinlock.c, pushcli and popcli of kern/cpu/cpu.c, on one CPU.
-- - PageFile: kern/disk/pagefile_manager.c. The pages of the kernel heap that hold the disk's directories
--   and tables are one store of words, a disk frame is its number, and the sectors of the disk belong to
--   the state below, whose operations (kmalloc, kfree and the driver's) are the record `Below` with the
--   hypotheses `Reliable`. `IsKept` says that each frame of the file is free or stands in one entry;
--   `stored` is what the file promises, a map from the pages of the processes to contents. The operations
--   on single pages are in PageFile, the others in PageFile/Whole. PageFile/Heap puts the page file above
--   the kernel heap of KHeap.
-- - Trap: the checks of fault_handler in kern/trap/fault_handler.c, up to the call of the handler of page
--   faults, and the system calls of kern/trap/syscall.c on the user heap and on single pages.
-- - Fault: kern/trap/fault_handler.c (the victims of LRU aging, the clock and
--   the modified clock, get_optimal_num_faults) and update_WS_time_stamps of kern/cpu/sched.c.
-- - Str: lib/string.c. A string is the list of its bytes before the null.
-- - Base: lists, options, integers, and the monad of code that may stop.
--
-- Machine words are natural numbers with their wrap-around written out. Loops without a structure
-- to follow run on fuel: the loops over pages have a round for each page and one more, wakeup_all
-- has a round for each sleeper and one more, and ltostr has more rounds than the value. Where a
-- theorem says that a call returns, the fuel is part of what is proved.
--
-- Not modelled: the context switch, the TLB, the contents of pages other than those that go to the page file,
-- working sets, the creation of processes, the dispatch of traps, devices, the console and the commands: they
-- are machine state, input and output, or wait for the parts they stand on. Locks other than the sleep locks
-- and the spin locks themselves are flags or are left out, as each file says. A page table that was moved out
-- of memory stops the model, as its way through fault_handler(NULL) stops the kernel. The static map of
-- memory at KERNEL_BASE is not counted by the kernel and not among the entries. The counters of
-- processes do not come near their bounds, and ticks does not wrap.
pub mod Base
pub mod PageFile
pub mod Trap
pub mod Spin
pub mod Queue
pub mod KHeap
pub mod Sched
pub mod Conc
pub mod Fault
pub mod Frames
pub mod Str
pub mod Share
pub mod UHeap
pub mod BlockAlloc
