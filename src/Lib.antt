-- ===== src/Lib.antt =====
-- Infinity OS: the synchronization primitives, the address spaces and the data structures of its
-- kernel.
--
-- Threads (source/kernel/proc/thread.c) sleep on lists of waiters that the objects of
-- source/kernel/sync keep under their spinlocks: semaphores, mutexes, readers-writer locks and
-- condition variables. Objects that can be waited for run notifiers (source/kernel/lib/notifier.c).
-- A pipe (source/kernel/ipc/pipe.c) is a ring buffer between two semaphores. source/kernel/lib holds
-- the data structures that the rest of the kernel uses; the object manager (source/kernel/object.c)
-- keeps its handle IDs in a bitmap of these, and the virtual memory (source/kernel/mm/vm.c) finds the
-- mappings of a process in an AVL tree.
--
-- Base holds shared helpers: tests and lists on native numbers, and the integers for timeouts.
-- Status is source/kernel/include/kernel/status.h. Each component is a module named for its source
-- file, with the C functions under their own names, and child modules for what is proved:
--   Thread        source/kernel/proc/thread.c: sleep, wake, timeout, kill, interrupt
--   Notifier      source/kernel/lib/notifier.c
--   Sync          source/kernel/sync/semaphore.c, source/kernel/sync/mutex.c,
--                 source/kernel/sync/rwlock.c, source/kernel/sync/condvar.c
--   Bitmap        source/kernel/lib/bitmap.c, with the bit operations of the amd64 architecture
--   IdAllocator   source/kernel/lib/id_allocator.c
--   Pipe          source/kernel/ipc/pipe.c: the ring buffer with its two semaphores
--   RadixTree     source/kernel/lib/radix_tree.c: lookup, insertion and removal
--   FixedHeap     source/kernel/lib/fixed_heap.c
--   Object        source/kernel/object.c: handles, the tables of processes and their system calls
--   Time          source/kernel/time.c: the conversion of dates
--   AvlTree       source/kernel/lib/avl_tree.c: insertion, removal, lookup and the walk in order
--   AddressSpace  source/kernel/mm/vm.c: the regions of an address space, in AddressSpace their
--                 structures and the search, in Change trimming and insertion, in Allocation the
--                 free lists, in Mapping the public functions, in Creation a new address space
--
-- A function that the source runs under a spinlock is one step on a store of threads and the
-- object. Where a function sleeps it is cut in two: the part up to the sleep, and the part that
-- follows it. The state machines (in Sync.Semaphore.Ledger, Sync.Mutex.Calls,
-- Sync.Rwlock.System and Pipe.Flow) interleave these steps with timeouts, interrupts and scheduling
-- in any order. Waiting lists are lists of thread names, without the links of the doubly linked
-- lists.
--
-- A `size_t` has 64 bits: the units of a semaphore and the sizes of a heap wrap around as in the
-- source. How often a mutex is held, how many readers a lock has and how many references a handle or
-- a map has are unbounded. Loops recur on a list, a tree or the number of rounds; the loop up an AVL
-- tree has two rounds at each node, which a theorem shows to be enough. Memory that an allocation
-- returns, what the handle of a semaphore refers to and the other processors' timing are parameters
-- of the functions.
--
-- A handle is a name for a counted structure, and Object.System makes the calls of a process on its
-- table in any order, next to others that hold references; the calls of an object type's functions
-- are a log, and what a write to a user address returns is an argument. Fields of 32 bits wrap
-- around where dates are converted.
--
-- An address space is the list of its regions, with numbers for pointers to them. What an operation
-- means is given by Views.view: what stands at each address. The sums of addresses and sizes are
-- unbounded where the address space bounds them, and wrap around at 2^64 where vm_map, vm_unmap and
-- vm_reserve test for it; USER_BASE is 0 and the page size 4096, as for amd64. Page tables and the
-- names of regions are left out, and so are the pages in a map of pages, with the assertions on a map
-- but for those that the clone of a region meets. The calls on maps and handles are a log, and the
-- memory of a new region holds what an argument says.
--
-- Not modelled: drivers, architecture code, page faults and physical memory, file systems, processes
-- and the scheduler's queues, inter-process communication, and the user space libraries. The first
-- are hardware access for the most part; the others rest on the components above. Of the object
-- manager the waiting for events and their callbacks are left out, and of the clock the timers.
pub mod Base
pub mod Status
pub mod Thread
pub mod Notifier
pub mod Sync
pub mod Bitmap
pub mod IdAllocator
pub mod Pipe
pub mod RadixTree
pub mod FixedHeap
pub mod AvlTree
pub mod Object
pub mod Time
pub mod AddressSpace
