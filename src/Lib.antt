-- ===== src/Lib.antt =====
-- Verification of the FILES-CO kernel.
--
-- LinkedList models src/list.c and inc/list.h: the circular doubly linked lists, over a memory that
-- has a `struct list_head` at every address. Its theorems show that such a ring is a sequence. The
-- other parts use lists through that view.
--
-- PageAlloc models src/memory.c and inc/memory.h. A zone is a record with the range of its pages, the
-- word `flags` of each page, and a sequence for each of the lists `order[0]` to `order[18]`.
-- `page_alloc_zone` is `__page_alloc_zone` and `page_free_zone` is `__page_free_zone`; the search for a
-- list runs over the lists that are left, the splitting loop over the difference of the two orders, and
-- the merging loop over the orders up to MAX_ORDER, so none of them needs more fuel. PageAlloc.Setup
-- is `__page_alloc_zone_free`, with one round for each page of the range; PageAlloc.Zones has the
-- functions over all zones. A failed BUG_ON is `none`.
--
-- Rbtree models src/rbtree.c and inc/rbtree.h. A tree is data; a pointer to a node is a place, the subtree
-- there with the path up, so that links to parents need no store. Rbtree.Balance has the rule on colors and
-- black nodes, Rbtree.Order the sequence of a tree. `rb_insert` recurs on the path; the loop of
-- `rb_erase_fix` runs on fuel, two more than the length of the path, since a round with a red brother
-- makes the path longer by one, once. A null pointer that is followed is `none`.
--
-- Balloc models src/balloc.c and inc/balloc.h over the sequences of its trees, in which a place is the ranges
-- before it and those from it on; the searches down a tree find the first range of the sequence that is
-- not skipped. A pointer to a range is its begin, which no other range of the tree has, and following a
-- pointer to a freed node is `none`. Of the 128 nodes only the number of free ones is kept. The loop of
-- `__balloc_remove_range` runs on fuel, the ranges that are left. Balloc.Setup has the walk over the memory
-- map, with one round of fuel for each byte of the map, and takes the bounds of the kernel and what
-- `initramfs` returns as arguments.
--
-- Ctype models src/ctype.c and inc/ctype.h. StringOps models src/string.c and Stdlib src/stdlib.c, over a
-- memory with a byte at each address. `digits_loop` and `reverse_loop` run on fuel 64, the bits of the
-- largest value.
--
-- Threads models src/threads.c, src/spinlock.c, src/mutex.c and src/condition.c on one processor.
-- Threads.Spinlock has the kernel's state as a record: the threads, the one that runs, the run queue, the
-- interrupt flag and the preemption counter. A switch of threads is the change of `current`; the
-- operations that switch return in the thread that was switched to, which restores the interrupt flag that
-- it saved itself, and the code behind them runs when a switch comes back. `mutex_lock` ends before its
-- call of `schedule`, and `condition_wait` is not modelled.
--
-- Slab models src/alloc.c: the layout of a slab and the choice of a cache or of an order of pages.
-- `ilog2_loop` runs on fuel 65, one round for each power of 2 below 2 ^ 64. Slab.Pool has a slab with its
-- bit mask, as a list of 64-bit words; the searches for a word, a byte and a bit are `scan`, over a number
-- of candidates that the code fixes. Slab.Cache has a cache, whose three lists of slabs are sequences; the
-- pages for a new slab are an argument. `mem_alloc`, `mem_free` and `mem_realloc`, and the locks of the
-- caches, are left out.
--
-- Interrupts models src/i8259a.c, src/ints.c and src/time.c. Ports are a list of the bytes written to them,
-- the last one first; Interrupts.Pic.Chip reads them as the data sheet of the controller does. The tables of handlers are functions, a missing handler is `none`; the handler
-- that reports an unexpected interrupt and never returns is the result `none`.
--
-- FileSystem models src/file_system.c. FileSystem.Names has the levels of a path, over texts as lists of
-- characters. FileSystem.Nodes has the tree of nodes; a pointer to a node is its list of positions from the
-- root. FileSystem.Blocks has the descriptors of blocks by address, over the memory of StringOps, with the
-- wrap-around of 64 bits in its bounds; reading and writing run on fuel, one for each block of the chain.
-- The addresses that mem_alloc gives to allocate_fs_blocks are its argument.
--
-- Initramfs models the search for the archive and the reading of numbers in src/initramfs.c, over the memory
-- of StringOps, at physical addresses. Unpacking the archive is left out.
--
-- Print models src/print.c, over texts as lists of characters. Print.Decode is decode_format; the loop of
-- `__vprintf` is given the function that writes a piece and runs on fuel, one more than the characters of
-- the format. The arguments are a list of words, and the text at an address is a parameter, which printing
-- does not change. The size of a buffer is an int of 32 bits, and a count of characters that overflows
-- an int is `none`.
--
-- Not modelled: page tables, the serial port, backtraces, assembly, and the start of the kernel.
pub mod Balloc
pub mod Base
pub mod Ctype
pub mod FileSystem
pub mod Initramfs
pub mod Interrupts
pub mod LinkedList
pub mod PageAlloc
pub mod Print
pub mod Rbtree
pub mod Slab
pub mod Stdlib
pub mod StringOps
pub mod Threads
