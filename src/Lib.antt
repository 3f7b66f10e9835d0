-- ===== src/Lib.antt =====
-- A verification library for the Pintos kernel of this repository.
--
-- The kernel (src/) is a monolithic teaching kernel in C. src/threads schedules threads and
-- offers semaphores, locks and condition variables; src/devices drives the hardware, and its
-- timer wakes sleeping threads; src/lib/kernel holds the lists, bitmaps and hash tables that the
-- rest is built on; src/vm swaps pages out when memory is full; src/userprog runs user programs,
-- and src/filesys keeps files.
--
-- The model. A function that can fail an ASSERT or call PANIC returns an Option, and `none` is
-- the panic. A pointer is the address it holds, a number, and NULL is `none`. A structure is a
-- record, and code that changes static data takes and returns a record of that data. A list of
-- the kernel is the sequence of its elements. An integer of 32 bits that could overflow is taken
-- modulo 2 ^ 32.
--
-- Which file models which part:
-- - Common: names of the libraries, tests, lists, the monad of panics, binary digits,
--   permutations.
-- - Threads.Kernel: `struct thread` and the static data of src/threads/thread.c as the record
--   Kernel, and thread_block, thread_unblock, thread_yield, thread_exit, thread_tick, schedule
--   and the rest under the names of the C functions; Threads.Create: thread_create, thread_init
--   and thread_start. Threads.Synch: src/threads/synch.c over the same Kernel, since a
--   semaphore's waiters are threads. A call that goes to sleep ends where the next thread
--   begins, and sema_down_from is where the sleeper goes on; the interrupt level of
--   src/threads/interrupt.c is part of Kernel, and so is whether an external interrupt is
--   handled, in which intr_set_level does not turn interrupts on. Threads.Invariant and
--   Threads.Waiting say when these data are consistent; Threads.System is any number of threads
--   that interleave at each switch, as a step relation.
-- - Order: the functions of src/lib/kernel/list.c that depend on the order of the elements.
-- - Links: the links of src/lib/kernel/list.c, an element being an address in a heap; IsList in
--   Links.Chain says which sequence of elements a list has.
-- - Timer: the sleeping threads of src/devices/timer.c, over Kernel and Order.
-- - Bitmap: src/lib/kernel/bitmap.c, in words of 32 bits.
-- - Palloc: src/threads/palloc.c, over Bitmap.
-- - Intq: src/devices/intq.c, over Kernel and Threads.Synch.
-- - Block and Swap: sectors of src/devices/block.c, and src/vm/swap.c over them and Bitmap.
-- - Frames: the frame table and the clock of src/vm/frame.c.
-- - Hash: src/lib/kernel/hash.c. An element is the address of its hash_elem, and the hash
--   function and the order are a record HashFuncs with the laws IsKeyed; Hash.Buckets counts the
--   elements of the buckets, Hash.Power is about the number of buckets, Hash.Table says when a
--   table is consistent, Hash.Map is the view as a finite map, Hash.Iterator and Hash.Visit are
--   the ways to visit each element.
-- - Memory: the blocks and strings of src/lib/string.c, in a memory that gives each address its
--   byte; Memory.Move is about memcpy and memmove, Memory.Copy about strlen, strnlen and
--   strlcpy.
-- - Pagedir: src/userprog/pagedir.c with the words of src/threads/pte.h, in a memory of 32-bit
--   words; Pagedir.Tables says when a directory and its page tables are consistent.
-- - Process: src/userprog/process.c. Process.Arguments: argument_parse and argument_push, and
--   strtok_r of src/lib/string.c; Process.Pushes and Process.Stack are about the stack.
--   Process.Load: load, validate_segment. Process.Family: a process and its parent, over the
--   semaphores in `struct thread`, as a step relation whose steps are functions named for the C
--   functions they are parts of; Process.Places and Process.Reaping are its invariant,
--   Process.Outcome what holds if start_process finds a page for argv, and Process.Unstarted
--   what happens if it does not. The parent is one that calls sys_exec, not the first thread of
--   src/threads/init.c.
-- - File: src/filesys/file.c, over the record Inodes of the functions of src/filesys/inode.c
--   that it calls. File.Fd: src/userprog/fd.c and the system calls on descriptors of
--   src/userprog/syscall.c; File.Fd.Table is about the table, File.Fd.Calls about the calls.
-- - Spt: the pages of src/vm/spt.c that are loaded from files, src/vm/mmap.c, and sys_mmap of
--   src/userprog/syscall.c, over Pagedir.
--
-- Bounds and fuel. The passes of list_sort run on fuel, the length of the list and one; each
-- pass but the last takes away a run. The clock of evict_frame runs on twice the number of
-- frames, since one round clears the accessed bits. cond_broadcast recurses on the number of
-- waiters. list_size runs on the fuel it is given. The loop of rehash runs on the number it
-- starts with, which each round makes smaller; the idiom of the iterators on one more than the
-- number of elements; argument_parse on one more than the length of the line; strlen and strlcpy
-- on rounds that are more than the length of the string; word_align on four rounds; the loop of
-- spt_initialize_file_as_lazy on the number of pages, which is enough if the bytes are a whole
-- number of pages.
--
-- Not modelled: src/threads/thread.c and synch.c are taken without USERPROG and VM, as the
-- Make.vars of src/threads builds them; Process.Family has the members that USERPROG adds. Stack
-- frames, the context switch in assembly, the drivers of devices, the TLB and the output of
-- statistics are left out, and so are, so far, src/threads/malloc.c, the dispatch of system
-- calls, sys_read and sys_write, page faults, the pages of src/vm/spt.c in memory and in swap,
-- and the rest of src/filesys. Where malloc or palloc_get_page is called by Hash, Pagedir and
-- Spt, what it returns is an argument.
pub mod Common
pub mod Threads
pub mod Memory
pub mod File
pub mod Order
pub mod Timer
pub mod Bitmap
pub mod Hash
pub mod Intq
pub mod Block
pub mod Spt
pub mod Swap
pub mod Frames
pub mod Links
pub mod Pagedir
pub mod Process
pub mod Palloc
