-- ===== src/Lib.antt =====
-- A model of the MOS teaching kernel (kern/, include/) and of its services, with proofs.
--
-- Physical memory (Pmap) keeps a free list of pages, reference counts and two-level page tables.
-- Environments (Env) own a page directory each and an address space identifier (Asid); the
-- scheduler (Sched) keeps the list of runnable environments and hands out the processor; the
-- system calls (Syscall) name environments by identifiers, map pages and pass messages, and end in
-- the operations below them. Kernel is the state that they share.
-- Above the kernel, the file system server (Serv) keeps the table of open files and calls the file
-- system (Fs) on its disk; the user library reads and shares open files through descriptors (Fd)
-- and pipes (Pipe).
--
-- Base: shared names, lists, bits of machine words, and Run, the outcome of C code: a value, an
-- error code with the state it leaves, or a panic. `try(expr)` is the bind.
-- Mmu: include/mmu.h and include/pmap.h, addresses and table entries as 32-bit words; a page
-- directory or table is known by its page number, so KADDR and PADDR cancel.
-- Pmap: kern/pmap.c. Its children: FreeList (page_alloc, page_free, page_decref), Mapping
-- (page_lookup, page_remove), Insert (page_insert), Boot (page_init), Early (mips_detect_memory,
-- alloc, mips_vm_init).
-- Asid, Env: kern/env.c (asid_alloc, asid_free, mkenvid, envid2env, env_setup_vm, env_alloc,
-- env_run). The children of Env: Ids (identifiers), Running (env_run), Create (load_icode,
-- env_create), Start (map_segment, env_init), Consistent (the invariant of the environments and
-- their lists), Alloc, Adding, Booting and Creating (what establishes and keeps it).
-- Elf: lib/elfloader.c, over any mapper. Its children: Image (pages put into an address space),
-- Loading (elf_load_seg).
-- Sched: kern/sched.c (schedule). Its children: Slices (one call), Rotation (repeated yields),
-- Consistent (the invariant).
-- Syscall: kern/syscall_all.c. Its children: Ranges (address checks), Memory, Status, Ipc, and
-- Consistent, Calls, Waking and Forking (the invariant, call by call).
-- Machine: user memory, the devices (a parameter: what a transfer of bytes does to them),
-- kern/console.c, and the calls on devices of kern/syscall_all.c.
-- Traps: kern/traps.c and `do_syscall`. Its children: Consistent and Reachable (the invariant over
-- all entries into the kernel), Frames (do_tlb_mod and sys_set_trapframe).
-- Tlbex: kern/tlbex.c. Its child Refill: the refill loop.
-- Teardown: env_free and env_destroy of kern/env.c, sys_env_destroy of kern/syscall_all.c. Its
-- children: Unlisted (an environment that is not on the scheduling list), Consistent (the
-- invariant).
-- Queue: the tail queues of include/queue.h with their pointers. Its children: Linked (what each
-- macro does to the sequence), Refinement (the scheduling list of Kernel by pointers).
-- Fs: the bitmap and the block cache of fs/fs.c. Its children: Start (fs_init; Start/Loading and
-- Start/Ready are about it), Bitmap (allocation and freeing of blocks), Cache (blocks with their
-- pages), Reload (write back and read again), Files (struct File, its block map, sizes, flushing;
-- Files/Blocks is about the block map), Paths (directories, paths, creation and removal;
-- Paths/Walking is about the walk). The super block and the bitmap stand apart from the other
-- words of the cache; a struct File is known by its block and the word in the page where it
-- starts.
-- Serv: fs/serv.c, over Fs. Its children: Table (open_alloc, open_lookup), Opening (serve_open),
-- Unopened (requests on entries never opened). The sends of the server are logged.
-- Fd: user/lib/fd.c, over any devices. Its children: Dup (dup; Copying and Sharing are about it),
-- Files (the reads of user/lib/file.c), Least (fd_alloc), Reading (read and readn on a file). A
-- read returns the bytes that the source copies to its buffer.
-- Pipe: user/lib/pipe.c. Its children: Fifo (the ring as a queue, drain and fill), Stores (the two
-- parts of a write), Ends (the steps of a writer and a reader, and what they know of the pipe),
-- Channel (both interleaved; pipe_read).
-- Strings: lib/string.c, on the bytes of memory. Its children: Moves and Copying (memcpy), Filling
-- (memset), Compare (strlen, strcmp).
-- Print: lib/print.c. Its children: Digits (numbers from digits), Reversal (the loop that swaps),
-- Layout (print_num), Spelling and Format (vprintfmt on formats written from directives).
-- The modules named Examples apply the theorems to a concrete machine.
--
-- Bounds: the model's loops recur on the rounds left (64 for the bitmap, the number of pages for
-- page_init), so no fuel can run out; walk_path has as many rounds as its path has characters, and
-- each round takes at least one. print_num writes at most 32 digits, since the base is at least 2
-- and the number has 32 bits; vprintfmt takes one round for each directive and one for the last
-- text, and a width that overflows its `int` gives no result. memcpy and memset run each loop for
-- at most as many rounds as there are bytes, strlen and its like and the refill loop take their
-- rounds as an argument, and sys_cgetc gives up waiting for a key after so many. 32-bit and 16-bit
-- wrap-around is written out where the code computes.
-- The two lists of environments and the free list of pages are sequences. A list macro that would
-- be applied to an element in the wrong place (a second insertion, a removal of what is not there)
-- is a fault of the model: the macros of include/queue.h do not test for it, and C goes on with
-- corrupted links. So no theorem speaks of what the kernel does after such a misuse, which
-- sys_set_env_status and env_free can bring about; a run without a fault has none, and there the
-- sequences are what the linked lists hold (Queue). A failed assertion is a fault too. So is a
-- null curenv that would be dereferenced. fs.c reads the word of the bitmap through a pointer;
-- that it is set is not tested for in the model.
-- do_tlb_mod stores the frame through the page tables: the pages of its first and its last byte
-- are looked up as by a TLB refill, which may allocate or panic. The other accesses of the kernel
-- to user memory (the buffers of system calls, the stack arguments, the frame of
-- sys_set_trapframe) see the bytes of the running environment and take no TLB exception. The
-- statements of pipe.c that move a byte leave the order of the access to the buffer and the move
-- of the position open in C; Pipe takes the access first.
-- Not modelled: the assembly files, the self tests, the disk driver (the disk is an array of
-- blocks), the opening, writing and truncating of files by clients, fork and spawn, the user
-- programs and the host tools. The body of a page is kept as words; what user code writes there is
-- not part of the kernel.
pub mod Base
pub mod Strings
pub mod Mmu
pub mod Pmap
pub mod Kernel
pub mod Asid
pub mod Env
pub mod Sched
pub mod Syscall
pub mod Machine
pub mod Traps
pub mod Queue
pub mod Tlbex
pub mod Teardown
pub mod Elf
pub mod Fs
pub mod Serv
pub mod Fd
pub mod Pipe
pub mod Print
