-- ===== src/Lib.antt =====
-- The programs of the course assignments in this repository, as far as they are modelled: A1, a kernel
-- module that intercepts system calls; A2, a traffic intersection with one pair of threads for each
-- lane; A3, a simulator of virtual memory; and A4, tools for ext2 images. They share no code, and each has its own directory here.
--
-- Base: numbers, tests, lists, bits of a word, and the integers of the C type int.
--
-- Interceptor (A1/interceptor.c, A1/interceptor.h): State is the module's globals with the kernel's
-- call table, its write protection and both locks; Kernel is what the kernel answers about processes.
--   Monad: locks, accesses to the tables and set_addr_rw, set_addr_ro. A fault is an access out of range,
--     a null pointer, a write to a read-only page, or a lock taken twice by its holder.
--   PidList: add_pid_sysc, del_pid_sysc, del_pid, destroy_list, check_pids_same_owner,
--     check_pid_monitored, my_exit_group.
--   Syscall: my_syscall, cut into its checks and its four commands, and interceptor, whose model is
--     intercepted_call. Module: init_function and exit_function.
--   Invariant says when the tables are in agreement. Effects, Entries and Checks have the lemmas, and
--   Safety, Behaviour, Logging, Exit and Lifecycle the theorems.
--   Calls run one after another. What interceptor prints and the return of the call it passes on are left
--   out, and numbers of processes do not overflow.
--
-- Traffic (A2/cars.c, A2/traffic.h, A2/traffic.c):
--   Schedule: init_intersection, and parse_schedule on the list of the cars that fscanf reads.
--   Buffer: what car_arrive and car_cross do to a lane while they hold its lock. System: the two threads of a
--     lane, as steps in any order; pthread_cond_wait returns when signalled, and without a signal where
--     the relation's flag allows it. Route: compute_path. Crossing: the locking of the quadrants, by any
--     number of threads.
--   Whole (A2/traffic.c too): main once it has read the schedule, as one step relation. A step of a lane's
--     threads is one of System, except that car_cross past its test locks the quadrants of its first car
--     one by one, moves the car, frees them one by one and leaves; and verify, as a list of lines.
--   Queue, Invariant, Ready and Progress have the lemmas, and Spurious, Route and Crossing the theorems. Of the
--   children of Whole, Invariant joins a lane's invariant and that of the quadrants, Ends shows that some
--   thread can go on, Bound measures the runs, and Verify and Apart have the theorems.
--   Threads are made and joined where a run begins and ends; main's test of argc is left out.
--
-- Paging (A3/pagetable.c, A3/swap.c, A3/sim.c and the replacement algorithms): Vm is all globals in one
-- record. A page is named by its number, an entry of a page table by its page.
--   Flags: the status bits of an entry. Bitmap: the bitmap of swap.c. Swap: the rest of swap.c, over a
--     parameter for the system calls. Table: pagetable.c, over a parameter for the algorithm. Print: its
--     two functions that print, as the lines that they print. Fifo, Rand, Clock, Lru, Opt: the algorithms.
--     Sim: access_mem and replay_trace. Main: main, over a parameter for the C library. Held is the files
--     and the memory that it holds, changed where they are opened, allocated and given back.
--   Mapped says when the pages and the frames belong together, and what find_physpage asks of an algorithm;
--     its children follow a reference through pagetable.c and a trace through sim.c. Disk: what is asked of the
--     swap file. Reload is about a page that is read in from swap and evicted again.
--   Counters are natural numbers, so their overflow is left out. The loop of clock_evict runs on fuel,
--   one round for each frame and one more, which is enough where each frame holds a page of its own.
--   All other loops are by structural recursion on the rounds that are left.
--   Left out: the output for debugging, the two rates that main prints, and failures of calloc, of the malloc
--   for the frames and of posix_memalign; and, of what is held, the list of opt and the tables of pages.
--
-- Ext2 (A4): Disk is the fields of superblock and group descriptor, the bitmaps as functions from the
-- number of a byte, the inodes by their number, and the bytes of the image by their address. An image has
-- 131072 bytes, 1024 in a block. The metadata is in fields of its own, so that blocks of directories and
-- files are taken not to overlap it. A result `none` stands for an access outside the image, the inode table,
-- a string, or in the checker the block of 8192 bits that a bitmap has, and for a loop without end; the overflow of local arrays by long paths is left out.
--   Bytes: numbers and texts in bytes. Paths: strtok. Entries: struct ext2_dir_entry; Layout has a block as
--     the list of its entries.
--   Alloc (A4/utility.c): find_free_inode, find_free_data_block, is_inode_used, is_data_block_used.
--   Search, Walk, Write, Remove (A4/utility.c): search_directory; find_starting_inode and walk_path;
--     write_to_directory and write_inode, which share write_entry; rm_from_directory. Find, Resolve, Append,
--     Lookup and Merge have the theorems, against lists of entries and a tree of directories.
--   Checker (A4/ext2_checker.c): getBitmap, setBitmap, check_free_blocks_inodes. Passes: the four passes, one
--     walk with a body for each, and main. Tree says what a pass may do, and Descent, Repairs, Blocks and Counts
--     have the theorems.
--   Link (A4/ext2_ln.c): the walk along a path and the names. Create: the entry of a link and main. Named,
--     Place, Insert, Hard and Found have the theorems.
--   A loop over the entries of a block has as many rounds as the image has bytes: where the entries of a block
--   are laid out, there are at most 128. A pass of the checker has a round for each directory on the way down,
--   which is enough where the directories are a tree of less height.
--   Gaps (A4/utility.c): check_with_gaps; Restore and Missed have the theorems. Commands (A4/ext2_rm.c, A4/ext2_restore.c), Make (A4/ext2_mkdir.c),
--     Copy (A4/ext2_cp.c): main once the image is mapped; Removal has the theorem on ext2_rm. The buffers that
--     fgets fills, the size of the file and the results of time are parameters. strtok writes into the path, and
--     what it leaves for the next call is modelled.
--   Not modelled: the reading of arguments, the mapping of the image and the fields of an inode that are only
--   set to 0.
pub mod Base
pub mod Ext2
pub mod Interceptor
pub mod Paging
pub mod Traffic
