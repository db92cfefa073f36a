-- ===== src/Lib.antt =====
-- birdOS: a small operating system for the 386, in C and assembly. This library models parts of
-- its kernel and proves what makes them correct.
--
-- The program. Tasks and user processes call the kernel through `sendrec`, which copies messages
-- between processes that meet (kernel/proc.c); a process that has to wait is blocked, and
-- `schedule` chooses another from the run queues. Interrupts become messages by `inform_int`.
-- The drivers and the servers for memory and files (kernel/tty.c, kernel/hd.c, mm/main.c,
-- fs/main.c) are tasks that receive requests in a loop. Below them lie the heap of the kernel
-- (mm/memory.c) and byte FIFOs (lib/buffer.c).
--
-- The files.
--   Prelude       names of the libraries passed on, Boolean tests on numbers, lists and arrays
--                 indexed by native numbers, bit masks on words, runs of items in an array.
--   Circular      an index pair that goes round an array, as the buffers of the program have it:
--                 the invariant, and the window of items between tail and head.
--   Fifo          lib/buffer.c. The state `Fifo` is FIFO_BUFFER, with the array as a list.
--                 Inv has the invariant, Refine an abstract bounded queue and its refinement.
--   Mm/Memory     mm/memory.c but for setup_paging. The state `Memman` is MEMMAN, with the table
--                 of free blocks as a function of the index. Blocks and Slots say which bytes are
--                 free and how a table is sorted and merged, Fit is for allocation, Refine for
--                 release, Laws has the theorems.
--   Kernel/Types  the data of kernel/proc.c and the code monad: a run returns, halts in `panic`
--                 or a failed `assert`, or is still in a loop when its rounds are used up.
--   Kernel/Sched  the run queues and `schedule`. Frame says what `schedule` leaves alone. Queues is
--                 about the number of processes in a queue, Wakes and Selects give the two loops
--                 without a bound on their rounds as relations, Rounds has the theorem.
--   Kernel/Ipc    `deadlock`, `msg_send`, `msg_receive`, `inform_int` and `sys_sendrec`, with every
--                 assert. Where a C function is long its branches are functions of their own:
--                 `deliver` and `enqueue` of `msg_send`; `take_interrupt`, `receive_any`,
--                 `receive_from`, `accept` and `await` of `msg_receive`. Chains has the relations
--                 between processes, Inv the invariant, Join and Leave that it is kept when a
--                 sender joins or leaves a queue; Deadlock, Deliver, Enqueue, Accept follow the
--                 code; Send, Receive, Wait and Calls have the theorems.
--   Kernel/Tty    the input buffer and the line discipline of kernel/tty.c. The state `Tty` is TTY.
--                 Line has the line that is typed as a list, and that the code edits it so; Laws
--                 has the theorems.
--   Kernel/Keyboard  kernel/keyboard.c. `KbInbuf` is struct kb_inbuf, `Modifiers` the variables for
--                 the modifier and lock keys; Keys has the names of include/sys/keyboard.h, Laws the
--                 theorems. The table of keys is a parameter, and the theorems hold for every table.
--   Kernel/Clock  `clock_handler` of kernel/clock.c, which calls `schedule` and `inform_int`. `Clock`
--                 has `ticks` and `key_pressed`; Laws has the theorem.
--   Kernel/Protect  the tables of kernel/protect.c. `Prot` has the GDT, the IDT, and what else
--                 `init_prot` sets; Base is about segments, Gates about interrupts. The addresses
--                 of handlers, `tss` and LDTs are parameters.
--   Fs/Types      the tables of the file system, one record `Fs`, and the inode sectors of the disk.
--   Fs/Inodes     the inode table of fs/main.c. Table has the search for a slot, Cache `get_inode`,
--                 Sync what `sync_inode` leaves on the disk.
--   Fs/Descriptors  `do_close` and `do_lseek` of fs/open.c, `fs_fork` and `fs_exit` of fs/main.c.
--                 Seek, Fork and Exit have the theorems.
--   Fs/Bitmap     the bit maps: `alloc_imap_bit` of fs/open.c and the code of fs/link.c that frees
--                 its bit. A byte is the function of its bits. Bytes has the searches, Imap the
--                 theorems. Smap is `alloc_smap_bit`: Marks for a byte and the rest of a sector,
--                 Search for the first free bit, Sectors for the rest of the map, Alloc the theorem.
--                 Free is how `do_unlink` of fs/link.c frees the bits of the sectors: Steps for its
--                 loops, Laws for the theorem.
--   Fs/ReadWrite  `do_rdwt` of fs/read_write.c. `Files` has the tables, the bytes of the devices, of
--                 `fsbuf` and of the memory. Moves says what a round moves, Loop what all rounds do,
--                 Plan is about the sectors worked out before the loop, Effect about the transfer,
--                 Tables about what stays open; Laws and RoundTrip have the theorems.
--   Fs/Directory  the scans of `search_file` (fs/misc.c) and `new_dir_entry` (fs/open.c). `Dirs` has
--                 the tables and the entries by device, sector and slot. Search and Insert say what
--                 the scans find, Lookup what an insertion does, RoundTrip that it is found.
--   Fs/Paths      `strip_path` and `search_file` of fs/misc.c on strings. Flat is about paths in the
--                 root directory, Create about a new file there.
--   Fs/Remove     the end of `do_unlink` of fs/link.c, which takes the entry out of the directory. Scan
--                 and Blocks are about its two loops, Laws and Loss have the theorems.
--   Fs/NewInode   `new_inode` of fs/open.c.
--   Shell/Calendar  the calendar of kernel/main.c; Days has the theorems.
--
-- Correspondence. An `int` or `u32` is a number below 2^32, and sums of words wrap where the C
-- code's do. A pointer to a process is its index in `proc_table`, `none` for 0. The kernel's
-- variables are one record, `Kernel`, and each function takes it and returns it. Messages in
-- memory are a function of the linear address; the copy of a message is one step. `va2la` adds
-- the base that the data segment's descriptor holds. What kernel/proc.c prints is left out; what
-- kernel/tty.c puts on the screen and the messages that it sends are a list of events. In the file
-- system a result `none` is a panic or the use of a null pointer, a pointer into a table is an
-- index, and the disk driver is taken to move the words of a sector between disk and buffer. A
-- request for more than 256 sectors is also `none`: kernel/hd.c keeps their number in a byte, with 0
-- for 256, and does not come back from a larger one. The
-- sectors of inodes, of the maps, of directories and of data are arrays of their own, each with its
-- content as the code there reads it. `do_rdwt` on a terminal comes to the message to its driver.
--
-- The invariant of message passing (Kernel/Ipc/Inv): each process is ready, sends, receives or is
-- a free slot, with the fields that go with it; the pointers `q_sending` and `next_sending` of each
-- process make a list without repetition of exactly those that send to it; every chain of
-- processes that wait to send to the next comes to an end. Time slices, priorities and the run
-- queues are no part of it, and `schedule` changes nothing else of a process.
--
-- Loops. Those over an array are recursion on the number of entries left. Those of kernel/proc.c
-- that follow pointers have 26 rounds, one more than `proc_table` has entries, and the theorems
-- show that this is enough, since a chain or a queue has no process twice. The two loops of
-- `schedule` are cut off after 21 and 128 rounds: a round of the first takes a process off a queue of
-- at most 20; one of the second goes on to the next queue or moves one of at most 60 processes. That
-- this is enough is shown for run queues that are well formed. On others the C code may run on where
-- the model goes on, and the theorems on messages do not exclude those. The loop of
-- `do_rdwt` has a round for each sector and one more, and the theorems show that it returns; that of
-- `strip_path` has a round for each character of MAX_PATH and one more.
--
-- Not modelled: the other tasks and drivers; the console behind a terminal; the waits of
-- kernel/clock.c; of the file system `do_open` but for its parts above, `do_unlink` but for the maps
-- and the directory, and mkfs; of the shell all but the calendar; the games; the assembly files and
-- port accesses; and what only prints (`dump_proc`, `dump_msg`). An interrupt between two
-- instructions of a kernel call is not modelled: a call is one step.
pub mod Circular
pub mod Fifo
pub mod Fs
pub mod Kernel
pub mod Mm
pub mod Prelude
pub mod Shell
