-- ===== src/Lib.antt =====
-- ZAKOS, a kernel for the Z180: the parts of it whose correctness is a matter of their own data.
--
-- The parts, each in the file of its name and the folder beside it:
-- - BinHeap: kernel/lib/bheap.c, the bounded heap that keeps the sleeping threads. `insert`,
--   `pop`, `peek`, `extract` and `init` are the functions of the bheap_ prefix; `remove`,
--   `heapify` and `rev_heapify` are their helpers. BinHeap.Order is the order, BinHeap.Up and
--   BinHeap.Down the two repairs, BinHeap.Remove what leaves the heap.
-- - Ids: kernel/lib/id.c, the allocator of thread and process numbers. `insert`, `remove` and
--   `get` are id_insert, id_remove and __id_get; `attempt`, `walk` and `choose` are the parts of
--   __id_insert.
-- - Uart: kernel/dev/uart.c. `push` and `pop` are _fifo_push and _fifo_pop; `irq_handler` is
--   dev_uart_irq_handler. Uart.Bounded is the queue that a FIFO refines.
-- - Fat: kernel/fs/fat.c. Fat.Table has the cached table, with `fat_get` and `fat_set` for
--   fat_fat_get and fat_fat_set; Fat.Sync has `sync` for fat_fat_sync, over a block device that
--   is a parameter (kernel/dev/blk.h); Fat.Chain has `seek` for fat_fat_seek, `allocate_cluster`
--   for fat_fat_allocate_cluster, and the attributes. Fat.Names has the 8.3 names, Fat.Entries
--   the 32 bytes of a directory entry, with `dir_read` and `dir_write`, Fat.Trim `trim_chain`
--   for fat_file_trim_chain, Fat.Io `fat_read`, `truncate` and `fat_write`, and Fat.Dir
--   `fat_create`, `fat_readdir`, `fat_remove` and `fat_mount`, for the operations of fat_op. In
--   the folders beside them, Trim.Cut and Freeing follow the table through a cut, Growing,
--   Extended, Stops and Longer through new clusters, Io.Content is the file as its bytes on the
--   disk, and Dir.Stored and Listing are about an entry that is written and listed.
-- - Kmalloc: kernel/mem/kmalloc.c, with `kmalloc`, `kfree`, `kmalloc_stat` and `kalloc_init`.
--   Kmalloc.Chain says when a heap is valid, Kmalloc.Fits what the search finds, and
--   Kmalloc.Merge what a freed block leaves.
-- - Files: kernel/proc/file.c, the descriptor tables and the open files that they share.
--   `close`, `close_all`, `dup2` and `fdtable_copy` are the functions of the file_ prefix, as
--   are `open_file` (file_open), `read`, `write` and `ftruncate` in Files.Io. Files.Counts says
--   when the references are counted, Io.Moving and Io.Outcome what a transfer and file_open
--   leave. The file system below (kernel/fs/fs.c) is a parameter.
-- - Threads: kernel/proc/thread.c, the scheduler. `schedule_next` is _thread_schedule, `on_tick`
--   is _thread_on_tick, `wait`, `signal`, `broadcast` and `signal_irq` are the functions of the
--   _thread_ prefix, `sleep` is thread_sleep. Threads.Life has `create` (thread_create) and
--   `end_thread`. The timeouts are a heap of BinHeap, with `insert`, `extract` and `peek`.
--   _process_zombify wakes threads by the queues in `zombie_queues`. Threads.Invariant says
--   where every thread stands, Threads.Timeouts, Waking, Blocking, Expiry, Contenders and Choice
--   are about the calls, and Threads.Steps lets them follow each other.
-- - Vga: driver/vga.c. `putchar` is vga_putchar, `vblank_handler` is vga_vblank_handler.
--   Vga.Blink has the interrupts, Vga.Screen the terminal that the driver shows, Vga.Sync and
--   Vga.InTime the video memory.
-- - Fat12ro: bootloader/fat12ro.c, with the function names of the source but for `name_cmp` and
--   `namelen` (fat12_file_name_cmp, fat12_file_namelen). Fat12ro.Seek, Chunks, Read, Mount and
--   Names are about its parts; the callback `read_sector` and toupper are parameters.
-- - Page: kernel/mem/page.c, the allocator of pages, with the function names of the source less
--   their prefix page_element_. Page.Cover says which pages a list stands for and when the
--   allocator is valid, Merge, Attach, Start, Moves and Split are about the lists, Init, Alloc,
--   Cut, Free and Middle about the calls.
-- - Fs: kernel/fs/fs.c, the tree of the files in memory, with the function names of the source
--   less their prefix fs_ or _fs_. Fs.Open has `fs_open`, `fs_remove` and `fs_mount`; Fs.Path is
--   about paths, Fs.Counts says when the references are counted, Fs.Closing and Freed are about
--   `file_put`, Lookup, Scan, Adopt, Walk, Opening, Removing and Reopen about the way of
--   `fs_open` through the tree. What is behind `struct fs_file_op`, and kmalloc, is a parameter.
-- - Processes: kernel/proc/process.c, with `zombify` for _process_zombify and `process_wait` up
--   to the end of its critical section. Processes.Ends and Processes.Waits are about them.
-- - Ring: kernel/lib/list.c, the cyclic lists, with `list_add` and `list_remove` for __list_add
--   and __list_remove. Ring.Segment is about parts of a list, Ring.Neighbours about the links
--   around a member, Ring.Refines and Ring.Removal show that the other parts may take a list for
--   the list of its members.
-- - Locks: kernel/proc/lock.c and kernel/proc/cond.c, as steps of the threads that use one lock
--   and one condition. `lock_try`, `lock_lock` and `release` are _lock_try, a round of
--   _lock_lock, and _lock_unlock; the steps of Locks are also the calls of cond.c.
-- Common has what they share: Boolean tests, arrays, lists of addresses, and the error codes of
-- kernel/lib/errno.h.
--
-- Numbers are natural numbers; where the code relies on a width, the model takes the remainder
-- (`% 256` for bheap_idx, `% 2 ^ 16` for uint16_t and size_t). A C array is a function from
-- indices, a linked list is the list of its nodes in the order of the pointers, and a node that
-- the code compares by address carries that address.
--
-- Fuel: `heapify` and `rev_heapify` take as fuel a number above the index, and above the
-- distance from the end; each round lowers these. `insert_at` has one retry, as the code.
-- `seek_loop` has as fuel the number of whole sectors in the offset, which is the number of
-- rounds; the fuel of `allocate_cluster` bounds its rounds: 5700 are two passes over the 2849
-- clusters of the disk. `wake_expired` has one round for each thread in the heap,
-- `broadcast_loop` and `signal_irq_loop` one for each thread of the queue, the loop of
-- `fat12_file_read` one for each byte to read, as `read_chunks` and `write_chunks` have.
-- `free_loop` has one for each cluster of the chain and the end, `find_place` one for each entry
-- up to a vacant one. The calls of Fs take a number that bounds the rounds of each of their
-- loops and the files above one: 65536 values of an index of a directory, the characters of the
-- path, and the depth of the tree. `find_init` has one for each generation, `wait_loop` one for
-- each search. All other loops are structural, over the list that the code walks or over its
-- loop counter.
--
-- Assumptions: a heap's capacity is below 128, since the index of a child has 8 bits; the end of
-- the kernel's heap is at least 16 bytes below the end of the address space, so that no sum of
-- addresses wraps (a request above 65528 bytes is rounded to 0, as in the code); a disk has 1.44
-- MB; a write of the block device that does not fail stores its bytes and changes no others, and
-- a read that does not fail fills its buffer; what fat.c reads through NULL, or from a variable
-- that it has not set, is a parameter; a chain is trimmed to less than 65535 clusters, since its
-- length has 16 bits; no cluster of a chain that is trimmed is 2731, whose entry fat_fat_set
-- writes to the wrong page; Fat12ro.Read takes it that each read of a sector succeeds; a counter
-- of references of Files stays below 256, and one of Fs below 127 before a call; a range of
-- pages ends within 256, and page 0 is never free. A thread is created only where none is, a
-- wait with a time limit and a sleep find room in the heap of timeouts, and no sleep is until
-- the time 0. A queue of threads is known by the address of its head pointer, and a critical
-- section of the scheduler is one step. The display interrupts come between the critical
-- sections of vga_putchar, before and after the character is stored.
--
-- Not modelled: page_free behind the point where it goes on along the list of the free elements;
-- in the other parts, locks and critical sections, since each modelled call runs under one as a
-- whole; what blocks (dev_uart_read, dev_uart_write); krealloc; the joining of threads, the
-- pages of their stacks and what a context holds but for the result of a call; the rest of
-- kernel/proc; the calls of kernel/fs/fs.c that pass on an operation under a lock, and
-- kernel/fs/devfs.c; the rest of driver/ and of bootloader/; usr/; and assembly.
pub mod BinHeap
pub mod Common
pub mod Fat
pub mod Fat12ro
pub mod Files
pub mod Fs
pub mod Ids
pub mod Kmalloc
pub mod Locks
pub mod Page
pub mod Processes
pub mod Ring
pub mod Threads
pub mod Uart
pub mod Vga
