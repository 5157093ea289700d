-- ===== src/Lib.antt =====
-- Verification of the CS 111 coursework: a shell of system calls, a file system module and the tool
-- that formats its images, two small kernels and their C library, a sorted list that threads share,
-- and threads that share a counter.
--
-- The parts of the program and the files that model them (paths are those of the repository):
--
--   lab3/ospfsmod.c, lab3/ospfs.h: OSPFS, a file system on an image in memory. Ospfs/Mem is the
--   image, a function from byte offsets to bytes, with the 32-bit little-endian loads and stores
--   that the code makes through casts. Ospfs/Layout has the superblock, the inodes and the functions
--   from ospfs_size2nblocks to ospfs_inode_data; Ospfs/Bitvector and Ospfs/Alloc the free map,
--   allocate_block and free_block; Ospfs/Index indir2_index, indir_index and direct_index;
--   Ospfs/Resize add_block and remove_block, one function per branch of their switch;
--   Ospfs/Resize/Change change_size, one function per loop; Ospfs/Io ospfs_read and
--   ospfs_write (Io/Reading, Io/Writing and Io/RoundTrip have their theorems);
--   Ospfs/Dir find_direntry and create_blank_direntry, with ospfs_link, ospfs_create and
--   ospfs_symlink in Dir/Handlers, ospfs_unlink, ospfs_dir_lookup, ospfs_follow_link and
--   ospfs_notify_change in Dir/Lookup and ospfs_dir_readdir in Dir/Readdir; Ospfs/LinuxInode
--   ospfs_mk_linux_inode and ospfs_fill_super. An operation takes the image and returns a result
--   and the new image. The directory handlers and reads and writes call change_size and add_block,
--   these call the allocator, and all of them go through the layout functions.
--
--   lab3/ospfsformat.c: Ospfs/Format lays out an image of the same form: opendisk, storeblk,
--   allocinode and finishfs. Format/Entries has allocdirentry, get_hardlink and add_hardlink,
--   Format/Files writefile, addsymlink and writesymlink, Format/Tree writedirectory. These work on
--   the image itself, and the words are those of a little-endian machine. Format/Cache is getblk,
--   putblk and flushb with the cache in front of the image file, and Format/Cache/View the bytes
--   that it stands for; Format/Swizzle has swizzle and its callers. Format/Storing, Format/Doubly,
--   Format/Marking and Format/Files/Readable relate the tool to the module.
--
--   weensyos1-sunnie/mpos-kern.c, mpos-kern.h: MiniprocOS. Mpos has the process table, schedule,
--   do_fork, copy_stack and create_thread, Mpos/Interrupt the system calls and start. run(), which
--   does not return, is the result that names the next process; a loop that never ends is `spin`.
--   memcpy is that of Klib.
--
--   weensyos1-sunnie/lib.c, lib.h: the C library of the two kernels. Klib has memcpy, memmove,
--   memset, strlen and strnlen, Klib/Console console_putc on a screen of cells and a cursor,
--   Klib/Numbers fill_numbuf, Klib/Format how a directive's flags, width and precision and the
--   arguments are read, Klib/Printf the rest of console_vprintf. Their theorems are in
--   Klib/Copying, Klib/Console/Bounds, Klib/Numbers/Laws, Klib/Printf/Field and Klib/Printf/Safe.
--
--   weensyos2/schedos-kern.c, schedos-kern.h: SchedOS, in Schedos: schedule with its four
--   algorithms, interrupt and start.
--
--   lab4/sltest.c, lab4/SortedList.h: the sorted list, in SortedList: SortedList_insert,
--   SortedList_delete, SortedList_lookup, SortedList_length and hash on a heap of cells. In
--   SortedList/Threadfunc is threadfunc as one thread runs it alone, where every lock is free, and
--   in SortedList/Threads its steps when several threads share the lists and their locks, with what
--   main sets up in Threads/Start. A step there is what a thread does between two waits for a lock
--   or yields; under the locks no other thread touches the list meanwhile, without them finer
--   interleavings are not modelled.
--   SortedList/Spec is the list as a sequence of keys, SortedList/Ring what it is for a heap to hold
--   a list, and SortedList/Refine and SortedList/Remove relate the two.
--
--   lab4/addtest.c: threads that add to a counter, in Adder: a step of a thread of threadfunc is one
--   access to shared memory, and the states that threads reach by any schedule are Adder.Reachable.
--   Adder/Locked and Adder/Mutual are about its loops with a mutex and with a spinlock, Adder/Atomic
--   and Adder/Progress about the one with compare-and-swap.
--
--   lab1-sunnieKim/main.c: simpsh, a shell whose options open files, make pipes and run commands.
--   Simpsh/State has the variables of main, and the record Os of the calls that it makes, on a world
--   of which nothing is known; Simpsh/Args strIsNum, passChecks and findArgs, Simpsh/Table validFd
--   and the tables of descriptors and commands, Simpsh/Command the option --command with its child,
--   Simpsh/Options the other options, and Simpsh/Main the loop. What is seen from outside is a list
--   of events, the latest first. Simpsh/Main/Laws says what the theorems rely on in Os,
--   Main/Quiet and Main/Advances what an option does to the children, Main/Turn the shells that
--   main reaches. lab1-SunnieSo_designProblem/main.c differs in its --wait, which is Simpsh/Design.
--
-- Bounds and fuel. Unsigned 32-bit arithmetic wraps where the code's does; an int is its bit
-- pattern. The loops of change_size run on fuel, the result `none` means that it has run out, and
-- eleven rounds are enough for files of direct blocks. The loops of a read run on as much fuel as
-- there are bytes to copy, since each round copies one at least. The loops over a process table or
-- a directory have as many rounds as there are entries. The endless search of schedule changes
-- nothing, so that it is cut off after one round of the table. The walks of the sorted list run on
-- fuel, which is more than the elements of all threads. console_vprintf has a round for each character of the format and one more, and fill_numbuf
-- 32 rounds, of which 10 are needed for 32 bits. The loop of simpsh and its --wait run on fuel, and so
-- does the copying of a file by ospfsformat, one round for each block and one more. The arrays of
-- simpsh are lists with their capacity; a store past it is counted and changes nothing else, and so
-- is a read of fd_array at a negative number, where what lies in front of it is taken for -1.
-- Addresses do not wrap around.
--
-- Parameters. copy_to_user and copy_from_user, filldir, new_inode, d_alloc_root, inode_change_ok
-- and inode_setattr are the Linux kernel's; what the code relies on of the two copies is
-- Io/Laws.IsCopy and Io/Touching.IsFetch. pthread_mutex_lock waits until the mutex is free and
-- takes it. The places that malloc returns to main of sltest.c are arguments; Threads/Start says in
-- IsAllocated that they differ and that none is null. getopt_long and the system calls of simpsh
-- are the fields of Os, and atoi is as the C library has it; Lawful says that getopt_long scans forward, that fork makes one child and that waitpid removes one. The host's
-- files are arguments of the functions of ospfsformat. The registers that special_registers_init
-- sets and the entry points that the loaders find are arguments of the two start functions.
--
-- Not modelled: md5.c, another project's library, whose digests are arguments; the other image tools,
-- boot code, loaders, drivers and test applications, which are I/O and assembly; error messages;
-- the times that --profile of simpsh prints and signals that arrive while it does not wait for one;
-- failing calls of the host in ospfsformat; the options and the timing of the two programs of lab4.
mod Base
pub mod Adder
pub mod Klib
pub mod Mpos
pub mod Ospfs
pub mod Schedos
pub mod Simpsh
pub mod SortedList
