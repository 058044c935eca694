-- ===== src/Lib.antt =====
-- fyp_os, a small RISC-V kernel for one machine with one disk: a verification library of the code
-- under kernel/, with some of user/.
--
-- The parts and how they interact. The page allocator (kernel/kalloc.c) hands out pages of physical
-- memory. The process table (kernel/proc.c) holds the processes and their states; the other parts
-- wait and wake through its sleep and wakeup.
-- Page tables (kernel/vm.c) stand in pages of the allocator and map the memory of a process, whose
-- bytes the kernel copies in and out. Spinlocks (kernel/spinlock.c) make the calls of the other parts
-- atomic; a process that waits long takes a sleep-lock (kernel/sleeplock.c) instead. Pipes
-- (kernel/pipe.c) pass bytes between processes.
-- The log (kernel/log.c) stands between the file system (kernel/fs.c) and the buffer cache
-- (kernel/bio.c): a system call brackets its writes with begin_op and end_op, logs each block by
-- log_write, and the last end_op commits. The string routines (kernel/string.c) serve all of
-- them. Keys come to the console (kernel/console.c), which edits lines and wakes their readers.
--
-- Which file models which part:
--   Prelude   shared names of the libraries, lists over the native numbers, byte-addressed memory
--             with little-endian words, C integers.
--   Kstring   kernel/string.c: memset, memcmp, memmove, memcpy, strncmp, strncpy, safestrcpy and
--             strlen over one memory; a pointer is an address. Move and Names hold the theorems.
--   Kalloc    kernel/kalloc.c with PGSIZE, PGROUNDUP and PHYSTOP: kinit, freerange, kfree, kalloc.
--             The free list is the linked list in physical memory that the code keeps. Chain is
--             about one call, Range about the start of the machine.
--   Bio       kernel/bio.c and kernel/buf.h: binit, bget, bread, bwrite, brelse, bpin, bunpin. Search is
--             about the scans of the ring, Coherence, Transfer and Release about what the cache shows.
--   Blocks    What the log relies on of the cache and the disk: a specification, not a translation.
--             The disk has a budget of block writes after which the power is gone.
--   Log       kernel/log.c: initlog, install_trans, read_head, write_head, recover_from_log,
--             begin_op, end_op, write_log, commit and log_write. Header is about the header block,
--             Phases and Crash about what a commit has written at each moment, Commit about whole
--             commits and boots, Space about the room in the log.
--   Vm        kernel/vm.c: walk, walkaddr, mappages, kvmmap, the uvm functions and freewalk, over the
--             physical memory and the free list of Kalloc. Transfer has copyout, copyin and copyinstr;
--             Copy is about the bytes that copyin brings to the kernel.
--   Spinlock  kernel/spinlock.c: initlock, acquire, release, holding, push_off and pop_off, one load or
--             store at a time. Nesting is about matched calls; System runs any number of CPUs on one
--             lock in any order, with the invariant in Invariant and Moves and what the lock promises
--             in Exclusion and Progress.
--   Sleeplock kernel/sleeplock.c: initsleeplock, acquiresleep, releasesleep and holdingsleep, with the
--             sleep and wakeup of Proc. Waiters runs any number of processes on one lock.
--   Pipe      kernel/pipe.c: pipewrite, piperead, pipeclose and the ring that pipealloc sets up. Queue relates
--             the ring to a queue of bytes, Transfer is about the two loops.
--   Fs        kernel/fs.c and kernel/fs.h: readsb and fsinit. Fs/Alloc is the block allocator with
--             balloc, bfree, bzero, count_free_blocks and read_disk_size, Fs/Bits the bits of the free
--             map; Fs/Inode has ialloc, iupdate, iget, idup, ilock and iunlock; Fs/Content has bmap,
--             itrunc, iput, stati, readi and writei, with either_copyout and either_copyin of
--             kernel/proc.c (Read, Whole, Wrote, Write and Written are about the bytes of a file);
--             Fs/Dir has namecmp, dirlookup, dirlink and dirunlink; Fs/Path has skipelem, namex, namei, nameiparent, iunlockput and rename.
--   File      kernel/file.c and kernel/file.h: filealloc, filedup, fileclose; of kernel/sysfile.c argfd,
--             fdalloc, sys_dup and sys_close. Counts and Calls are about the reference counts.
--   Sysfile   The other calls of kernel/sysfile.c: link, unlink and chdir; in Open create, mkdir, mknod and
--             open; in Pipes pipe, with pipealloc of kernel/pipe.c; in Io read, write, fstat and
--             diskspace, with filestat, fileread and filewrite of kernel/file.c. Taken is about the
--             descriptor of open.
--   Console   kernel/console.c: consputc, consolewrite, consoleread and consoleintr. Buffer and Editing are
--             about the keys as an editor of a text, Reading about the lines that a reader gets.
--   Virtio    kernel/virtio_disk.c: alloc_desc, free_desc, free_chain, alloc3_desc, virtio_disk_rw up to
--             its wait and after it, and virtio_disk_intr. Owned is about who has a descriptor,
--             Transfers about a request, Interrupt about the used ring.
--   Printf    kernel/printf.c and user/printf.c: printint, printptr, printf and vprintf as the bytes that
--             they print, and atoi of user/ulib.c. RoundTrip is about numbers.
--   Clock     clockintr of kernel/trap.c, with sys_sleep and sys_uptime of kernel/sysproc.c. Sleeping is
--             about when a sleep ends.
--   Shell     user/sh.c: gettoken, peek and the functions of the parser. Kinds and Tokens are about gettoken.
--   Grep      user/grep.c: match, matchhere and matchstar. Language says what a pattern means.
--   Proc      kernel/proc.c: allocpid, allocproc, freeproc, fork, reparent, exit, wait, scheduler,
--             sched, yield, sleep, wakeup, kill, setkilled, killed and growproc. Wakeup, Family, Pids,
--             Life and KillZero hold the theorems.
--
-- How code becomes definitions. A function that changes state takes the state and returns it. A
-- panic is `none`, where a function can panic. Numbers are natural numbers; where the code's
-- integers wrap and the theorems depend on it, the wrap is written out. Outside Spinlock a call is
-- one step: the locks are what makes it one. A function that sleeps in a loop is modelled as one
-- pass that ends in a result or asleep.
--
-- Fuel. strlen runs on fuel for the string and its NUL; freerange on fuel for the pages and one
-- round more; balloc and count_free_blocks on fuel for the bitmap blocks and one round more. The
-- theorems show that this is enough; copyin, copyout and copyinstr on fuel for the bytes, of which each
-- round copies one at least; freewalk on fuel for the three levels of a tree. namex runs on fuel for
-- the elements of the path and one round more. free_chain runs on fuel for NUM descriptors and
-- virtio_disk_intr for 2 ^ 16 entries, which the theorems show to be enough. printint runs on fuel for
-- 32 digits, and the parser of the shell on fuel for a round more than the text has bytes; no theorem
-- is about the latter. All other loops recur on a count or a list.
--
-- Not modelled: weak memory, since the fences of kernel/spinlock.c make its loads and stores happen in
-- order; interleavings inside the other calls, which their locks exclude, but for filewrite, where what
-- other processes do between two rounds is an argument, and for the calls that walk a path or lock one
-- inode after the other, which run as if alone; the set-up of the kernel's
-- own page table in kernel/vm.c; in the file system, whether a copy to or from a user succeeds and what
-- a copy that fails leaves, which are arguments there, as they are in Sysfile;
-- exec of kernel/sysfile.c and kernel/exec.c, program loading; traps, other devices and
-- boot, which are registers and assembly; and the other user programs. Registers, kernel stacks, names
-- and open files of a process are left out of the process table.
mod Prelude
pub mod Kstring
pub mod Kalloc
pub mod Blocks
pub mod Bio
pub mod Log
pub mod Pipe
pub mod Vm
pub mod Fs
pub mod File
pub mod Proc
pub mod Sysfile
pub mod Console
pub mod Clock
pub mod Shell
pub mod Printf
pub mod Virtio
pub mod Grep
pub mod Sleeplock
pub mod Spinlock
