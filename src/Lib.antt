-- ===== src/Lib.antt =====
-- A model of the xv6 kernel of this repository and of programs that run on it, with the theorems that
-- make its parts correct.
--
-- The parts, and the files that model them:
--   Base      what all share: C's comparisons and arrays, panics, bytes of memory, 32-bit words.
--   Str       string.c: the byte and string routines, over a memory of bytes.
--   Lock      spinlock.c: interrupt nesting and spin locks, CPUs that contend for one lock (Mutex), and
--             a lock as the flag that the other parts take and drop (Held).
--   Pipe      pipe.c: the ring of bytes, each call as runs that return, fail or go to sleep.
--   Log       log.c: the redo log over a store of cached blocks (Blocks), its header block (Header),
--             crashes and recovery (Crash), and the critical sections of the system calls (Ops).
--   Proc      proc.c, proc.h: the process table. Proc has allocproc and fork, Proc.Sched the rest; below
--             it the loops (Loops), the invariant of the table and every step's keeping of it (Inv),
--             and what wait (Waiting) and kill (Killing) come to.
--   Sleeplock sleeplock.c: locks that are waited for asleep.
--   Console   console.c: the input buffer (Ring), each key (Edit, Line), interrupts and reads (Keys).
--   Kbd       kbd.c, kbd.h: scan codes and their tables (Typed) and the keyboard interrupt, which edits
--             Console's buffer (Codes).
--   Kalloc    kalloc.c: the free list through the pages (Chain), and start-up (Pages).
--   Vm        vm.c: page tables. Bits is about the flags of entries, Space about an address space as the
--             entries of its pages, Table and Walk about walkpgdir, Page and Mapped about
--             mappages.
--   Syscall   syscall.c: fetching the arguments of a system call.
--   File      file.c, sysfile.c, and pipealloc of pipe.c: reference counts and descriptors.
--   Image     fs.c, fs.h: the super block, the free map (Bits, Map), balloc (Alloc) and bfree (Free).
--   Inode     fs.c: the content of an inode. Slots has its places for blocks and the bytes that it holds,
--             Grow, Fresh and Mapping are about bmap, Store, Write and Size about writei, Read about
--             readi, Owns, Trunc, Emptied and Truncated about itrunc, Dinode about the inode on the
--             disk.
--   Icache    fs.c: the inode cache: iget (Get), iput (Put), ilock, iunlock, idup and ialloc.
--   Dir       fs.c: directory entries (Entries), dirlookup (Lookup, Find) and dirlink (Link,
--             Stored, Added, Linking); Walk has namex, and Names its round for each name of the path.
--   Path      fs.c: skipelem and the names of a path (Elements, Shorter).
--   Programs  printf.c, ulib.c, wc.c, grep.c: numbers, formats, counts and the matcher.
--   Shell     sh.c: the tokens of a command line, with strchr of Programs.
--
-- The locks of spinlock.c appear in Pipe, Kalloc and Sleeplock as the flag of Lock.Held; Log, Proc and
-- File take a critical section as one step. Kbd runs on Console, Console and Kalloc share the 32-bit
-- bound of Pipe, Kalloc clears pages with memset of Str, and Vm takes
-- its pages from Kalloc. Dir works on files through readi and writei of
-- Inode and on the cache through Icache, which uses Sleeplock and Inode; Inode allocates through Image.
-- Image works on the blocks that the buffer cache shows inside of a transaction, and lists those that
-- were handed to log_write; Log is about what becomes of them.
--
-- Conventions. A C function keeps its name. State is passed explicitly; a panic is the outcome `panic`
-- with its text. A pointer into an array is an index, a null pointer `none`. An unsigned counter keeps
-- its wrap-around at 2 ^ 32. A call that sleeps ends its run there, the lock given up, and goes on by a
-- run of its own; so an interleaving is a sequence of runs. Addresses that the linker or an allocator
-- gives are arguments.
--
-- Fuel: strlen takes any fuel above the index of the first NUL. The loop that kills a console line gets
-- the length of the line and one more, freerange one more than the pages below the end of its range,
-- printint 32 digits, and a path as many rounds as it has bytes (namex one more); readi and writei get a round for each
-- byte, the loops over a directory one for each entry and one more, and balloc one for each block of the
-- free map and one more. mappages gets a round for each page of its range, the loops of allocuvm,
-- deallocuvm and copyuvm one for each page below the larger size and one more, and copyout one for each
-- byte. Each of these loops ends before its fuel does. All other loops recur on the rounds or on the bytes that are left.
--
-- Block numbers, byte offsets into a file and sizes are numbers that do not wrap, but for the sum of
-- offset and count in readi and writei, which does; a file has at most 71680 bytes. A field of 16 bits
-- keeps its bits, so that a negative one is 2 ^ 15 or more. A call of the function of a device is a
-- result of its own.
--
-- Among the critical sections of Log.Ops a commit is one step, taken while no operation is under way;
-- Log.Crash goes through the writes in it.
--
-- Of a disk write the model assumes that it is whole: a power failure leaves a block as it was or as
-- it was to be. Every state of the disk between writes is a point at which the power may fail.
--
-- Not modelled: the devices and their ports, assembly, start-up, test programs, and the parts of the
-- kernel that the files above do not name.
pub mod Base
pub mod Str
pub mod Lock
pub mod Pipe
pub mod Log
pub mod Proc
pub mod Console
pub mod Kbd
pub mod Kalloc
pub mod Vm
pub mod Syscall
pub mod File
pub mod Programs
pub mod Shell
pub mod Path
pub mod Image
pub mod Inode
pub mod Icache
pub mod Dir
pub mod Sleeplock
