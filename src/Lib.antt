-- ===== src/Lib.antt =====
-- A model of xv6, a small Unix for the x86 with priorities, file locks and a few devices added to it.
--
-- The program. The kernel runs processes (proc.c) on CPUs that share one memory. Spin locks
-- (spinlock.c) guard each table; pages come from kalloc.c. A process enters the kernel by a system
-- call, whose arguments syscall.c checks, and reaches pipes (pipe.c) and files (file.c, sysfile.c)
-- through its descriptors. Each call of the file system is a transaction of the log (log.c), which
-- writes blocks through the buffer cache (bio.c) so that a crash loses or keeps the call as a whole.
--
-- The files. A file `A.antt` has the operations of a part, with the source's names, and the files
-- below `A/` have what is proved of them; `A/Tests.antt` runs them on concrete inputs.
--   Prelude    shared names; `Outcome`, in which panic() (console.c) ends a run; `Param`, the
--              constants of param.h, mmu.h and memlayout.h; lists; signed integers
--   Disk       the block device and cache as bread() and bwrite() (bio.c) show them, with a power
--              failure after any number of writes; `Triple` has rules for runs that may crash
--   Bio        bio.c: the list of buffers, bget() and brelse()
--   Log        log.c: initlog, recovery, begin_op, end_op, log_write and commit. `Replay`,
--              `Meaning`, `Loops`, `Recover`, `Commit` and `Restart` follow the disk through a crash;
--              `Reserve` and `Space` follow the calls in progress as a step relation
--   Fs         fs.c, over the blocks of the disk, the list of blocks given to log_write() and the table
--              of inodes: `Bits` and `Layout` (the formats of fs.h), `Blocks` (balloc, bfree), `Inode`
--              (iget, the locks), `Update` (ialloc, iupdate, ilock, iput, bmap, itrunc), `Content`
--              (stati, readi, writei), `Dir` (dirlookup, dirlink), `Path` (skipelem, namex), and of sysfile.c
--              `Calls` (sys_link, sys_unlink, create) and `Open` (sys_open, sys_mkdir, sys_mknod,
--              sys_chdir), and `Flock` (filelock, fileunlock); `Bitmap`, `Words`, `Cache`, `Stable`,
--              `Inodes`, `Reads` and `Walk` are about those, `Follow` says what a path leads to and
--              `Semaphore` what the lock of a file is
--   Kalloc     kalloc.c, over the words of memory: the free list lives in the free pages
--   Spinlock   spinlock.c: `Nesting` for one CPU, `Mutex` for any number of them as a step relation
--   Proc       proc.c: `Table` (struct proc, wakeup1, kill, proc_nice), the parent file (allocproc,
--              fork), `Life` (exit, wait), `Switch` (sched, yield, sleep, scheduler). The calls of
--              kalloc.c, vm.c, file.c, fs.c and log.c are the fields of `Env`, and `Calm` has what
--              fork relies on there
--   Vm         vm.c, over the pages of Kalloc: the parent file has the tables (walkpgdir, mappages,
--              deallocuvm, freevm), `Space` the address spaces (setupkvm, allocuvm, copyuvm, uva2ka,
--              copyout, and growproc of proc.c); `Walk` and `Map` are about the tables
--   Pipe       pipe.c: one ring, its two counters that wrap at 2^32, and who sleeps on it
--   File       file.c and sysfile.c: the reference counts of open files, and descriptors; `Pipes`
--              has pipealloc and sys_pipe; `Io`
--              has fileread and filewrite over the interface `Below` to pipe.c, fs.c and log.c
--   Syscall    syscall.c: fetching arguments from a process's memory
--   Strings    string.c, over a memory of bytes
--   Console    console.c: the ring of typed characters, with `Keys` on its indices, and printint
--   Sleeplock  sleeplock.c
--   Ticks      ticks.c: printing numbers and strings into a buffer
--   Device     null.c, zero.c and dhello.c
--   Sh         the parser of sh.c: the parent file has the tokens, `Parse` the grammar; `Gettoken`,
--              `Safe` and `Terminate` follow the positions in the line
--   Ulib       the string functions of ulib.c; `Printf` has snprintf() of printf.c, which `Bounded` is
--              about
--   Umalloc    umalloc.c: the free list of user programs
--   Grep       the matcher of grep.c
--
-- Conventions. A pointer to a table's entry is its index, other pointers are addresses, and null is 0
-- or `none`. Machine words are natural numbers with their wrap-around written out; `int` is an
-- integer where it can be negative. What a lock encloses is one step, since another CPU cannot see
-- the state in between; a function that sleeps ends its step there and says so in its result.
--
-- Bounds and fuel. `free_pages` has fuel for one page in each PGSIZE bytes below its end, which is
-- what freerange() visits at most. `reparent` and `pass` run over NPROC slots, `scheduler_loop` for
-- a given number of rounds, since scheduler() does not end. `strlen_from` and the loops of Ulib
-- look at as many bytes as they are given. `kill_line` has fuel for the INPUT_BUF characters of the
-- ring, filewrite() for a turn per byte, and the digits of printint() for its buffer of 16.
-- balloc() has fuel for the blocks of the map, ialloc() for the inodes of the disk, readi() and
-- writei() for a turn per byte, malloc() and free() as many turns as they are given, namex() for a
-- turn per character of its path and one more, the shell's parser for one more than the characters
-- of its line, mappages() for the pages between its first and its last, and the other loops of Vm
-- for a page in each PGSIZE bytes. All other loops recur on their data. A machine that crashes
-- makes `writes_left` further writes, and any number is allowed.
--
-- What is not modelled. Hardware and assembly: devices, interrupt controllers, page tables as the
-- processor reads them, the switch of stacks. Of the kernel's C, exec.c with loaduvm and inituvm,
-- the screen and the formats of cprintf(), traps, and the handlers of sysproc.c; of the user
-- programs all but grep's matcher, the shell's parser, snprintf, malloc and the strings of ulib.c;
-- mkfs. Fs sees one transaction: the data of a block is what bread() gives in it, and the calls of
-- other processes come only where a call sleeps. Proc takes what it calls in vm.c, file.c and fs.c
-- from its `Env`. The cache under Log never evicts; Bio has the choice of buffers alone, without
-- their data. The arguments of calls are sizes that the checks of Syscall have let through, not
-- negative. Memory is sequentially consistent.
pub mod Bio
pub mod Console
pub mod Device
pub mod Disk
pub mod File
pub mod Fs
pub mod Grep
pub mod Kalloc
pub mod Log
pub mod Pipe
pub mod Prelude
pub mod Proc
pub mod Sh
pub mod Sleeplock
pub mod Spinlock
pub mod Strings
pub mod Syscall
pub mod Ticks
pub mod Ulib
pub mod Umalloc
pub mod Vm
