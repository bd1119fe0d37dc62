-- ===== src/Lib.antt =====
-- The kernel of OS_CEA, an xv6 for RISC-V with a multi-level feedback queue (MLFQ) scheduler, and
-- two parts of its user programs: the C library and the pattern matcher of grep.
--
-- The parts and their files:
--   Base        lists as C arrays, Boolean tests, integers
--   Proc        kernel/proc.h and kernel/proc.c: the process table
--     Sleep     sleep, wakeup
--     Mlfq      the MLFQ fields, scheduler, yield, mlfq_tick; clockintr, devintr and kerneltrap
--               of kernel/trap.c (Mlfq/Timer)
--     Life      allocproc, kfork, kexit, kwait, kkill, getprocinfo and their helpers
--   Log         kernel/log.c: commit and recovery; Log/Ops has begin_op, end_op and log_write
--   Pipe        kernel/pipe.c
--   Kalloc      kernel/kalloc.c
--   Spinlock    kernel/spinlock.c
--   Console     kernel/console.c: consoleintr, consoleread
--   Str         kernel/string.c
--   Bio         kernel/bio.c: the list of buffers; the data of the blocks is in Log
--   File        kernel/file.c: filealloc, filedup, fileclose; pipealloc of kernel/pipe.c
--   Rw          kernel/file.c: fileread, filewrite; kernel/proc.c: either_copyin (Rw/User)
--   Sleeplock   kernel/sleeplock.c
--   Fs          kernel/fs.c: iget, idup, iput, skipelem
--   Disk        kernel/fs.c: bzero, balloc, bfree, on the blocks of the disk
--   Inode       kernel/fs.c: ialloc, iupdate, ilock, bmap, itrunc, stati, readi, writei
--   Dir         kernel/fs.c: namecmp, dirlookup, dirlink
--   Vm          kernel/vm.c: walk, walkaddr, mappages, kvmmap, ismapped, uvmcreate
--     Space     uvmunmap, uvmalloc, uvmdealloc, uvmcopy, uvmclear, freewalk, uvmfree, vmfault
--     Copy      copyin, copyout, copyinstr
--   Printf      kernel/printf.c: printint, printptr
--   Virtio      kernel/virtio_disk.c: alloc_desc, free_desc, free_chain, alloc3_desc
--   Ulib        user/ulib.c
--   Grep        user/grep.c: match, matchhere, matchstar
--
-- How they are modelled. A component's state is a record, and an operation a function from state to
-- state with the source's name. A panic is `none`. A loop over a table is a function on a list; a
-- function that sleeps is modelled up to the sleep, and a later pass starts from what the state has
-- become. Code that runs under a lock is one step; where the source takes no lock (mlfq_tick) or the
-- lock itself is the subject (Spinlock), the steps of several CPUs interleave. What other parts
-- answer (kalloc, copyin, copyout, uvmcopy) is an argument.
--
-- Machine integers. A counter that is only incremented keeps its wrap-around (`% 2 ^ 32`, and
-- `% 2 ^ 64` for uint64 times); an int that the code keeps small is a ℕ.
--
-- Fuel. `Kalloc.kinit` gives freerange one round for every page below PHYSTOP and one for the end
-- test; `Console.consoleintr` gives the kill-line loop one round for every place of the buffer.
-- `Str.strlen_from` leaves its fuel to the caller.
--
-- `Vm.Copy` has one round for each byte asked for, and `Vm.Space.freewalk` one level of recursion for each
-- level of a page table. `Inode` and `Rw` have one round for each byte, `Dir` one for each 16 bytes, `Printf`
-- one for each bit of a number, and `Virtio.free_chain` one for each descriptor and one more.
--
-- Memory. Vm has the words of the pages that serve as page tables, and the bytes of all others, as two
-- maps; kalloc and kfree put their junk in both. The blocks that Disk, Inode and Dir work on are what the
-- buffer cache shows of them, with the list of the blocks that log_write was called for; Bio and Log are
-- the layers below. The running process (vmfault) and the other side of readi and writei are arguments.
--
-- Not modelled: the kernel's own page table (kvmmake), path lookup (namex) and ireclaim, program loading,
-- the dispatch of system calls, devices, assembly, and the other user programs.
pub mod Base
pub mod Proc
pub mod Log
pub mod Pipe
pub mod Kalloc
pub mod Spinlock
pub mod Console
pub mod Str
pub mod Grep
pub mod Bio
pub mod File
pub mod Sleeplock
pub mod Fs
pub mod Ulib
pub mod Vm
pub mod Disk
pub mod Inode
pub mod Dir
pub mod Printf
pub mod Virtio
pub mod Rw
