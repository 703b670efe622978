-- ===== src/Lib.antt =====
-- The kernel of ross-os, from the sources under ross-kernel/src and ross-common/src: the parts
-- of the kernel that keep state of their own, the system calls that a process reaches them by,
-- and theorems on each part and on the whole.
--
-- Parts and files. Base holds what the models share: lists and tables of slots indexed by
-- numbers, Boolean tests, and bit operations. Kbuf (kbuf.rs) is the ring between the keyboard
-- interrupt and its readers; Kbuf/Races takes its two sides apart into single accesses of the
-- shared variables, in any order. Ipc (ipc.rs) is the table of pipes, Fd (fd.rs) the descriptor
-- table of a task, Sched (task.rs) the tasks and the round-robin scheduler, Pmm (pmm.rs) the
-- bitmap page allocator. Paging (paging.rs, mmap.rs) walks and extends four-level page tables
-- with pages from Pmm. Vfs (vfs.rs) resolves paths over any file system. Ramfs (ramfs.rs) reads
-- a tar archive and is a file system of that kind. Writer (writer.rs) draws text in the
-- framebuffer. Disk is what fat32.rs uses of ahci.rs, with the results of calls that may fail,
-- panic or not end and a rule for their sequences; Ahci (ahci.rs) builds and issues the commands
-- for sectors, and gives such a disk, over a controller that is an argument (Hba). Fat32
-- (fat32.rs) is the file system on the drive: the boot sector and the clusters in Fat32 itself,
-- chains in Fat32/Chains, directory entries in Fat32/Names and Fat32/Directory, reads and writes
-- in Fat32/Files; the other files under Fat32 hold the proofs. Pci (pci.rs) scans the buses, and
-- Acpi (acpi.rs) the firmware tables. Shell (shell.rs) is the command line: Shell/Files and
-- Shell/Info hold the commands, Shell/Run the dispatch and the handling of a byte of input.
-- Syscall (syscall.rs) joins them: its Kernel record holds the state of every part, each system
-- call is a function sys_... on it, and syscall_dispatch is the dispatcher of that name. Tests
-- runs the models at concrete inputs.
--
-- Correspondence. A global variable or a struct is a record, an enum a data type, Vec and
-- VecDeque are lists, and an operation on shared state takes the state and gives the new one
-- beside its result, under the name that it has in the source; where a method ends in a match on
-- something it has computed, the arms are a helper by clauses (write_to, alloc_at, brk_in).
-- Option and Result are Option. In Fat32 and Ramfs, ok, err, panic and endless are the four ways
-- in which a call may end. A panic of the kernel is none in map_user_page, alloc_anon, sys_brk
-- and sys_mmap, and the outer none in lookup_page: where memory runs out, where a sum does not
-- fit in 64 bits, and where phys_to_virt is given an address of 2 GB or more. A system call ends
-- in one of three ways (Ending): it returns, it panics, or it strays to an address that is not
-- the process's own; what the kernel does from there on is not followed. The locks are held for
-- whole operations, so calls are one after another; only the ring, which has no lock, is
-- modelled by its single accesses. A buffer that the source fills is a list of the bytes put at
-- its front.
--
-- Memory. Physical memory under the page tables is a function from the address of an entry to
-- its value. The memory of the running process is a function from addresses to bytes, at the
-- addresses that are its own: which these are is an argument of syscall_dispatch, and sys_log,
-- sys_write, sys_read and sys_open by themselves are the calls on buffers and paths that lie
-- there. The stack of a task is the list of the words that lie on it from its stack pointer.
--
-- Bounds. Numbers are natural; the sizes of the source are kept (256 keys, 64 pipes of 4096
-- bytes, 64 descriptors, 32768 bytes of bitmap), the order of the guards too. Loops are
-- structural on what they go through; extend makes as many turns as pages are missing, which is
-- enough, copy_path 513, as its text grows each turn and it stops at 512, and the scan of a tar
-- archive one more than it has bytes, as each turn drops 512 or more; a scan that runs out of
-- turns is endless, which no archive comes to. The loops over the sectors of a cluster take as
-- many turns as it has sectors, the one along the chain of a file one more than the bytes that
-- are wanted, as each turn adds one at least, and the one of a write as many as there are bytes;
-- the walk along a directory's chain has no bound in the source, takes the turns it is given,
-- and is endless when they do not suffice. The scan of the firmware area has a turn for each
-- sixteen bytes, and the one of the MADT a turn for each byte. The polls of the AHCI port have
-- the numbers of turns that they have in the source, and print_num its 20 digits.
--
-- Not modelled: assembly, port and device I/O, the boot loader, the heap (a third-party
-- allocator), the start of the AHCI port, ELF loading, and the start of the other processors.
-- The disk of Fat32 is a record of operations whose hypothesis IsWorking states what a working
-- disk does, and IsDrive in Ahci/Drive what a controller with a drive does at each access to its
-- registers and to the memory it shares with the driver; the configuration space of Pci is an
-- argument. The file systems are a parameter of Vfs, Syscall and Shell, as a record of
-- operations that return (methods that panic or never return, such as those of Fat32 on a
-- damaged volume, are outside it), the font one of Writer, and the text that core::fmt gives a
-- number one of Syscall and Shell, which takes spawn_process and the drive that its command disk
-- reads as arguments too; Ramfs takes the test for UTF-8 and str::trim of the Rust library as
-- arguments.
pub mod Base
pub mod Kbuf
pub mod Ipc
pub mod Fd
pub mod Sched
pub mod Pmm
pub mod Paging
pub mod Vfs
pub mod Writer
pub mod Disk
pub mod Fat32
pub mod Pci
pub mod Acpi
pub mod Ahci
pub mod Shell
pub mod Ramfs
pub mod Syscall
pub mod Tests
