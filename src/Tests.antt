-- ===== src/Tests.antt =====
-- Runs of the models at concrete inputs, and the theorems at inputs that meet their hypotheses.
mod Kbuf
mod Ipc
mod Acpi
mod Ahci
mod Fat32
mod Shell
mod Fd
mod Sched
mod Pmm
mod Paging
mod Vfs
mod Writer
mod Ramfs
mod Syscall
