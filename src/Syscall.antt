-- ===== src/Syscall.antt =====
-- ross-kernel/src/syscall.rs: the ten system calls and their dispatcher, over the state of the parts
-- of the kernel that they use. The file systems are a record of operations, `font` is the glyph table
-- and `decimal` is how core::fmt writes a number.

mod User
pub mod Cases
pub mod Pipes
pub mod Memory
pub mod Raise
pub mod Invariant
unfoldable pub use User.*
use ross_os.Base.{
  ℕ, zero, suc, ◌+◌, ◌-◌, ◌*◌, ◌/◌, ◌%◌, ◌^◌, List, [], ◌∷◌, ◌++◌, Option, none, some, Bool, true,
  false, ◌&&◌, ◌||◌, length, ltb, leb, ◌==◌, if◌then◌else◌,
}
use ross_os.Base.Bytes.{load_bytes, store_bytes}
use ross_os.Kbuf.{Ring}
use ross_os.Kbuf
use ross_os.Ipc.{PipeTable}
use ross_os.Ipc
use ross_os.Fd.{FdEntry, FdTable, pipe, vfs_file, get, move_offset, alloc}
use ross_os.Fd
use ross_os.Sched.{Task, Scheduler, exit_current}
use ross_os.Paging.{Vm, add_u64, map_anon, alloc_anon}
use ross_os.Vfs.{NodeOps, VfsRoot, open_path}
use ross_os.Writer.{Writer, fg, put_char}

-- `user` is the memory of the running process by its bytes, at the addresses that are its own; `serial` what has been sent to COM1.
pub record Kernel (World Node : Type 0) : Type 0 where
  pub pipes : PipeTable
  pub sched : Scheduler Node
  pub keyboard : Ring
  pub vm : Vm
  pub ticks : ℕ
  pub user : ℕ → ℕ
  pub screen : Writer
  pub serial : List ℕ
  pub vfs : VfsRoot Node
  pub world : World

-- How a system call may end: it returns, the kernel panics, or the call reaches an address that is not
-- the process's own. There the source faults, which is a panic, or reads or overwrites memory of the
-- kernel, and the model goes no further.
pub data Ending (World Node : Type 0) : Type 0 where
  returns : ℕ → Kernel World Node → Ending World Node
  panics : Ending World Node
  strays : Ending World Node

abbrev pub fd_of : {Node : Type 0} → Option (Task Node) → ℕ → Option (FdEntry Node)
fd_of none fd = none
fd_of (some task) fd = get task.fd_table fd

-- A step of `addr += 4096` while `addr < new_brk`; running out of memory ends it. `turns` bounds the
-- steps. `none` is a panic: of the mapping, or where `addr` no longer fits in 64 bits.
unfoldable pub extend : (turns cr3 addr new_brk : ℕ) → Vm → Option (ℕ × Vm)
extend zero cr3 addr new_brk vm = some (addr, vm)
extend (suc turns) cr3 addr new_brk vm =
    if ltb addr new_brk
    then elim (map_anon vm cr3 addr) [
      | none ↦ none
      | some (false, vm') ↦ some (addr, vm')
      | some (true, vm') ↦ elim (add_u64 addr 4096) [
        | none ↦ none
        | some next ↦ extend turns cr3 next new_brk vm'
      ]
    ]
    else some (addr, vm)

moved : {Node : Type 0} → (fd n : ℕ) → Option (Task Node) → Option (Task Node)
moved fd n none = none
moved fd n (some task) = some (record task { fd_table = move_offset task.fd_table fd n })

module _ {World Node : Type 0} where
  -- The entry of a descriptor of the current task.
  abbrev pub current_fd : Kernel World Node → ℕ → Option (FdEntry Node)
  current_fd k fd = fd_of k.sched.current_task fd

  abbrev pub set_current : Kernel World Node → Task Node → Kernel World Node
  set_current k task = record k { sched = record k.sched { current_task = some task } }

  give_to : Kernel World Node → Task Node → Option ℕ × FdTable Node → ℕ × Kernel World Node
  give_to k task (some fd, t) = (fd, set_current k (record task { fd_table = t }))
  give_to k task (none, t) = (fail, set_current k (record task { fd_table = t }))

  give : Kernel World Node → FdEntry Node → Option (Task Node) → ℕ × Kernel World Node
  unfolding give_to
  give k entry none = (fail, k)
  give k entry (some task) = give_to k task (alloc task.fd_table entry)

  -- A descriptor for `entry` in the table of the current task.
  unfoldable pub give_fd : Kernel World Node → FdEntry Node → ℕ × Kernel World Node
  unfolding give
  give_fd k entry = give k entry k.sched.current_task

  unfoldable pub sys_log : Kernel World Node → (ptr len : ℕ) → ℕ × Kernel World Node
  sys_log k ptr len = (
    0,
    record k { serial = k.serial ++ (log_tag ++ (load_bytes k.user ptr len ++ (b'\n' ∷ []))) },
  )

  pipe_made : Kernel World Node → Option ℕ × PipeTable → ℕ × Kernel World Node
  pipe_made k (none, pipes) = (fail, k)
  pipe_made k (some id, pipes) = give_fd (record k { pipes = pipes }) (pipe id)

  unfoldable pub sys_pipe : Kernel World Node → ℕ × Kernel World Node
  unfolding pipe_made
  sys_pipe k = pipe_made k (Ipc.create k.pipes)

  wrote : Kernel World Node → Option ℕ × PipeTable → ℕ × Kernel World Node
  wrote k (n, pipes) = (or_fail n, record k { pipes = pipes })

  write_entry : Kernel World Node → List ℕ → Option (FdEntry Node) → ℕ × Kernel World Node
  unfolding wrote
  write_entry k bytes (some (pipe id)) = wrote k (Ipc.write k.pipes id bytes)
  write_entry k bytes _ = (fail, k)

  read_back : Kernel World Node → ℕ → Option (List ℕ) × PipeTable → ℕ × Kernel World Node
  read_back k ptr (none, pipes) = (fail, record k { pipes = pipes })
  read_back k ptr (some bytes, pipes) =
      (length bytes, record k { pipes = pipes; user = store_bytes k.user ptr bytes })

  read_file : Kernel World Node → (fd ptr : ℕ) → Option (List ℕ) → ℕ × Kernel World Node
  unfolding moved
  read_file k fd ptr none = (fail, k)
  read_file k fd ptr (some bytes) = (
    length bytes,
    record k {
      user = store_bytes k.user ptr bytes;
      sched = record k.sched { current_task = moved fd (length bytes) k.sched.current_task };
    },
  )

  unfoldable pub sys_exit : (ℕ → List ℕ) → Kernel World Node → ℕ → ℕ × Kernel World Node
  sys_exit decimal k code = (
    0,
    record k {
      serial = k.serial ++ (exit_tag ++ (decimal code ++ (b')' ∷ b'\n' ∷ [])));
      sched = exit_current k.sched;
    },
  )

  brk_to : Kernel World Node → Task Node → Option (ℕ × Vm) → Option (ℕ × Kernel World Node)
  brk_to k task none = none
  brk_to k task (some (addr, vm)) =
      some (addr, record (set_current k (record task { heap_end = addr })) { vm = vm })

  brk_in : Kernel World Node → ℕ → Option (Task Node) → Option (ℕ × Kernel World Node)
  unfolding brk_to
  brk_in k new_brk none = some (0, k)
  brk_in k new_brk (some task) =
      if (new_brk == 0) || leb new_brk task.heap_end
      then some (task.heap_end, k)
      else brk_to k task
          (extend ((new_brk - task.heap_end + 4095) / 4096) task.cr3 task.heap_end new_brk k.vm)

  -- As many steps as pages are missing are enough.
  unfoldable pub sys_brk : Kernel World Node → ℕ → Option (ℕ × Kernel World Node)
  unfolding brk_in
  sys_brk k new_brk = brk_in k new_brk k.sched.current_task

  mmap_to : Kernel World Node → Task Node → ℕ → Option (Bool × Vm) → Option (ℕ × Kernel World Node)
  mmap_to k task pages none = none
  mmap_to k task pages (some (false, vm)) = some (fail, record k { vm = vm })
  mmap_to k task pages (some (true, vm)) = elim (add_u64 task.heap_end (pages * 4096)) [
    | none ↦ none
    | some heap_end ↦
        some
          (task.heap_end, record (set_current k (record task { heap_end = heap_end })) { vm = vm })
  ]

  mmap_in : Kernel World Node → ℕ → Option (Task Node) → Option (ℕ × Kernel World Node)
  unfolding mmap_to
  mmap_in k pages none = some (fail, k)
  mmap_in k pages (some task) =
      mmap_to k task pages (alloc_anon task.cr3 task.heap_end 0 pages k.vm)

  -- `len + 4095` panics where it does not fit in 64 bits: the kernel is built with overflow checks.
  unfoldable pub sys_mmap : Kernel World Node → ℕ → Option (ℕ × Kernel World Node)
  unfolding mmap_in
  sys_mmap k len =
      if len == 0
      then some (fail, k)
      else if leb (2 ^ 64) (len + 4095)
      then none
      else mmap_in k ((len + 4095) / 4096) k.sched.current_task

  opened : Kernel World Node → Option Node → ℕ × Kernel World Node
  opened k none = (fail, k)
  opened k (some node) = give_fd k (vfs_file node 0)

  unfoldable pub sys_open : NodeOps World Node → Kernel World Node → ℕ → ℕ × Kernel World Node
  unfolding opened
  sys_open ops k path_ptr = opened k (open_path ops k.world k.vfs (copy_path k.user 513 path_ptr 0))

  close_in : Kernel World Node → ℕ → Option (Task Node) → ℕ × Kernel World Node
  close_in k fd none = (fail, k)
  close_in k fd (some task) =
      let (found, t) = Fd.close task.fd_table fd in
      (if found then 0 else fail, set_current k (record task { fd_table = t }))

  unfoldable pub sys_close : Kernel World Node → ℕ → ℕ × Kernel World Node
  unfolding close_in
  sys_close k fd = close_in k fd k.sched.current_task

  read_entry :
      NodeOps World Node
      → Kernel World Node
      → (fd ptr len : ℕ) → Option (FdEntry Node)
      → ℕ × Kernel World Node
  unfolding read_back read_file
  read_entry ops k fd ptr len (some (pipe id)) = read_back k ptr (Ipc.read k.pipes id len)
  read_entry ops k fd ptr len (some (vfs_file node off)) =
      read_file k fd ptr (ops.read k.world node off len)
  read_entry ops k fd ptr len _ = (fail, k)

  read_keys : Kernel World Node → ℕ → List ℕ × Ring → ℕ × Kernel World Node
  read_keys k ptr (keys, ring) =
      (length keys, record k { keyboard = ring; user = store_bytes k.user ptr keys })

  unfoldable pub sys_read :
      NodeOps World Node → Kernel World Node → (fd ptr len : ℕ) → ℕ × Kernel World Node
  unfolding read_entry read_keys
  sys_read ops k fd ptr len =
      if len == 0
      then (0, k)
      else if fd == 0
      then read_keys k ptr (take_keys len k.keyboard)
      else read_entry ops k fd ptr len (current_fd k fd)

  unfoldable pub sys_write :
      (ℕ → ℕ → ℕ) → Kernel World Node → (fd ptr len : ℕ) → ℕ × Kernel World Node
  unfolding write_entry
  sys_write font k fd ptr len =
      let bytes = load_bytes k.user ptr len in
      if len == 0
      then (0, k)
      else if fd == 1
      then (len, record k { screen = show font k.screen bytes })
      else if fd == 2
      then (len, record k { serial = k.serial ++ bytes })
      else write_entry k bytes (current_fd k fd)

  -- Whether the bytes from `ptr` on that a call has reached are the process's own decides between
  -- returning and straying.
  abbrev pub on_user : (ℕ → Bool) → (ptr len : ℕ) → ℕ × Kernel World Node → Ending World Node
  on_user owned ptr len r =
      if all_owned owned ptr len then Ending.returns r.0 r.1 else Ending.strays

  abbrev pub or_panic : Option (ℕ × Kernel World Node) → Ending World Node
  or_panic none = Ending.panics
  or_panic (some (n, k)) = Ending.returns n k

  -- How many bytes of the caller's buffer a read or a write has reached: those that it has moved. A
  -- write to the screen or the serial line goes through all of them.
  abbrev pub reached : ℕ × Kernel World Node → ℕ
  reached r = if r.0 == fail then 0 else r.0

  -- `syscall_dispatch`; `owned` tells the addresses of the process's own memory.
  unfoldable pub syscall_dispatch :
      NodeOps World Node
      → (font : ℕ → ℕ → ℕ) → (decimal : ℕ → List ℕ) → (owned : ℕ → Bool) → Kernel World Node
      → (id arg1 arg2 arg3 : ℕ) → Ending World Node
  syscall_dispatch ops font decimal owned k id arg1 arg2 arg3 =
      if id == 1
      then on_user owned arg1 arg2 (sys_log k arg1 arg2)
      else if id == 2
      then Ending.returns k.ticks k
      else if id == 3
      then or_panic (some (sys_pipe k))
      else if id == 4
      then on_user owned arg2
          (if (arg1 == 1) || (arg1 == 2) then arg3 else reached (sys_write font k arg1 arg2 arg3))
          (sys_write font k arg1 arg2 arg3)
      else if id == 5
      then on_user owned arg2 (reached (sys_read ops k arg1 arg2 arg3))
          (sys_read ops k arg1 arg2 arg3)
      else if id == 6
      then or_panic (some (sys_exit decimal k arg1))
      else if id == 7
      then or_panic (sys_brk k arg1)
      else if id == 8
      then or_panic (sys_mmap k arg1)
      else if id == 9
      then on_user owned arg1 (path_reads k.user 513 arg1 0) (sys_open ops k arg1)
      else if id == 10
      then or_panic (some (sys_close k arg1))
      else Ending.returns fail k
