-- ===== src/Syscall/Invariant.antt =====
-- What every system call keeps of the kernel's state.
pub mod Io
pub mod Memory
pub mod All
use ross_os.Base.{
  ◌+◌, ◌*◌, ◌/◌, ◌^◌, ◌≤◌, ◌<◌, ℕ, zero, suc, ◌+◌, ◌-◌, ◌*◌, ◌/◌, ◌^◌, ◌≤◌, ◌<◌, ◌≡◌, ◌≢◌, refl, ap,
  sym, ◌∙◌, subst, List, [], ◌∷◌, Option, none, some, Bool, true, false, arith, length, length-set,
  set, slot_at, leb, ◌==◌, ◌||◌, if◌then◌else◌, Bool-cases, Option-cases, if_both, inl, inr, ◌⊎◌,
}
use ross_os.Base.Bytes.{load_bytes}
use ross_os.Kbuf.{Ring}
use ross_os.Kbuf
use ross_os.Kbuf.Window
use ross_os.Kbuf.Refine.{pop-IsValid}
use ross_os.Ipc.{PipeTable, max_pipes}
use ross_os.Ipc
use ross_os.Ipc.Table.{Creates, create-Creates, after, after-IsValid, creates, writes, reads}
use ross_os.Ipc.Table
use ross_os.Ipc.Retain.{Retains, Retains-refl, create-Retains, write-Retains, read-Retains}
use ross_os.Fd.{
  FdEntry, FdTable, stdin, stdout, stderr, pipe, vfs_file, fd_max, alloc, move_offset, get,
}
use ross_os.Fd
use ross_os.Fd.Laws.{Allocates, alloc-Allocates, length-move_offset, length-close}
use ross_os.Sched.{Task, TaskState, exit_current, mark_dead}
use ross_os.Sched.States.{AllReady, OnCpu}
use ross_os.Pmm.Calls
use ross_os.Paging.{Vm, alloc_anon}
use ross_os.Vfs.{NodeOps, open_path}
use ross_os.Writer.{Writer}
use ross_os.Syscall.{
  Kernel, Ending, all_owned, on_user, fail, current_fd, set_current, moved, write_entry, wrote,
  read_entry, read_back, read_file, read_keys, take_keys, keys_from, extend, copy_path, sys_write,
  sys_read, sys_pipe, pipe_made, give_fd, give, give_to, sys_log, sys_exit, sys_brk, brk_in, brk_to,
  sys_mmap, mmap_in, mmap_to, sys_open, opened, sys_close, close_in, syscall_dispatch,
}
use ross_os.Syscall.Cases.{Answers, dispatch-Answers}

-- The task on the CPU: 64 descriptor slots, and running or exited.
abbrev pub TaskSound : {Node : Type 0} → Option (Task Node) → Type 0
TaskSound none = Unit {0}
TaskSound (some t) =
    (length t.fd_table ≡ fd_max) × ((t.state ≡ TaskState.running) ⊎ (t.state ≡ TaskState.dead))

-- Only the calls for memory may panic, and of those none for no memory.
abbrev pub MayPanic : (id arg1 : ℕ) → Type 0
MayPanic id arg1 = (((id == 7) || (id == 8)) ≡ true) × (0 < arg1)

-- The pointer among the arguments of sys_log, sys_write, sys_read and sys_open.
abbrev pub pointer : (id arg1 arg2 : ℕ) → Option ℕ
pointer id arg1 arg2 =
    if (id == 1) || (id == 9) then some arg1 else if (id == 4) || (id == 5) then some arg2 else none

-- A call strays only from a pointer to memory that is not all the process's own.
abbrev pub MayStray : (ℕ → Bool) → Option ℕ → Type 0
MayStray owned none = ⊥
MayStray owned (some ptr) = (addr : ℕ) × (ptr ≤ addr) × (owned addr ≡ false)

pub unowned :
    (owned : ℕ → Bool) (ptr len : ℕ) → all_owned owned ptr len ≡ false → MayStray owned (some ptr)
unfolding all_owned
unowned owned ptr zero h = absurd (ground arith)
unowned owned ptr (suc len) h = elim (Bool-cases (owned ptr)) [
  | inr e ↦ (ptr, omega arith, e)
  | inl e ↦
      let (addr, above, out) = unowned owned (ptr + 1) len (ground arith) in
      (addr, omega (arith, above), out)
]

module _ {World Node : Type 0} where
  pub record IsSound (k : Kernel World Node) : Type 0 where
    pub pipes : Table.IsValid k.pipes
    pub keyboard : Window.IsValid k.keyboard
    pub pmm : Calls.IsValid k.vm.pmm
    pub waiting : AllReady k.sched.tasks
    pub current : TaskSound k.sched.current_task

  -- What a system call leads to: a sound state in which no pipe is gone.
  pub record Next (k k' : Kernel World Node) : Type 0 where
    pub sound : IsSound k'
    pub pipes_stay : Retains k.pipes k'.pipes

  abbrev pub Keeps : Kernel World Node → Option (ℕ × Kernel World Node) → Type 0
  Keeps k none = Unit {0}
  Keeps k (some (n, k')) = Next k k'

  abbrev pub Leads :
      (ℕ → Bool) → Kernel World Node → (id arg1 arg2 : ℕ) → Ending World Node → Type 0
  Leads owned k id arg1 arg2 (Ending.returns n k') = Next k k'
  Leads owned k id arg1 arg2 Ending.panics = MayPanic id arg1
  Leads owned k id arg1 arg2 Ending.strays = MayStray owned (pointer id arg1 arg2)

  pub user-Leads :
      (owned : ℕ → Bool) (k : Kernel World Node) (id arg1 arg2 ptr len : ℕ)
      (r : ℕ × Kernel World Node)
      → pointer id arg1 arg2 ≡ some ptr
      → Keeps k (some r)
      → Leads owned k id arg1 arg2 (on_user owned ptr len r)
  user-Leads owned k id arg1 arg2 ptr len r p kept = elim (Bool-cases (all_owned owned ptr len)) [
    | inl e ↦ rw e kept
    | inr e ↦ rw e (subst (MayStray owned) (sym p) (unowned owned ptr len e))
  ]

  pub same-Next : (k : Kernel World Node) → IsSound k → Next k k
  same-Next k v = record { sound = v; pipes_stay = Retains-refl k.pipes }

  -- The screen and the serial line do not matter.
  pub seen-Next :
      (k : Kernel World Node) (screen : Writer) (serial : List ℕ)
      → IsSound k
      → Next k (record k { screen = screen; serial = serial })
  seen-Next k screen serial v = record {
    sound = record {
      pipes = v.pipes;
      keyboard = v.keyboard;
      pmm = v.pmm;
      waiting = v.waiting;
      current = v.current;
    };
    pipes_stay = Retains-refl k.pipes;
  }

  give_to-Keeps :
      (k0 k : Kernel World Node) (task : Task Node) (entry : FdEntry Node)
      (r : Option ℕ × FdTable Node)
      → IsSound k
      → Retains k0.pipes k.pipes
      → TaskSound (some task)
      → Allocates task.fd_table entry r
      → Keeps k0 (some (give_to k task r))
  unfolding give_to
  give_to-Keeps k0 k task entry (none, t) v s c a = record {
    sound = record {
      pipes = v.pipes;
      keyboard = v.keyboard;
      pmm = v.pmm;
      waiting = v.waiting;
      current = (ap (λ t. length t) a.0 ∙ c.0, c.1);
    };
    pipes_stay = s;
  }
  give_to-Keeps k0 k task entry (some fd, t) v s c a = record {
    sound = record {
      pipes = v.pipes;
      keyboard = v.keyboard;
      pmm = v.pmm;
      waiting = v.waiting;
      current = (a.sized, c.1);
    };
    pipes_stay = s;
  }

  give-Keeps :
      (k0 k : Kernel World Node) (entry : FdEntry Node) (current : Option (Task Node))
      → IsSound k
      → Retains k0.pipes k.pipes
      → TaskSound current
      → Keeps k0 (some (give k entry current))
  unfolding give
  give-Keeps k0 k entry none v s c = record { sound = v; pipes_stay = s }
  give-Keeps k0 k entry (some task) v s c =
      give_to-Keeps k0 k task entry (alloc task.fd_table entry) v s c
        (alloc-Allocates task.fd_table entry c.0)

  pub give_fd-Keeps :
      (k0 k : Kernel World Node) (entry : FdEntry Node)
      → IsSound k
      → Retains k0.pipes k.pipes
      → Keeps k0 (some (give_fd k entry))
  unfolding give_fd
  give_fd-Keeps k0 k entry v s = give-Keeps k0 k entry k.sched.current_task v s v.current

  -- The page allocator and the current task are replaced.
  pub with_vm-Next :
      (k : Kernel World Node) (task : Task Node) (vm : Vm)
      → IsSound k
      → Calls.IsValid vm.pmm
      → TaskSound (some task)
      → Next k (record (set_current k task) { vm = vm })
  with_vm-Next k task vm v p c = record {
    sound = record {
      pipes = v.pipes;
      keyboard = v.keyboard;
      pmm = p;
      waiting = v.waiting;
      current = c;
    };
    pipes_stay = Retains-refl k.pipes;
  }
