-- ===== src/Sched.antt =====
-- ross-kernel/src/task.rs: tasks, their first context, and the round-robin scheduler.
pub mod States
pub mod Turns
pub mod Census
pub mod Context
use ross_os.Base.{
  ℕ, ◌+◌, ◌-◌, ◌*◌, List, [], ◌∷◌, ◌++◌, Option, none, some, Bool, true, false, replicate, ◌==◌,
  if◌then◌else◌,
}
use ross_os.Fd.{FdTable, with_stdio}

pub data TaskState : Type 0 where
  ready running blocked dead : TaskState

-- `stack` is what lies on the kernel stack from `rsp` to `kernel_stack_top`, as 64-bit words.
pub record Task (Node : Type 0) : Type 0 where
  pub id : ℕ
  pub stack : List ℕ
  pub kernel_stack_top : ℕ
  pub rsp : ℕ
  pub cr3 : ℕ
  pub state : TaskState
  pub is_user : Bool
  pub fd_table : FdTable Node
  pub heap_end : ℕ

pub record TaskSwitchResult : Type 0 where
  pub rsp : ℕ
  pub cr3 : ℕ

pub record Scheduler (Node : Type 0) : Type 0 where
  pub tasks : List (Task Node)
  pub current_task : Option (Task Node)

abbrev pub stack_size : ℕ
stack_size = 0x2000

abbrev pub is_dead : TaskState → Bool
is_dead TaskState.dead = true
is_dead _ = false

-- What a switch yields: the registers to load, the stack for the TSS if it is set, the scheduler.
pub record Switch (Node : Type 0) : Type 0 where
  pub result : TaskSwitchResult
  pub tss_stack : Option ℕ
  pub after : Scheduler Node

module _ {Node : Type 0} where
  -- `Task::new` with the next id and the address `base` at which the allocator placed the stack.
  unfoldable pub new_task : (id base entry_point stack_top cr3 : ℕ) → Bool → Task Node
  unfolding with_stdio
  new_task id base entry_point stack_top cr3 is_user = record {
    id = id;
    stack =
        replicate 15 0
        ++ (entry_point
            ∷ (if is_user then 0x23 else 0x08)
            ∷ 0x202
            ∷ (if stack_top == 0 then base + stack_size else stack_top)
            ∷ (if is_user then 0x1B else 0x10)
            ∷ []);
    kernel_stack_top = base + stack_size;
    rsp = base + stack_size - 20 * 8;
    cr3 = cr3;
    state = TaskState.ready;
    is_user = is_user;
    fd_table = with_stdio;
    heap_end = 0;
  }

  -- `Task::main_task` with the next id and the value of the CR3 register.
  unfoldable pub main_task : (id cr3 : ℕ) → Task Node
  unfolding with_stdio
  main_task id cr3 = record {
    id = id;
    stack = [];
    kernel_stack_top = 0;
    rsp = 0;
    cr3 = cr3;
    state = TaskState.running;
    is_user = false;
    fd_table = with_stdio;
    heap_end = 0;
  }

  abbrev pub empty_scheduler : Scheduler Node
  empty_scheduler = record { tasks = []; current_task = none }

  unfoldable pub set_main : Scheduler Node → Task Node → Scheduler Node
  set_main s task = record s { current_task = some task }

  unfoldable pub add_task : Scheduler Node → Task Node → Scheduler Node
  add_task s task = record s { tasks = s.tasks ++ (task ∷ []) }

  -- The queue after the current task has been taken: a dead one is dropped.
  unfoldable pub requeue : List (Task Node) → Option (Task Node) → ℕ → List (Task Node)
  requeue tasks none rsp = tasks
  requeue tasks (some current) rsp =
      if is_dead current.state
      then tasks
      else tasks ++ (record current { rsp = rsp; state = TaskState.ready } ∷ [])

  unfoldable pub dispatch : List (Task Node) → (rsp cr3 : ℕ) → Switch Node
  dispatch [] rsp cr3 = record {
    result = record { rsp = rsp; cr3 = cr3 };
    tss_stack = none;
    after = record { tasks = []; current_task = none };
  }
  dispatch (next ∷ rest) rsp cr3 = record {
    result = record { rsp = next.rsp; cr3 = next.cr3 };
    tss_stack = if next.is_user then some next.kernel_stack_top else none;
    after = record {
      tasks = rest;
      current_task = some (record next { state = TaskState.running });
    };
  }

  -- `pick_next` where the CR3 register holds `cr3`.
  unfoldable pub pick_next : Scheduler Node → (rsp cr3 : ℕ) → Switch Node
  unfolding requeue dispatch
  pick_next s rsp cr3 = dispatch (requeue s.tasks s.current_task rsp) rsp cr3

  abbrev pub mark_dead : Option (Task Node) → Option (Task Node)
  mark_dead none = none
  mark_dead (some task) = some (record task { state = TaskState.dead })

  -- What `sys_exit` does to the scheduler.
  unfoldable pub exit_current : Scheduler Node → Scheduler Node
  exit_current s = record s { current_task = mark_dead s.current_task }
