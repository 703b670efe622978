-- ===== src/Sched/States.antt =====
-- Task states: what waits in the queue is ready, and what runs is running or has just exited.
use ross_os.Base.{ℕ, ◌≡◌, refl, List, [], ◌∷◌, ◌++◌, Option, none, some, arith, ◌⊎◌, inl, inr}
use ross_os.Sched.{
  TaskState, Task, Scheduler, add_task, requeue, dispatch, pick_next, mark_dead, exit_current,
}

-- What can happen to the scheduler between two timer interrupts, and the interrupt itself.
pub data Event (Node : Type 0) : Type 0 where
  spawn : Task Node → Event Node
  exit : Event Node
  switch : ℕ → ℕ → Event Node

module _ {Node : Type 0} where
  abbrev pub AllReady : List (Task Node) → Type 0
  AllReady [] = Unit {0}
  AllReady (t ∷ ts) = (t.state ≡ TaskState.ready) × AllReady ts

  abbrev pub OnCpu : Option (Task Node) → Type 0
  OnCpu none = Unit {0}
  OnCpu (some t) = (t.state ≡ TaskState.running) ⊎ (t.state ≡ TaskState.dead)

  pub record IsValid (s : Scheduler Node) : Type 0 where
    pub waiting : AllReady s.tasks
    pub on_cpu : OnCpu s.current_task

  AllReady-append :
      (ts : List (Task Node)) (t : Task Node)
      → AllReady ts
      → t.state ≡ TaskState.ready
      → AllReady (ts ++ (t ∷ []))
  AllReady-append [] t h e = (e, tt)
  AllReady-append (x ∷ ts) t h e = (h.0, AllReady-append ts t h.1 e)

  requeue-AllReady :
      (ts : List (Task Node)) (c : Option (Task Node)) (rsp : ℕ)
      → AllReady ts
      → AllReady (requeue ts c rsp)
  unfolding requeue
  requeue-AllReady ts none rsp h = h
  requeue-AllReady ts (some c) rsp h =
      ground (arith, AllReady-append ts (record c { rsp = rsp; state = TaskState.ready }) h refl)

  dispatch-IsValid :
      (ts : List (Task Node)) (rsp cr3 : ℕ) → AllReady ts → IsValid (dispatch ts rsp cr3).after
  unfolding dispatch
  dispatch-IsValid [] rsp cr3 h = record { waiting = tt; on_cpu = tt }
  dispatch-IsValid (t ∷ ts) rsp cr3 h = record { waiting = h.1; on_cpu = inl refl }

  unfoldable pub step : Scheduler Node → Event Node → Scheduler Node
  step s (spawn t) = add_task s t
  step s exit = exit_current s
  step s (switch rsp cr3) = (pick_next s rsp cr3).after

  abbrev pub Fresh : Event Node → Type 0
  Fresh (spawn t) = t.state ≡ TaskState.ready
  Fresh _ = Unit {0}

  pub step-IsValid :
      (s : Scheduler Node) (e : Event Node) → Fresh e → IsValid s → IsValid (step s e)
  unfolding step add_task exit_current mark_dead pick_next
  step-IsValid s (spawn t) f v = record {
    waiting = AllReady-append s.tasks t v.waiting f;
    on_cpu = v.on_cpu;
  }
  step-IsValid s exit f v = record { waiting = v.waiting; on_cpu = go s.current_task }
    where
      go : (c : Option (Task Node)) → OnCpu (mark_dead c)
      go none = tt
      go (some t) = inr refl
  step-IsValid s (switch rsp cr3) f v =
      dispatch-IsValid (requeue s.tasks s.current_task rsp) rsp cr3
        (requeue-AllReady s.tasks s.current_task rsp v.waiting)

  unfoldable pub run : Scheduler Node → List (Event Node) → Scheduler Node
  run s [] = s
  run s (e ∷ es) = run (step s e) es

  abbrev pub AllFresh : List (Event Node) → Type 0
  AllFresh [] = Unit {0}
  AllFresh (e ∷ es) = Fresh e × AllFresh es

  -- Whatever happens between and at timer interrupts, if only ready tasks are added: the tasks that
  -- wait are ready, and the one on the CPU is running or has exited.
  pub run-IsValid :
      (es : List (Event Node)) (s : Scheduler Node) → AllFresh es → IsValid s → IsValid (run s es)
  unfolding run
  run-IsValid [] s f v = v
  run-IsValid (e ∷ es) s f v = run-IsValid es (step s e) f.1 (step-IsValid s e f.0 v)
