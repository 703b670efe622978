-- ===== src/Sched/Census.antt =====
-- The census of live tasks: the scheduler neither loses nor duplicates one.
use ross_os.Base.{
  ℕ, ◌+◌, ◌≡◌, refl, ap, List, [], ◌∷◌, ◌++◌, map, Option, none, some, arith, ◌==◌, if◌then◌else◌,
  Bool-cases, inl, inr,
}
use ross_os.Sched.{
  TaskState, Task, Scheduler, add_task, requeue, dispatch, pick_next, mark_dead, exit_current,
  is_dead,
}
use ross_os.Sched.States.{Event, spawn, exit, switch, step, run}

abbrev pub count : ℕ → List ℕ → ℕ
count i [] = 0
count i (x ∷ xs) = (if x == i then 1 else 0) + count i xs

count-append : (i : ℕ) (xs ys : List ℕ) → count i (xs ++ ys) ≡ count i xs + count i ys
count-append i [] ys = omega arith
count-append i (x ∷ xs) ys = omega (arith, count-append i xs ys)

module _ {Node : Type 0} where
  abbrev pub ids : List (Task Node) → List ℕ
  ids = map (λ t. t.id)

  -- The id of the task on the CPU, unless it has exited.
  abbrev pub current_id : Option (Task Node) → List ℕ
  current_id none = []
  current_id (some t) = if is_dead t.state then [] else t.id ∷ []

  abbrev pub live : Scheduler Node → List ℕ
  live s = ids s.tasks ++ current_id s.current_task

  -- The ids that an event brings in, and those that it takes away.
  pub entered : Event Node → List ℕ
  entered (spawn t) = t.id ∷ []
  entered _ = []

  pub left : Scheduler Node → Event Node → List ℕ
  left s exit = current_id s.current_task
  left s _ = []

  pub all_entered : List (Event Node) → List ℕ
  all_entered [] = []
  all_entered (e ∷ es) = entered e ++ all_entered es

  pub all_left : Scheduler Node → List (Event Node) → List ℕ
  all_left s [] = []
  all_left s (e ∷ es) = left s e ++ all_left (step s e) es

  ids-append :
      (i : ℕ) (ts : List (Task Node)) (t : Task Node)
      → count i (ids (ts ++ (t ∷ []))) ≡ count i (ids ts) + (if t.id == i then 1 else 0)
  ids-append i [] t = omega arith
  ids-append i (x ∷ ts) t = omega (arith, ids-append i ts t)

  ids-requeue :
      (i : ℕ) (ts : List (Task Node)) (c : Option (Task Node)) (rsp : ℕ)
      → count i (ids (requeue ts c rsp)) ≡ count i (ids ts) + count i (current_id c)
  unfolding requeue
  ids-requeue i ts none rsp = omega arith
  ids-requeue i ts (some c) rsp = elim (Bool-cases (is_dead c.state)) [
    | inl e ↦ rw e (omega arith)
    | inr e ↦
        rw e (omega (arith, ids-append i ts (record c { rsp = rsp; state = TaskState.ready })))
  ]

  live-dispatch :
      (i : ℕ) (ts : List (Task Node)) (rsp cr3 : ℕ)
      → count i (live (dispatch ts rsp cr3).after) ≡ count i (ids ts)
  unfolding dispatch
  live-dispatch i [] rsp cr3 = refl
  live-dispatch i (t ∷ ts) rsp cr3 = omega (arith, count-append i (ids ts) (t.id ∷ []))

  current_id-mark_dead : (c : Option (Task Node)) → current_id (mark_dead c) ≡ []
  unfolding mark_dead
  current_id-mark_dead none = refl
  current_id-mark_dead (some t) = refl

  count-live :
      (i : ℕ) (s : Scheduler Node)
      → count i (live s) ≡ count i (ids s.tasks) + count i (current_id s.current_task)
  count-live i s = count-append i (ids s.tasks) (current_id s.current_task)

  step-live :
      (i : ℕ) (s : Scheduler Node) (e : Event Node)
      → count i (live (step s e)) + count i (left s e) ≡ count i (live s) + count i (entered e)
  unfolding step add_task exit_current pick_next left entered
  step-live i s (spawn t) =
      omega (arith, count-live i s, count-live i (add_task s t), ids-append i s.tasks t)
  step-live i s exit = omega (
    arith,
    count-live i s,
    count-live i (exit_current s),
    ap (count i) (current_id-mark_dead s.current_task),
  )
  step-live i s (switch rsp cr3) = omega (
    arith,
    count-live i s,
    ids-requeue i s.tasks s.current_task rsp,
    live-dispatch i (requeue s.tasks s.current_task rsp) rsp cr3,
  )

  -- Through any events, every task id is among the live tasks (waiting, or on the CPU and not exited)
  -- as often as it was at first and has been added, less the times that it has exited.
  pub run-live :
      (es : List (Event Node)) (s : Scheduler Node) (i : ℕ)
      → count i (live (run s es)) + count i (all_left s es)
        ≡ count i (live s) + count i (all_entered es)
  unfolding run all_left all_entered
  run-live [] s i = refl
  run-live (e ∷ es) s i = omega (
    arith,
    run-live es (step s e) i,
    step-live i s e,
    count-append i (left s e) (all_left (step s e) es),
    count-append i (entered e) (all_entered es),
  )
