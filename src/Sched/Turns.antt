-- ===== src/Sched/Turns.antt =====
-- Who runs next: round robin, and no task lost or duplicated.
use ross_os.Base.{
  ℕ, zero, suc, ◌≡◌, refl, ap, ◌∙◌, List, [], ◌∷◌, ◌++◌, Option, none, some, false, arith, length,
  get_elem?, Bool-cases, inl, inr,
}
use ross_os.Sched.{
  TaskState, Task, Scheduler, add_task, requeue, dispatch, pick_next, exit_current, is_dead,
}
use ross_os.Sched.States.{Event, spawn, exit, switch, step, run}

module _ {Node : Type 0} where
  unfoldable pub switches : List (Event Node) → ℕ
  switches [] = 0
  switches (switch rsp cr3 ∷ es) = suc (switches es)
  switches (_ ∷ es) = switches es

  get_elem?-append_left :
      (xs ys : List (Task Node)) (k : ℕ) (t : Task Node)
      → get_elem? xs k ≡ some t
      → get_elem? (xs ++ ys) k ≡ some t
  get_elem?-append_left [] ys k t h = absurd (cc)
  get_elem?-append_left (x ∷ xs) ys zero t h = h
  get_elem?-append_left (x ∷ xs) ys (suc k) t h = get_elem?-append_left xs ys k t h

  requeue_waits :
      (ts : List (Task Node)) (c : Option (Task Node)) (rsp k : ℕ) (t : Task Node)
      → get_elem? ts k ≡ some t
      → get_elem? (requeue ts c rsp) k ≡ some t
  unfolding requeue
  requeue_waits ts none rsp k t h = h
  requeue_waits ts (some c) rsp k t h = elim (Bool-cases (is_dead c.state)) [
    | inl e ↦ rw e h
    | inr e ↦ rw e (get_elem?-append_left ts _ k t h)
  ]

  dispatch_waits :
      (ts : List (Task Node)) (rsp cr3 k : ℕ) (t : Task Node)
      → get_elem? ts (suc k) ≡ some t
      → get_elem? (dispatch ts rsp cr3).after.tasks k ≡ some t
  unfolding dispatch
  dispatch_waits [] rsp cr3 k t h = absurd (cc)
  dispatch_waits (x ∷ ts) rsp cr3 k t h = h

  dispatch_first :
      (ts : List (Task Node)) (rsp cr3 : ℕ) (t : Task Node)
      → get_elem? ts 0 ≡ some t
      → ((dispatch ts rsp cr3).after.current_task ≡ some (record t { state = TaskState.running }))
        × ((dispatch ts rsp cr3).result ≡ record { rsp = t.rsp; cr3 = t.cr3 })
  unfolding dispatch
  dispatch_first [] rsp cr3 t h = absurd (cc)
  dispatch_first (x ∷ ts) rsp cr3 t h = ground arith

  -- A task that waits behind `k` others is the one dispatched, with its own stack pointer and address
  -- space, by the timer interrupt that follows `k` earlier ones, whatever tasks exit or are added
  -- in between.
  pub waits_its_turn :
      (es : List (Event Node)) (s : Scheduler Node) (t : Task Node) (rsp cr3 : ℕ)
      → get_elem? s.tasks (switches es) ≡ some t
      → let w = pick_next (run s es) rsp cr3 in
        (w.after.current_task ≡ some (record t { state = TaskState.running }))
        × (w.result ≡ record { rsp = t.rsp; cr3 = t.cr3 })
  unfolding run switches pick_next
  waits_its_turn [] s t rsp cr3 h =
      dispatch_first (requeue s.tasks s.current_task rsp) rsp cr3 t
        (requeue_waits s.tasks s.current_task rsp 0 t h)
  waits_its_turn (spawn x ∷ es) s t rsp cr3 h =
      waits_its_turn es (step s (spawn x)) t rsp cr3
        (unfold step add_task in get_elem?-append_left s.tasks (x ∷ []) (switches es) t h)
  waits_its_turn (exit ∷ es) s t rsp cr3 h =
      waits_its_turn es (step s exit) t rsp cr3 (unfold step exit_current in h)
  waits_its_turn (switch r c ∷ es) s t rsp cr3 h =
      waits_its_turn es (step s (switch r c)) t rsp cr3 (
        unfold step pick_next in
        dispatch_waits (requeue s.tasks s.current_task r) r c (switches es) t
          (requeue_waits s.tasks s.current_task r (suc (switches es)) t h))

  requeue_last :
      (t : Task Node) (ts : List (Task Node)) (c : Task Node) (r cr3 : ℕ)
      → is_dead c.state ≡ false
      → get_elem? (dispatch (requeue (t ∷ ts) (some c) r) r cr3).after.tasks (length ts)
        ≡ some (record c { rsp = r; state = TaskState.ready })
  unfolding requeue dispatch
  requeue_last t ts c r cr3 e = rw e (last ts)
    where
      last :
          (xs : List (Task Node))
          → get_elem? (xs ++ (record c { rsp = r; state = TaskState.ready } ∷ [])) (length xs)
            ≡ some (record c { rsp = r; state = TaskState.ready })
      last [] = refl
      last (x ∷ xs) = last xs

  -- A task `c` preempted at stack pointer `r`, with at least one other waiting, is given the CPU again
  -- at `r` and in its own address space by the timer interrupt that follows as many as there were
  -- tasks waiting at first, whatever tasks exit or are added in between.
  pub resumes_where_stopped :
      (es : List (Event Node)) (s : Scheduler Node) (t : Task Node) (ts : List (Task Node))
      (c : Task Node) (r cr3 rsp cr3' : ℕ)
      → s.tasks ≡ t ∷ ts
      → s.current_task ≡ some c
      → is_dead c.state ≡ false
      → switches es ≡ length ts
      → (pick_next (run (pick_next s r cr3).after es) rsp cr3').result
        ≡ record { rsp = r; cr3 = c.cr3 }
  resumes_where_stopped es s t ts c r cr3 rsp cr3' waiting on_cpu alive n =
      (waits_its_turn es (pick_next s r cr3).after (record c { rsp = r; state = TaskState.ready })
        rsp cr3' (ap (get_elem? (pick_next s r cr3).after.tasks) n ∙ queued)).1
    where
      queued :
          get_elem? (pick_next s r cr3).after.tasks (length ts)
          ≡ some (record c { rsp = r; state = TaskState.ready })
      queued = unfold pick_next in rw (waiting, on_cpu) (requeue_last t ts c r cr3 alive)
