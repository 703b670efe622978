-- ===== src/Tests/Sched.antt =====
-- The scheduler at concrete inputs.
use ross_os.Base.{ℕ, ◌+◌, ◌≡◌, refl, List, [], ◌∷◌, some, true, false, arith, inl}
use ross_os.Sched.{TaskState, Task, Scheduler, new_task, main_task, pick_next}
use ross_os.Sched.States.{Event, spawn, exit, switch, run, IsValid, run-IsValid}
use ross_os.Sched.Turns.{switches, waits_its_turn, resumes_where_stopped}
use ross_os.Sched.Census.{count, live, all_left, all_entered, run-live}
use ross_os.Sched.Context.{Starts, new_task-Starts}

abbrev main : Task ℕ
unfolding main_task
main = main_task 0 0x1000

abbrev heartbeat : Task ℕ
unfolding new_task
heartbeat = new_task 1 0x20_0000 0x40_0000 0 0x1000 false

abbrev shell : Task ℕ
unfolding new_task
shell = new_task 2 0x30_0000 0x40_1000 0x50_8000 0x9000 true

-- `main` runs while `heartbeat` waits.
abbrev at_boot : Scheduler ℕ
unfolding main_task new_task
at_boot = record { tasks = heartbeat ∷ []; current_task = some main }

abbrev story : List (Event ℕ)
unfolding new_task
story = spawn shell ∷ switch 0x7000 0x1000 ∷ exit ∷ []

run-IsValid_example : IsValid (run at_boot story)
unfolding main_task new_task
run-IsValid_example =
    run-IsValid story at_boot (refl, (tt, (tt, tt)))
      (record { waiting = (refl, tt); on_cpu = inl refl })

waits_its_turn_example :
    let w =
      pick_next
        (run
          (record { tasks = heartbeat ∷ shell ∷ []; current_task = some main })
          (exit ∷ switch 1 2 ∷ []))
        3
        4 in
    (w.after.current_task ≡ some (record shell { state = TaskState.running }))
    × (w.result ≡ record { rsp = shell.rsp; cr3 = shell.cr3 })
unfolding main_task new_task switches
waits_its_turn_example =
    waits_its_turn (exit ∷ switch 1 2 ∷ [])
      (record { tasks = heartbeat ∷ shell ∷ []; current_task = some main }) shell 3 4 refl

resumes_where_stopped_example :
    (pick_next (run (pick_next at_boot 0x7000 0x1000).after (spawn shell ∷ [])) 5 6).result
    ≡ record { rsp = 0x7000; cr3 = 0x1000 }
unfolding main_task new_task switches
resumes_where_stopped_example =
    resumes_where_stopped (spawn shell ∷ []) at_boot heartbeat [] main 0x7000 0x1000 5 6 refl refl
      refl refl

run-live_example :
    count 1 (live (run at_boot story)) + count 1 (all_left at_boot story)
    ≡ count 1 (live at_boot) + count 1 (all_entered story)
unfolding main_task new_task
run-live_example = run-live story at_boot 1

new_task-Starts_example :
    Starts ℕ (new_task 2 0x30_0000 0x40_1000 0x50_8000 0x9000 true) 0x40_1000 0x50_8000 true
new_task-Starts_example =
    new_task-Starts ℕ 2 0x30_0000 0x40_1000 0x50_8000 0x9000 true (λ e. absurd (omega arith))
