-- ===== src/Tests/Syscall.antt =====
-- System calls at concrete inputs.
use ross_os.Base.{ℕ, ◌≡◌, refl, [], ◌∷◌, some, true, arith, length-replicate, find_free, inl}
use ross_os.Base.Bytes.{load_bytes}
use ross_os.Kbuf
use ross_os.Ipc
use ross_os.Fd.{with_stdio, alloc}
use ross_os.Sched.{Task, main_task}
use ross_os.Writer.{new_writer}
use ross_os.Syscall.{Kernel, sys_pipe, sys_write, sys_read, sys_brk, give_fd}
use ross_os.Syscall.Pipes.{pipe_round_trip}
use ross_os.Syscall.Memory.{Breaks, sys_brk-Breaks}
use ross_os.Syscall.Raise.{Raised, sys_brk-Raised}
use ross_os.Tests.Paging.{six_left, six_left-IsValid}
use ross_os.Tests.Vfs.{toy, mounts}

abbrev process : Task ℕ
unfolding main_task with_stdio
process = record (main_task 1 0x1000) { is_user = true; heap_end = 0x80_0000 }

-- A process whose byte at address `a` is `a`, alone on the CPU.
abbrev kernel : Kernel Unit ℕ
unfolding main_task with_stdio
kernel = record {
  pipes = [];
  sched = record { tasks = []; current_task = some process };
  keyboard = Kbuf.initial;
  vm = record { pmm = six_left; memory = λ a. 0 };
  ticks = 7;
  user = λ a. a;
  screen = new_writer (λ a. 0) 640 480;
  serial = [];
  vfs = mounts;
  world = tt;
}

abbrev piped : Kernel Unit ℕ
piped = (sys_pipe kernel).1

pipe_round_trip_example :
    let written = sys_write (λ ch row. 0) piped 3 65 3 in
    let got = sys_read toy written.1 3 1000 10 in
    (written.0 ≡ 3) × (got.0 ≡ 3) × (load_bytes got.1.user 1000 3 ≡ 65 ∷ 66 ∷ 67 ∷ [])
unfolding sys_pipe main_task with_stdio load_bytes Ipc.create find_free give_fd alloc
pipe_round_trip_example =
    pipe_round_trip toy (λ ch row. 0) kernel piped process 3 65 3 1000 10 (omega arith) refl
      (length-replicate {A = ℕ} 64 0) refl (omega arith) (omega arith) (omega arith) (omega arith)

sys_brk-Breaks_example : Breaks kernel process 0x80_1800 (sys_brk kernel 0x80_1800)
unfolding main_task with_stdio
sys_brk-Breaks_example = sys_brk-Breaks kernel process 0x80_1800 six_left-IsValid refl

-- The top table of the process, which is page 1, is empty.
sys_brk-Raised_example : Raised kernel process (sys_brk kernel 0x80_0010)
unfolding main_task with_stdio
sys_brk-Raised_example =
    sys_brk-Raised kernel process 0x80_0010 six_left-IsValid (omega arith) refl
      ((refl, refl, omega arith), tt, inl refl) (omega arith) (omega arith) (omega arith)
