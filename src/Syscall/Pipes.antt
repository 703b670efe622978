-- ===== src/Syscall/Pipes.antt =====
-- The system calls on pipes.
use ross_os.Base.{
  ℕ, ◌+◌, ◌≤◌, ◌<◌, ◌≡◌, ◌≢◌, refl, ap, sym, ◌∙◌, subst, List, ◌++◌, Option, none, some, false, min,
  arith, length, set, drop, slot_at, slot_at-set_self, slot_at-lt, ==_ne,
}
use ross_os.Base.Bytes.{
  load_bytes, store_bytes, load_bytes-store_bytes, length-load_bytes, take_all,
}
use ross_os.Ipc.{Pipe, PipeTable, max_pipe_bytes, max_pipes, accepted, fresh_pipe}
use ross_os.Ipc
use ross_os.Ipc.Table.{Creates, create-Creates}
use ross_os.Ipc.Stream.{write_open, read_open}
use ross_os.Fd.{FdEntry, pipe, fd_max, alloc}
use ross_os.Fd.Laws.{Allocates, alloc-Allocates}
use ross_os.Sched.{Task}
use ross_os.Vfs.{NodeOps}
use ross_os.Syscall.{
  Kernel, fail, current_fd, write_entry, wrote, read_entry, read_back, sys_write, sys_read,
  sys_pipe, pipe_made, give_fd, give, give_to,
}

module _ {World Node : Type 0} where
  -- What `sys_pipe` has done when it gives a descriptor.
  pub record Opened (k : Kernel World Node) (fd : ℕ) (k' : Kernel World Node) : Type 0 where
    pub id : ℕ
    pub empty : slot_at k'.pipes id ≡ some fresh_pipe
    pub entry : current_fd k' fd ≡ some (pipe id)
    pub above_stdio : 3 ≤ fd
    pub same_user : k'.user ≡ k.user

  Opens : Kernel World Node → ℕ × Kernel World Node → Type 0
  Opens k (fd, k') = fd ≢ fail → Opened k fd k'

  give_to-Opens :
      (k0 k : Kernel World Node) (task : Task Node) (id : ℕ)
      (r : Option ℕ × List (Option (FdEntry Node)))
      → k.user ≡ k0.user
      → slot_at k.pipes id ≡ some fresh_pipe
      → Allocates task.fd_table (pipe id) r
      → Opens k0 (give_to k task r)
  unfolding Opens give_to
  give_to-Opens k0 k task id (none, t) u e a ne = absurd (ne refl)
  give_to-Opens k0 k task id (some fd, t) u e a ne = record {
    id = id;
    empty = e;
    entry = a.stored;
    above_stdio = a.above_stdio;
    same_user = u;
  }

  give-Opens :
      (k0 k : Kernel World Node) (task : Task Node) (id : ℕ)
      → k.sched.current_task ≡ some task
      → length task.fd_table ≡ fd_max
      → k.user ≡ k0.user
      → slot_at k.pipes id ≡ some fresh_pipe
      → Opens k0 (give_fd k (pipe id))
  unfolding give_fd give
  give-Opens k0 k task id c l u e = rw c (
      give_to-Opens k0 k task id (alloc task.fd_table (pipe id)) u e
        (alloc-Allocates task.fd_table (pipe id) l))

  pipe_made-Opens :
      (k : Kernel World Node) (task : Task Node) (r : Option ℕ × PipeTable)
      → k.sched.current_task ≡ some task
      → length task.fd_table ≡ fd_max
      → Creates k.pipes r
      → Opens k (pipe_made k r)
  unfolding Opens pipe_made
  pipe_made-Opens k task (none, t) c l v = λ ne. absurd (ne refl)
  pipe_made-Opens k task (some id, t) c l v =
      give-Opens k (record k { pipes = t }) task id c l refl v.opened

  pub sys_pipe_opens :
      (k k' : Kernel World Node) (task : Task Node) (fd : ℕ)
      → length k.pipes ≤ max_pipes
      → k.sched.current_task ≡ some task
      → length task.fd_table ≡ fd_max
      → sys_pipe k ≡ (fd, k')
      → fd ≢ fail
      → Opened k fd k'
  unfolding Opens sys_pipe
  sys_pipe_opens k k' task fd b c l e =
      subst (Opens k) e (pipe_made-Opens k task (Ipc.create k.pipes) c l (create-Creates k.pipes b))

  -- A write that the pipe has room for is taken whole.
  pub sys_write_pipe :
      (font : ℕ → ℕ → ℕ) (k : Kernel World Node) (fd id src len : ℕ) (p : Pipe)
      → 3 ≤ fd
      → current_fd k fd ≡ some (pipe id)
      → slot_at k.pipes id ≡ some p
      → p.closed ≡ false
      → 0 < len
      → length p.buffer + len ≤ max_pipe_bytes
      → sys_write font k fd src len ≡ (
        len,
        record k {
          pipes =
              set k.pipes id (some (record p { buffer = p.buffer ++ load_bytes k.user src len }));
        },
      )
  unfolding sys_write write_entry wrote
  sys_write_pipe font k fd id src len p above c e o pos fits = rw (
    ==_ne len 0 (omega (arith, pos)),
    ==_ne fd 1 (omega (arith, above)),
    ==_ne fd 2 (omega (arith, above)),
    c,
    write_open k.pipes id (load_bytes k.user src len) p e o,
    all,
    take_all len (load_bytes k.user src len) (omega (arith, length-load_bytes k.user src len)),
  )
    where
      all : accepted p (load_bytes k.user src len) ≡ len
      all = omega (arith, length-load_bytes k.user src len, fits)

  -- A read into a buffer that has room for all the pipe holds takes it all.
  pub sys_read_pipe :
      (ops : NodeOps World Node) (k : Kernel World Node) (fd id dst room : ℕ) (p : Pipe)
      → 3 ≤ fd
      → current_fd k fd ≡ some (pipe id)
      → slot_at k.pipes id ≡ some p
      → 0 < room
      → length p.buffer ≤ room
      → sys_read ops k fd dst room ≡ (
        length p.buffer,
        record k {
          pipes = set k.pipes id (some (record p { buffer = drop (length p.buffer) p.buffer }));
          user = store_bytes k.user dst p.buffer;
        },
      )
  unfolding sys_read read_entry read_back
  sys_read_pipe ops k fd id dst room p above c e pos fits = rw (
    ==_ne room 0 (omega (arith, pos)),
    ==_ne fd 0 (omega (arith, above)),
    c,
    read_open k.pipes id room p e,
    all,
    take_all (length p.buffer) p.buffer (omega arith),
  )
    where
      all : min room (length p.buffer) ≡ length p.buffer
      all = omega (arith, fits)

  -- What a process writes to a pipe that `sys_pipe` has just given it, at most 4096 bytes, is what a
  -- read of as much or more then stores in its memory, and both calls answer the number of bytes. The
  -- process has a descriptor table of 64 slots, and there are at most 64 pipe slots.
  pub pipe_round_trip :
      (ops : NodeOps World Node) (font : ℕ → ℕ → ℕ) (k k' : Kernel World Node) (task : Task Node)
      (fd src len dst room : ℕ)
      → length k.pipes ≤ max_pipes
      → k.sched.current_task ≡ some task
      → length task.fd_table ≡ fd_max
      → sys_pipe k ≡ (fd, k')
      → fd ≢ fail
      → 0 < len
      → len ≤ max_pipe_bytes
      → len ≤ room
      → let written = sys_write font k' fd src len in
        let got = sys_read ops written.1 fd dst room in
        (written.0 ≡ len)
        × (got.0 ≡ len)
        × (load_bytes got.1.user dst len ≡ load_bytes k.user src len)
  pipe_round_trip ops font k k' task fd src len dst room b c l e ne pos fits roomy = (
    ap (λ r. r.0) w,
    ap (λ r. (sys_read ops r.1 fd dst room).0) w ∙ ap (λ r. r.0) r ∙ counted,
    ap (λ r. load_bytes (sys_read ops r.1 fd dst room).1.user dst len) w
        ∙ ap (λ r. load_bytes r.1.user dst len) r
        ∙ ap (load_bytes (store_bytes k'.user dst bytes) dst) (sym counted)
        ∙ load_bytes-store_bytes k'.user dst bytes
        ∙ ap (λ u. load_bytes u src len) o.same_user,
  )
    where
      o : Opened k fd k'
      o = sys_pipe_opens k k' task fd b c l e ne

      bytes : List ℕ
      bytes = load_bytes k'.user src len

      counted : length bytes ≡ len
      counted = length-load_bytes k'.user src len

      full : Pipe
      full = record { buffer = bytes; closed = false }

      k2 : Kernel World Node
      k2 = record k' { pipes = set k'.pipes o.id (some full) }

      w : sys_write font k' fd src len ≡ (len, k2)
      w =
          sys_write_pipe font k' fd o.id src len fresh_pipe o.above_stdio o.entry o.empty refl pos
            (omega (arith, fits))

      r : sys_read ops k2 fd dst room ≡ (
        length bytes,
        record k2 {
          pipes = set k2.pipes o.id (some (record full { buffer = drop (length bytes) bytes }));
          user = store_bytes k'.user dst bytes;
        },
      )
      r =
          sys_read_pipe ops k2 fd o.id dst room full o.above_stdio o.entry
            (slot_at-set_self k'.pipes o.id (some full)
              (slot_at-lt k'.pipes o.id fresh_pipe o.empty))
            (omega (arith, pos, roomy)) (omega (arith, counted, roomy))
