-- ===== src/Syscall/Invariant/Io.antt =====
-- Pipes, reads and writes, and descriptors.
use ross_os.Base.{ℕ, zero, suc, ◌∙◌, List, Option, none, some, length, ◌==◌, if_both}
use ross_os.Base.Bytes.{load_bytes}
use ross_os.Kbuf.{Ring}
use ross_os.Kbuf
use ross_os.Kbuf.Window
use ross_os.Kbuf.Refine.{pop-IsValid}
use ross_os.Ipc.{PipeTable, max_pipes}
use ross_os.Ipc
use ross_os.Ipc.Table.{Creates, create-Creates, after, after-IsValid, creates, writes, reads}
use ross_os.Ipc.Table
use ross_os.Ipc.Retain.{Retains, Retains-refl, create-Retains, write-Retains, read-Retains}
use ross_os.Fd.{
  FdEntry, FdTable, stdin, stdout, stderr, pipe, vfs_file, fd_max, alloc, move_offset, get,
}
use ross_os.Fd
use ross_os.Fd.Laws.{length-move_offset, length-close}
use ross_os.Sched.{Task}
use ross_os.Vfs.{NodeOps}
use ross_os.Syscall.{
  Kernel, current_fd, moved, write_entry, wrote, read_entry, read_back, read_file, read_keys,
  take_keys, keys_from, sys_write, sys_read, sys_pipe, pipe_made, sys_open, opened, sys_close,
  close_in,
}
use ross_os.Syscall.Invariant.{
  TaskSound, IsSound, Keeps, same-Next, seen-Next, with_vm-Next, give_fd-Keeps,
}

keys_from-IsValid :
    (key : Option ℕ) (r : Ring) (more : List ℕ × Ring)
    → Window.IsValid r
    → Window.IsValid more.1
    → Window.IsValid (keys_from key r more).1
keys_from-IsValid none r more v w = v
keys_from-IsValid (some b) r (keys, r') v w = w

take_keys-IsValid : (len : ℕ) (r : Ring) → Window.IsValid r → Window.IsValid (take_keys len r).1
unfolding take_keys
take_keys-IsValid zero r v = v
take_keys-IsValid (suc len) r v =
    keys_from-IsValid (Kbuf.pop r).0 (Kbuf.pop r).1 (take_keys len (Kbuf.pop r).1) (pop-IsValid r v)
      (take_keys-IsValid len (Kbuf.pop r).1 (pop-IsValid r v))

moved-TaskSound :
    {Node : Type 0} (fd n : ℕ) (t : Option (Task Node)) → TaskSound t → TaskSound (moved fd n t)
unfolding moved
moved-TaskSound fd n none v = tt
moved-TaskSound fd n (some t) v = (length-move_offset t.fd_table fd n ∙ v.0, v.1)

module _ {World Node : Type 0} where
  -- The pipe table alone is replaced.
  with_pipes-IsSound :
      (k : Kernel World Node) (t : PipeTable)
      → IsSound k
      → Table.IsValid t
      → IsSound (record k { pipes = t })
  with_pipes-IsSound k t v p = record {
    pipes = p;
    keyboard = v.keyboard;
    pmm = v.pmm;
    waiting = v.waiting;
    current = v.current;
  }

  pipe_made-Keeps :
      (k : Kernel World Node) (r : Option ℕ × PipeTable)
      → IsSound k
      → Table.IsValid r.1
      → Retains k.pipes r.1
      → Keeps k (some (pipe_made k r))
  unfolding pipe_made
  pipe_made-Keeps k (none, t) v p s = same-Next k v
  pipe_made-Keeps k (some id, t) v p s =
      give_fd-Keeps k (record k { pipes = t }) (pipe id) (with_pipes-IsSound k t v p) s

  pub pipe-Keeps : (k : Kernel World Node) → IsSound k → Keeps k (some (sys_pipe k))
  unfolding sys_pipe after
  pipe-Keeps k v =
      pipe_made-Keeps k (Ipc.create k.pipes) v (after-IsValid k.pipes creates v.pipes)
        (create-Retains k.pipes v.pipes.bounded)

  write_entry-Keeps :
      (k : Kernel World Node) (bytes : List ℕ) (entry : Option (FdEntry Node))
      → IsSound k
      → Keeps k (some (write_entry k bytes entry))
  unfolding write_entry wrote after
  write_entry-Keeps k bytes (some (pipe id)) v = record {
    sound =
        with_pipes-IsSound k (Ipc.write k.pipes id bytes).1 v
          (after-IsValid k.pipes (writes id bytes) v.pipes);
    pipes_stay = write-Retains k.pipes id bytes;
  }
  write_entry-Keeps k bytes none v = same-Next k v
  write_entry-Keeps k bytes (some stdin) v = same-Next k v
  write_entry-Keeps k bytes (some stdout) v = same-Next k v
  write_entry-Keeps k bytes (some stderr) v = same-Next k v
  write_entry-Keeps k bytes (some (vfs_file node off)) v = same-Next k v

  pub write-Keeps :
      (font : ℕ → ℕ → ℕ) (k : Kernel World Node) (fd ptr len : ℕ)
      → IsSound k
      → Keeps k (some (sys_write font k fd ptr len))
  unfolding sys_write
  write-Keeps font k fd ptr len v =
      if_both (λ r. Keeps k (some r)) (len == 0) _ _ (same-Next k v)
        (if_both (λ r. Keeps k (some r)) (fd == 1) _ _ (seen-Next k _ _ v)
          (if_both (λ r. Keeps k (some r)) (fd == 2) _ _ (seen-Next k _ _ v)
            (write_entry-Keeps k (load_bytes k.user ptr len) (current_fd k fd) v)))

  read_back-Keeps :
      (k : Kernel World Node) (ptr : ℕ) (r : Option (List ℕ) × PipeTable)
      → IsSound k
      → Table.IsValid r.1
      → Retains k.pipes r.1
      → Keeps k (some (read_back k ptr r))
  unfolding read_back
  read_back-Keeps k ptr (none, t) v p s = record {
    sound = with_pipes-IsSound k t v p;
    pipes_stay = s;
  }
  read_back-Keeps k ptr (some bytes, t) v p s = record {
    sound = record {
      pipes = p;
      keyboard = v.keyboard;
      pmm = v.pmm;
      waiting = v.waiting;
      current = v.current;
    };
    pipes_stay = s;
  }

  read_file-Keeps :
      (k : Kernel World Node) (fd ptr : ℕ) (r : Option (List ℕ))
      → IsSound k
      → Keeps k (some (read_file k fd ptr r))
  unfolding read_file
  read_file-Keeps k fd ptr none v = same-Next k v
  read_file-Keeps k fd ptr (some bytes) v = record {
    sound = record {
      pipes = v.pipes;
      keyboard = v.keyboard;
      pmm = v.pmm;
      waiting = v.waiting;
      current = moved-TaskSound fd (length bytes) k.sched.current_task v.current;
    };
    pipes_stay = Retains-refl k.pipes;
  }

  read_entry-Keeps :
      (ops : NodeOps World Node) (k : Kernel World Node) (fd ptr len : ℕ)
      (entry : Option (FdEntry Node))
      → IsSound k
      → Keeps k (some (read_entry ops k fd ptr len entry))
  unfolding read_entry after
  read_entry-Keeps ops k fd ptr len (some (pipe id)) v =
      read_back-Keeps k ptr (Ipc.read k.pipes id len) v
        (after-IsValid k.pipes (reads id len) v.pipes) (read-Retains k.pipes id len)
  read_entry-Keeps ops k fd ptr len (some (vfs_file node off)) v =
      read_file-Keeps k fd ptr (ops.read k.world node off len) v
  read_entry-Keeps ops k fd ptr len none v = same-Next k v
  read_entry-Keeps ops k fd ptr len (some stdin) v = same-Next k v
  read_entry-Keeps ops k fd ptr len (some stdout) v = same-Next k v
  read_entry-Keeps ops k fd ptr len (some stderr) v = same-Next k v

  pub read-Keeps :
      (ops : NodeOps World Node) (k : Kernel World Node) (fd ptr len : ℕ)
      → IsSound k
      → Keeps k (some (sys_read ops k fd ptr len))
  unfolding sys_read read_keys
  read-Keeps ops k fd ptr len v =
      if_both (λ r. Keeps k (some r)) (len == 0) _ _ (same-Next k v)
        (if_both (λ r. Keeps k (some r)) (fd == 0) _ _
          (record {
            sound = record {
              pipes = v.pipes;
              keyboard = take_keys-IsValid len k.keyboard v.keyboard;
              pmm = v.pmm;
              waiting = v.waiting;
              current = v.current;
            };
            pipes_stay = Retains-refl k.pipes;
          })
          (read_entry-Keeps ops k fd ptr len (current_fd k fd) v))

  opened-Keeps : (k : Kernel World Node) (r : Option Node) → IsSound k → Keeps k (some (opened k r))
  unfolding opened
  opened-Keeps k none v = same-Next k v
  opened-Keeps k (some node) v = give_fd-Keeps k k (vfs_file node 0) v (Retains-refl k.pipes)

  pub open-Keeps :
      (ops : NodeOps World Node) (k : Kernel World Node) (path : ℕ)
      → IsSound k
      → Keeps k (some (sys_open ops k path))
  unfolding sys_open
  open-Keeps ops k path v = opened-Keeps k _ v

  close_in-Keeps :
      (k : Kernel World Node) (fd : ℕ) (current : Option (Task Node))
      → IsSound k
      → TaskSound current
      → Keeps k (some (close_in k fd current))
  unfolding close_in
  close_in-Keeps k fd none v c = same-Next k v
  close_in-Keeps k fd (some task) v c =
      with_vm-Next k (record task { fd_table = (Fd.close task.fd_table fd).1 }) k.vm v v.pmm
        (length-close task.fd_table fd ∙ c.0, c.1)

  pub close-Keeps : (k : Kernel World Node) (fd : ℕ) → IsSound k → Keeps k (some (sys_close k fd))
  unfolding sys_close
  close-Keeps k fd v = close_in-Keeps k fd k.sched.current_task v v.current
