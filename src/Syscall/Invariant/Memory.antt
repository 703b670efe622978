-- ===== src/Syscall/Invariant/Memory.antt =====
-- The calls that map memory.
use ross_os.Base.{
  ℕ, ◌+◌, ◌-◌, ◌*◌, ◌/◌, ◌^◌, Option, none, some, Bool, true, false, arith, leb, ◌==◌, ◌||◌,
  Bool-cases, Option-cases, ◌<◌, sym, subst, inl, inr,
}
use ross_os.Ipc.Retain.{Retains-refl}
use ross_os.Sched.{Task}
use ross_os.Paging.{Vm, add_u64}
use ross_os.Paging.Sound.{Spends, alloc_anon-Spends}
use ross_os.Syscall.{Kernel, set_current, sys_brk, brk_in, brk_to, sys_mmap, mmap_in, mmap_to}
use ross_os.Syscall.Memory.{Extends, extend-Extends}
use ross_os.Syscall.Invariant.{TaskSound, IsSound, Next, same-Next, with_vm-Next}

module _ {World Node : Type 0} where
  -- A panic is left open only for a request of some memory.
  abbrev pub Grants : Kernel World Node → ℕ → Option (ℕ × Kernel World Node) → Type 0
  Grants k arg none = 0 < arg
  Grants k arg (some (n, k')) = Next k k'

  brk_to-Grants :
      (k : Kernel World Node) (task : Task Node) (new_brk : ℕ) (r : Option (ℕ × Vm))
      → IsSound k
      → TaskSound (some task)
      → task.heap_end < new_brk
      → Extends task.heap_end new_brk r
      → Grants k new_brk (brk_to k task r)
  unfolding brk_to
  brk_to-Grants k task new_brk none v c h e = omega (arith, h)
  brk_to-Grants k task new_brk (some (addr, vm)) v c h e =
      with_vm-Next k (record task { heap_end = addr }) vm v e.valid c

  brk_in-Grants :
      (k : Kernel World Node) (new_brk : ℕ) (current : Option (Task Node))
      → IsSound k
      → TaskSound current
      → Grants k new_brk (brk_in k new_brk current)
  unfolding brk_in
  brk_in-Grants k new_brk none v c = same-Next k v
  brk_in-Grants k new_brk (some task) v c =
      elim (Bool-cases ((new_brk == 0) || leb new_brk task.heap_end)) [
        | inl b ↦ rw b (same-Next k v)
        | inr b ↦ rw b (
            brk_to-Grants k task new_brk _ v c (ground arith) (
              extend-Extends ((new_brk - task.heap_end + 4095) / 4096) task.cr3 task.heap_end
                new_brk k.vm v.pmm (ground arith) (ground arith)))
      ]

  pub brk-Grants : (k : Kernel World Node) (addr : ℕ) → IsSound k → Grants k addr (sys_brk k addr)
  unfolding sys_brk
  brk-Grants k addr v = brk_in-Grants k addr k.sched.current_task v v.current

  mmap_to-Grants :
      (k : Kernel World Node) (task : Task Node) (len : ℕ) (r : Option (Bool × Vm))
      → IsSound k
      → TaskSound (some task)
      → 0 < len
      → Spends (4 * ((len + 4095) / 4096)) k.vm.pmm.free_count r
      → Grants k len (mmap_to k task ((len + 4095) / 4096) r)
  unfolding mmap_to
  mmap_to-Grants k task len none v c h s = h
  mmap_to-Grants k task len (some (true, vm)) v c h s = elim (Option-cases end) [
    | inl e ↦ subst (λ o. Grants k len (moved o)) (sym e) h
    | inr (heap_end, e) ↦
        subst (λ o. Grants k len (moved o)) (sym e)
          (with_vm-Next k (record task { heap_end = heap_end }) vm v s.0 c)
  ]
    where
      end : Option ℕ
      end = add_u64 task.heap_end ((len + 4095) / 4096 * 4096)

      moved : Option ℕ → Option (ℕ × Kernel World Node)
      moved o = elim o [
        | none ↦ none
        | some heap_end ↦ some (
          task.heap_end,
          record (set_current k (record task { heap_end = heap_end })) { vm = vm },
        )
      ]
  mmap_to-Grants k task len (some (false, vm)) v c h s = record {
    sound = record {
      pipes = v.pipes;
      keyboard = v.keyboard;
      pmm = s.0;
      waiting = v.waiting;
      current = v.current;
    };
    pipes_stay = Retains-refl k.pipes;
  }

  mmap_in-Grants :
      (k : Kernel World Node) (len : ℕ) (current : Option (Task Node))
      → IsSound k
      → TaskSound current
      → 0 < len
      → Grants k len (mmap_in k ((len + 4095) / 4096) current)
  unfolding mmap_in
  mmap_in-Grants k len none v c h = same-Next k v
  mmap_in-Grants k len (some task) v c h =
      mmap_to-Grants k task len _ v c h
        (alloc_anon-Spends task.cr3 task.heap_end 0 ((len + 4095) / 4096) k.vm v.pmm)

  pub mmap-Grants : (k : Kernel World Node) (len : ℕ) → IsSound k → Grants k len (sys_mmap k len)
  unfolding sys_mmap
  mmap-Grants k len v = elim (Bool-cases (len == 0)) [
    | inl e ↦ rw e (same-Next k v)
    | inr e ↦ elim (Bool-cases (leb (2 ^ 64) (len + 4095))) [
      | inl e' ↦ rw (e, e') (ground arith)
      | inr e' ↦ rw (e, e') (mmap_in-Grants k len k.sched.current_task v v.current (ground arith))
    ]
  ]
