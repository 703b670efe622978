-- ===== src/Syscall/Cases.antt =====
-- The dispatcher by its cases.
use ross_os.Base.{ℕ, ◌≡◌, List, some, Bool, true, ◌==◌, Bool-cases, inl, inr}
use ross_os.Vfs.{NodeOps}
use ross_os.Syscall.{
  Kernel, Ending, on_user, or_panic, fail, sys_log, sys_pipe, sys_write, sys_read, sys_exit,
  sys_brk, sys_mmap, sys_open, sys_close, syscall_dispatch,
}

module _ {World Node : Type 0} where
  -- What holds of the outcome of every system call with the given arguments.
  pub record Answers (P : Ending World Node → Type 0) (ops : NodeOps World Node) (font : ℕ → ℕ → ℕ)
      (decimal : ℕ → List ℕ) (owned : ℕ → Bool) (k : Kernel World Node) (id a b c : ℕ)
      : Type 0 where
    pub on_log : (id == 1) ≡ true → P (on_user owned a b (sys_log k a b))
    pub on_same : (n : ℕ) → P (Ending.returns n k)
    pub on_pipe : P (or_panic (some (sys_pipe k)))
    pub on_write : (id == 4) ≡ true → (n : ℕ) → P (on_user owned b n (sys_write font k a b c))
    pub on_read : (id == 5) ≡ true → (n : ℕ) → P (on_user owned b n (sys_read ops k a b c))
    pub on_exit : P (or_panic (some (sys_exit decimal k a)))
    pub on_brk : (id == 7) ≡ true → P (or_panic (sys_brk k a))
    pub on_mmap : (id == 8) ≡ true → P (or_panic (sys_mmap k a))
    pub on_open : (id == 9) ≡ true → (n : ℕ) → P (on_user owned a n (sys_open ops k a))
    pub on_close : P (or_panic (some (sys_close k a)))

  pub dispatch-Answers :
      (P : Ending World Node → Type 0) (ops : NodeOps World Node) (font : ℕ → ℕ → ℕ)
      (decimal : ℕ → List ℕ) (owned : ℕ → Bool) (k : Kernel World Node) (id a b c : ℕ)
      → Answers P ops font decimal owned k id a b c
      → P (syscall_dispatch ops font decimal owned k id a b c)
  unfolding syscall_dispatch
  dispatch-Answers P ops font decimal owned k id a b c h = elim (Bool-cases (id == 1)) [
    | inl e ↦ rw e (h.on_log e)
    | inr e1 ↦ elim (Bool-cases (id == 2)) [
      | inl e ↦ rw (e1, e) (h.on_same k.ticks)
      | inr e2 ↦ elim (Bool-cases (id == 3)) [
        | inl e ↦ rw (e1, e2, e) h.on_pipe
        | inr e3 ↦ elim (Bool-cases (id == 4)) [
          | inl e ↦ rw (e1, e2, e3, e) (h.on_write e _)
          | inr e4 ↦ elim (Bool-cases (id == 5)) [
            | inl e ↦ rw (e1, e2, e3, e4, e) (h.on_read e _)
            | inr e5 ↦ elim (Bool-cases (id == 6)) [
              | inl e ↦ rw (e1, e2, e3, e4, e5, e) h.on_exit
              | inr e6 ↦ elim (Bool-cases (id == 7)) [
                | inl e ↦ rw (e1, e2, e3, e4, e5, e6, e) (h.on_brk e)
                | inr e7 ↦ elim (Bool-cases (id == 8)) [
                  | inl e ↦ rw (e1, e2, e3, e4, e5, e6, e7, e) (h.on_mmap e)
                  | inr e8 ↦ elim (Bool-cases (id == 9)) [
                    | inl e ↦ rw (e1, e2, e3, e4, e5, e6, e7, e8, e) (h.on_open e _)
                    | inr e9 ↦ elim (Bool-cases (id == 10)) [
                      | inl e ↦ rw (e1, e2, e3, e4, e5, e6, e7, e8, e9, e) h.on_close
                      | inr e ↦ rw (e1, e2, e3, e4, e5, e6, e7, e8, e9, e) (h.on_same fail)
                    ]
                  ]
                ]
              ]
            ]
          ]
        ]
      ]
    ]
  ]
