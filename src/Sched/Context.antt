-- ===== src/Sched/Context.antt =====
-- The first context of a task, as the switch code restores it.
use ross_os.Base.{
  ℕ, ◌+◌, ◌*◌, ◌/◌, ◌%◌, ◌^◌, ◌≡◌, ◌≢◌, refl, List, ◌∷◌, Option, none, some, Bool, true, false,
  arith, length, if◌then◌else◌, ==_ne,
}
use ross_os.Sched.{Task, new_task}

-- The registers that a switch restores: those that `timer_handler_stub` pops, in its order, and those
-- that its `iretq` takes.
pub record FullContext : Type 0 where
  pub r15 : ℕ
  pub r14 : ℕ
  pub r13 : ℕ
  pub r12 : ℕ
  pub r11 : ℕ
  pub r10 : ℕ
  pub r9 : ℕ
  pub r8 : ℕ
  pub rdi : ℕ
  pub rsi : ℕ
  pub rbp : ℕ
  pub rbx : ℕ
  pub rdx : ℕ
  pub rcx : ℕ
  pub rax : ℕ
  pub rip : ℕ
  pub cs : ℕ
  pub rflags : ℕ
  pub rsp : ℕ
  pub ss : ℕ

-- What the stub's pops and its `iretq` make of the words at `rsp`, lowest address first.
unfoldable pub context_at : List ℕ → Option FullContext
context_at (a ∷ b ∷ c ∷ d ∷ e ∷ f ∷ g ∷ h ∷ i ∷ j ∷ k ∷ l ∷ m ∷ n ∷ o ∷ p ∷ q ∷ r ∷ s ∷ t ∷ _) =
    some (record {
      r15 = a;
      r14 = b;
      r13 = c;
      r12 = d;
      r11 = e;
      r10 = f;
      r9 = g;
      r8 = h;
      rdi = i;
      rsi = j;
      rbp = k;
      rbx = l;
      rdx = m;
      rcx = n;
      rax = o;
      rip = p;
      cs = q;
      rflags = r;
      rsp = s;
      ss = t;
    })
context_at _ = none

pub record Starts (Node : Type 0) (t : Task Node) (entry_point stack_top : ℕ) (is_user : Bool)
    : Type 0 where
  pub context : FullContext
  pub restored : context_at t.stack ≡ some context
  pub at_entry : context.rip ≡ entry_point
  pub on_stack : context.rsp ≡ stack_top
  pub interrupts_on : context.rflags / 2 ^ 9 % 2 ≡ 1
  pub code_ring : context.cs % 4 ≡ (if is_user then 3 else 0)
  pub stack_ring : context.ss % 4 ≡ (if is_user then 3 else 0)
  pub fits : t.rsp + 8 * length t.stack ≡ t.kernel_stack_top

abbrev first_context : (rip cs rsp ss : ℕ) → FullContext
first_context rip cs rsp ss = record {
  r15 = 0;
  r14 = 0;
  r13 = 0;
  r12 = 0;
  rbp = 0;
  rbx = 0;
  r11 = 0;
  r10 = 0;
  r9 = 0;
  r8 = 0;
  rsi = 0;
  rdi = 0;
  rdx = 0;
  rcx = 0;
  rax = 0;
  rip = rip;
  cs = cs;
  rflags = 0x202;
  rsp = rsp;
  ss = ss;
}

-- A new task that is given a stack starts at its entry point on that stack with interrupts enabled,
-- in ring 3 if it is a user task and in ring 0 if not, and its context ends at the top of its
-- kernel stack.
pub new_task-Starts :
    (Node : Type 0) (id base entry_point stack_top cr3 : ℕ) (is_user : Bool)
    → stack_top ≢ 0
    → Starts Node (new_task id base entry_point stack_top cr3 is_user) entry_point stack_top is_user
unfolding new_task context_at
new_task-Starts Node id base entry_point stack_top cr3 true h = record {
  context = first_context entry_point 0x23 stack_top 0x1B;
  restored = rw (==_ne stack_top 0 h);
  at_entry = refl;
  on_stack = refl;
  interrupts_on = refl;
  code_ring = refl;
  stack_ring = refl;
  fits = omega arith;
}
new_task-Starts Node id base entry_point stack_top cr3 false h = record {
  context = first_context entry_point 0x08 stack_top 0x10;
  restored = rw (==_ne stack_top 0 h);
  at_entry = refl;
  on_stack = refl;
  interrupts_on = refl;
  code_ring = refl;
  stack_ring = refl;
  fits = omega arith;
}
