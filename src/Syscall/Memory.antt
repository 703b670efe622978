-- ===== src/Syscall/Memory.antt =====
-- The break under `sys_brk`.
use ross_os.Base.{
  ℕ, zero, suc, ◌+◌, ◌-◌, ◌*◌, ◌/◌, ◌≤◌, ◌<◌, ◌≡◌, refl, sym, subst, Option, none, some, Bool, true,
  false, arith, ltb, leb, ◌||◌, ltb→lt, ◌==◌, Bool-cases, Option-cases, inl, inr, ◌⊎◌,
}
use ross_os.Pmm.Calls.{IsValid}
use ross_os.Paging.{Vm, add_u64, map_anon}
use ross_os.Paging.Sound.{Spends, map_anon-Spends, OutOfMemory, map_anon_fails}
use ross_os.Sched.{Task}
use ross_os.Syscall.{Kernel, extend, brk_to, brk_in, sys_brk}

-- Where the break may end: at the first page boundary from `addr` that is not below `new_brk`, or,
-- with no page left, earlier.
pub record Extended (addr new_brk : ℕ) (result : ℕ) (vm : Vm) : Type 0 where
  pub valid : IsValid vm.pmm
  pub pages : ℕ
  pub place : result ≡ addr + pages * 4096
  pub minimal : result < new_brk + 4096
  pub enough : (new_brk ≤ result) ⊎ (vm.pmm.free_count ≡ 0)

-- Unless the kernel panics.
abbrev pub Extends : (addr new_brk : ℕ) → Option (ℕ × Vm) → Type 0
Extends addr new_brk none = Unit {0}
Extends addr new_brk (some (result, vm)) = Extended addr new_brk result vm

one_more :
    (addr new_brk : ℕ) (r : Option (ℕ × Vm))
    → Extends (addr + 4096) new_brk r
    → Extends addr new_brk r
one_more addr new_brk none h = tt
one_more addr new_brk (some (result, vm)) h = record {
  valid = h.valid;
  pages = h.pages + 1;
  place = omega (arith, h.place);
  minimal = h.minimal;
  enough = h.enough;
}

add_u64-next : (a b c : ℕ) → add_u64 a b ≡ some c → c ≡ a + b
add_u64-next a b c h = ground arith

pub extend-Extends :
    (turns cr3 addr new_brk : ℕ) (vm : Vm)
    → IsValid vm.pmm
    → addr < new_brk + 4096
    → new_brk ≤ addr + turns * 4096
    → Extends addr new_brk (extend turns cr3 addr new_brk vm)
unfolding extend
extend-Extends zero cr3 addr new_brk vm v h e = record {
  valid = v;
  pages = 0;
  place = omega arith;
  minimal = h;
  enough = inl (omega (arith, e));
}
extend-Extends (suc turns) cr3 addr new_brk vm v h e = elim (Bool-cases (ltb addr new_brk)) [
  | inr b ↦ rw b (record {
    valid = v;
    pages = 0;
    place = omega arith;
    minimal = h;
    enough = inl (ground arith);
  })
  | inl b ↦ rw b (
      go (map_anon vm cr3 addr) (map_anon-Spends vm cr3 addr v) (map_anon_fails vm cr3 addr v)
        (λ vm' s.
          extend-Extends turns cr3 (addr + 4096) new_brk vm' s
            (omega (arith, ltb→lt addr new_brk b)) (omega (arith, e))))
]
  where
    go_on :
        (vm' : Vm)
        → Extends (addr + 4096) new_brk (extend turns cr3 (addr + 4096) new_brk vm')
        → Extends addr new_brk (elim (add_u64 addr 4096) [
          | none ↦ none
          | some next ↦ extend turns cr3 next new_brk vm'
        ])
    go_on vm' x = elim (Option-cases (add_u64 addr 4096)) [
      | inl none_left ↦ rw none_left tt
      | inr (next, found) ↦
          rw (found, add_u64-next addr 4096 next found) (one_more addr new_brk _ x)
    ]

    go :
        (r : Option (Bool × Vm))
        → Spends 4 vm.pmm.free_count r
        → OutOfMemory r
        → ((vm' : Vm)
            → IsValid vm'.pmm
            → Extends (addr + 4096) new_brk (extend turns cr3 (addr + 4096) new_brk vm'))
        → Extends addr new_brk (elim r [
          | none ↦ none
          | some (false, vm') ↦ some (addr, vm')
          | some (true, vm') ↦ elim (add_u64 addr 4096) [
            | none ↦ none
            | some next ↦ extend turns cr3 next new_brk vm'
          ]
        ])
    go none s f rec = tt
    go (some (false, vm')) s f rec = record {
      valid = s.0;
      pages = 0;
      place = omega arith;
      minimal = h;
      enough = inr f;
    }
    go (some (true, vm')) s f rec = go_on vm' (rec vm' s.0)

module _ {World Node : Type 0} where
  -- What `sys_brk` may answer to a process.
  pub record Broke (k : Kernel World Node) (task : Task Node) (new_brk answer : ℕ)
      (k' : Kernel World Node) : Type 0 where
    pub moved : k'.sched.current_task ≡ some (record task { heap_end = answer })
    pub kept : task.heap_end ≤ answer
    pub pages : ℕ
    pub place : answer ≡ task.heap_end + pages * 4096
    pub query : new_brk ≤ task.heap_end → (answer ≡ task.heap_end) × (k'.vm ≡ k.vm)
    pub enough : (new_brk ≤ answer) ⊎ (k'.vm.pmm.free_count ≡ 0)
    pub minimal : task.heap_end < new_brk → answer < new_brk + 4096

  abbrev pub Breaks : Kernel World Node → Task Node → ℕ → Option (ℕ × Kernel World Node) → Type 0
  Breaks k task new_brk none = task.heap_end < new_brk
  Breaks k task new_brk (some (answer, k')) = Broke k task new_brk answer k'

  brk_to-Breaks :
      (k : Kernel World Node) (task : Task Node) (new_brk : ℕ) (r : Option (ℕ × Vm))
      → task.heap_end < new_brk
      → Extends task.heap_end new_brk r
      → Breaks k task new_brk (brk_to k task r)
  unfolding brk_to
  brk_to-Breaks k task new_brk none h e = h
  brk_to-Breaks k task new_brk (some (addr, vm)) h e = record {
    moved = refl;
    kept = omega (arith, e.place);
    pages = e.pages;
    place = e.place;
    query = λ q. absurd (omega (arith, q, h));
    enough = e.enough;
    minimal = λ m. e.minimal;
  }

  unmoved-Breaks :
      (k : Kernel World Node) (task : Task Node) (new_brk : ℕ)
      → k.sched.current_task ≡ some task
      → new_brk ≤ task.heap_end
      → Broke k task new_brk task.heap_end k
  unmoved-Breaks k task new_brk c h = record {
    moved = c;
    kept = omega arith;
    pages = 0;
    place = omega arith;
    query = λ q. (refl, refl);
    enough = inl h;
    minimal = λ m. absurd (omega (arith, m, h));
  }

  brk_in-Breaks :
      (k : Kernel World Node) (task : Task Node) (new_brk : ℕ)
      → IsValid k.vm.pmm
      → k.sched.current_task ≡ some task
      → Breaks k task new_brk (brk_in k new_brk (some task))
  unfolding brk_in
  brk_in-Breaks k task new_brk v c =
      elim (Bool-cases ((new_brk == 0) || leb new_brk task.heap_end)) [
        | inl b ↦ rw b (unmoved-Breaks k task new_brk c (ground arith))
        | inr b ↦ rw b (
            brk_to-Breaks k task new_brk _ (ground arith) (
              extend-Extends ((new_brk - task.heap_end + 4095) / 4096) task.cr3 task.heap_end
                new_brk k.vm v (ground arith) (ground arith)))
      ]

  -- From a valid page allocator, `sys_brk` of a process never lowers the break and moves it by whole
  -- pages only. A request at or below the break, 0 among them, answers the break and maps nothing. A
  -- higher one that does not panic ends at the first page boundary, counted from the old break, that is
  -- not below it, or short of it when no page is free. The answer is the break that the process then
  -- has. Only a higher one can panic.
  pub sys_brk-Breaks :
      (k : Kernel World Node) (task : Task Node) (new_brk : ℕ)
      → IsValid k.vm.pmm
      → k.sched.current_task ≡ some task
      → Breaks k task new_brk (sys_brk k new_brk)
  unfolding sys_brk
  sys_brk-Breaks k task new_brk v c =
      subst (λ t. Breaks k task new_brk (brk_in k new_brk t)) (sym c)
        (brk_in-Breaks k task new_brk v c)
