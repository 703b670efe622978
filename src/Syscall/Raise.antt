-- ===== src/Syscall/Raise.antt =====
-- `sys_brk` where it has the pages: the break is raised by a page.
use ross_os.Base.{
  ℕ, ◌+◌, ◌-◌, ◌/◌, ◌≤◌, ◌<◌, ◌≡◌, refl, sym, subst, Option, some, true, false, arith, leb, ◌||◌,
  lt→ltb, ap, ◌∙◌, ◌^◌, [], if◌then◌else◌, ◌==◌,
}
use ross_os.Pmm.Bitmap.{is_used}
use ross_os.Pmm.Calls.{IsValid}
use ross_os.Paging.{Vm, map_anon, lookup_page}
use ross_os.Paging.Tables.{page_of}
use ross_os.Paging.Walk.{Route}
use ross_os.Paging.Mapped.{way}
use ross_os.Paging.Anon.{map_anon-Backed}
use ross_os.Sched.{Task}
use ross_os.Syscall.{Kernel, set_current, extend, brk_to, brk_in, sys_brk}

-- One turn that finds a page.
extend_one :
    (vm vm' : Vm) (cr3 addr new_brk : ℕ)
    → addr < new_brk
    → new_brk ≤ addr + 4096
    → addr + 4096 < 2 ^ 64
    → map_anon vm cr3 addr ≡ some (true, vm')
    → extend 1 cr3 addr new_brk vm ≡ some (addr + 4096, vm')
unfolding extend
extend_one vm vm' cr3 addr new_brk above near low mapped =
    rw (lt→ltb addr new_brk above, mapped, lt→ltb (addr + 4096) (2 ^ 64) low) refl

module _ {World Node : Type 0} where
  -- What `sys_brk` has done when it has raised the break by one page.
  pub record Raised (k : Kernel World Node) (task : Task Node) (r : Option (ℕ × Kernel World Node))
      : Type 0 where
    pub after : Kernel World Node
    pub phys : ℕ
    pub answered : r ≡ some (task.heap_end + 4096, after)
    pub moved : after.sched.current_task ≡ some (record task { heap_end = task.heap_end + 4096 })
    pub was_free : is_used k.vm.pmm.bitmap (page_of phys) ≡ false
    pub found : lookup_page after.vm.memory task.cr3 task.heap_end ≡ some (some phys)
    pub valid : IsValid after.vm.pmm

  raise :
      (k : Kernel World Node) (task : Task Node)
      → task.heap_end + 4096 < 2 ^ 64
      → (r : Option (ℕ × Vm)) → (after : Vm) (phys : ℕ) → r ≡ some (task.heap_end + 4096, after)
      → is_used k.vm.pmm.bitmap (page_of phys) ≡ false
      → lookup_page after.memory task.cr3 task.heap_end ≡ some (some phys)
      → IsValid after.pmm
      → Raised k task (brk_to k task r)
  unfolding brk_to
  raise k task low r after phys e free found valid =
      subst (λ x. Raised k task (brk_to k task x)) (sym e)
        (record {
          after = record (set_current k (record task { heap_end = task.heap_end + 4096 })) {
            vm = after;
          };
          phys = phys;
          answered = refl;
          moved = refl;
          was_free = free;
          found = found;
          valid = valid;
        })

  -- From a valid page allocator with at least four free pages, where the page at the break is reached
  -- along a route of page tables that are allocated, each another page, and not entered as huge
  -- pages, and does not end at the top of the address space: a request for a break at most one page
  -- higher does not panic and answers the end of that page, which is the break that the process then
  -- has; the address of the old break is backed by a page that was free.
  pub sys_brk-Raised :
      (k : Kernel World Node) (task : Task Node) (new_brk : ℕ)
      → IsValid k.vm.pmm
      → 4 ≤ k.vm.pmm.free_count
      → k.sched.current_task ≡ some task
      → Route k.vm [] task.cr3 (way task.heap_end)
      → task.heap_end < new_brk
      → new_brk ≤ task.heap_end + 4096
      → task.heap_end + 4096 < 2 ^ 64
      → Raised k task (sys_brk k new_brk)
  unfolding sys_brk brk_in
  sys_brk-Raised k task new_brk v enough c route above near low =
      let b = map_anon-Backed k.vm task.cr3 task.heap_end v enough route in
      let turns : (new_brk - task.heap_end + 4095) / 4096 ≡ 1 = omega (arith, above, near) in
      let higher : ((new_brk == 0) || leb new_brk task.heap_end) ≡ false = ground (arith, above) in
      let extended : extend ((new_brk - task.heap_end + 4095) / 4096) task.cr3 task.heap_end new_brk
            k.vm
          ≡ some (task.heap_end + 4096, b.after) =
        ap (λ n. extend n task.cr3 task.heap_end new_brk k.vm) turns
        ∙ extend_one k.vm b.after task.cr3 task.heap_end new_brk above near low b.mapped in
      let past : (if (new_brk == 0) || leb new_brk task.heap_end
            then some (task.heap_end, k)
            else brk_to k task (
                extend ((new_brk - task.heap_end + 4095) / 4096) task.cr3 task.heap_end new_brk
                  k.vm))
          ≡ brk_to k task (
              extend ((new_brk - task.heap_end + 4095) / 4096) task.cr3 task.heap_end new_brk
                k.vm) =
        ap
          (λ x.
            if x
            then some (task.heap_end, k)
            else brk_to k task (
                extend ((new_brk - task.heap_end + 4095) / 4096) task.cr3 task.heap_end new_brk
                  k.vm))
          higher in
      subst (λ t. Raised k task (brk_in k new_brk t)) (sym c)
        (subst (Raised k task) (sym past) (
          raise k task low
            (extend ((new_brk - task.heap_end + 4095) / 4096) task.cr3 task.heap_end new_brk k.vm)
            b.after b.phys extended b.was_free b.found b.valid))
