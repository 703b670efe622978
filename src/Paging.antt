-- ===== src/Paging.antt =====
-- ross-kernel/src/paging.rs and mmap.rs: the walk of the 4-level page tables of an address space.
-- Memory is a function from the physical address of a 64-bit entry to its value; a table is reached
-- through `phys_to_virt`, which panics where the address does not fit.
pub mod Tables
pub mod Walk
pub mod Mapped
pub mod Sound
pub mod Anon
use Prim.Native.Nat.{bit_or}
use ross_os.Base.{
  ℕ, zero, suc, ◌+◌, ◌-◌, ◌*◌, ◌/◌, ◌%◌, ◌^◌, List, [], ◌∷◌, Option, none, some, Bool, true, false,
  ◌||◌, ltb, ◌==◌, if◌then◌else◌,
}
use ross_os.Base.Bits.{has_bit}
use ross_os.Pmm.{PmmState, alloc_page}

abbrev pub Memory : Type 0
Memory = ℕ → ℕ

-- What the page tables and their allocator share.
pub record Vm : Type 0 where
  pub pmm : PmmState
  pub memory : Memory

abbrev pub present : ℕ
present = 1

abbrev pub writable : ℕ
writable = 2

abbrev pub user : ℕ
user = 4

-- `& HUGE_PAGE != 0`, bit 7.
abbrev pub is_huge : ℕ → Bool
is_huge entry = has_bit entry 7

-- `& !0xFFF`.
abbrev pub frame : ℕ → ℕ
frame entry = entry / 4096 * 4096

abbrev pub pml4_idx : ℕ → ℕ
pml4_idx vaddr = vaddr / 2 ^ 39 % 512

abbrev pub pdpt_idx : ℕ → ℕ
pdpt_idx vaddr = vaddr / 2 ^ 30 % 512

abbrev pub pd_idx : ℕ → ℕ
pd_idx vaddr = vaddr / 2 ^ 21 % 512

abbrev pub pt_idx : ℕ → ℕ
pt_idx vaddr = vaddr / 2 ^ 12 % 512

-- The address of `entries[idx]` of the table at `table`.
abbrev pub entry_at : ℕ → ℕ → ℕ
entry_at table idx = table + idx * 8

unfoldable pub write : Memory → ℕ → ℕ → Memory
write m addr v = λ a. if a == addr then v else m a

-- `entries.fill(0)`, and `write_bytes(ptr, 0, 4096)`.
unfoldable pub zero_page : Memory → ℕ → Memory
zero_page m phys = λ a. if a / 4096 == phys / 4096 then 0 else m a

-- A sum of two u64, or the panic where it does not fit: the kernel is built with overflow checks.
abbrev pub add_u64 : ℕ → ℕ → Option ℕ
add_u64 a b = if ltb (a + b) (2 ^ 64) then some (a + b) else none

abbrev pub kernel_vma_base : ℕ
kernel_vma_base = 0xFFFF_FFFF_8000_0000

-- The sum does not fit in 64 bits for an address of 2 GB or more.
abbrev pub phys_to_virt : ℕ → Option ℕ
phys_to_virt phys = add_u64 phys kernel_vma_base

-- What the code does with the table at `phys`; it panics where the table cannot be reached. What lies at
-- the alias is what lies at the physical address, so that the virtual address itself is not kept.
abbrev pub through {ℓ} : {A : Type ℓ} → ℕ → Option A → Option A
through phys r = elim (phys_to_virt phys) [ none ↦ none | some virt ↦ r ]

-- The page that backs `vaddr`, if it is mapped at the 4 KB level; the outer `none` is a panic.
unfoldable pub lookup_page : Memory → ℕ → ℕ → Option (Option ℕ)
lookup_page m pml4 vaddr =
    let e4 = m (entry_at pml4 (pml4_idx vaddr)) in
    let e3 = m (entry_at (frame e4) (pdpt_idx vaddr)) in
    let e2 = m (entry_at (frame e3) (pd_idx vaddr)) in
    let e1 = m (entry_at (frame e2) (pt_idx vaddr)) in
    through pml4 (
      if e4 == 0
      then some none
      else through (frame e4) (
          if e3 == 0
          then some none
          else through (frame e3) (
              if (e2 == 0) || is_huge e2
              then some none
              else through (frame e2) (if e1 == 0 then some none else some (some (frame e1))))))

-- A fresh table is zeroed, through its alias, and entered at `entries[idx]` of `table`. `none` is the
-- panic of `expect` or of `phys_to_virt`.
pub enter_table : Vm → ℕ → ℕ → Option ℕ × PmmState → Option (ℕ × Vm)
enter_table vm table idx (none, pmm) = none
enter_table vm table idx (some phys, pmm) =
    let entry = bit_or (bit_or (bit_or phys present) writable) user in
    through phys (
      through (frame entry) (
        some (
          frame entry,
          record {
            pmm = pmm;
            memory = write (zero_page vm.memory phys) (entry_at table idx) entry;
          },
        )))

-- "Get or create": the next table on the walk, reached through its alias.
unfoldable pub next_table : Vm → ℕ → ℕ → Option (ℕ × Vm)
unfolding enter_table
next_table vm table idx =
    if vm.memory (entry_at table idx) == 0
    then enter_table vm table idx (alloc_page vm.pmm)
    else through (frame (vm.memory (entry_at table idx)))
        (some (frame (vm.memory (entry_at table idx)), vm))

-- The walk through one table for each index.
unfoldable pub descend : List ℕ → Option (ℕ × Vm) → Option (ℕ × Vm)
descend idxs none = none
descend [] (some (table, vm)) = some (table, vm)
descend (idx ∷ idxs) (some (table, vm)) = descend idxs (next_table vm table idx)

set_entry : ℕ → ℕ → Option (ℕ × Vm) → Option Vm
set_entry idx v none = none
set_entry idx v (some (table, vm)) =
    some (record vm { memory = write vm.memory (entry_at table idx) v })

unfoldable pub map_user_page : Vm → (pml4 vaddr paddr flags : ℕ) → Option Vm
unfolding set_entry
map_user_page vm pml4 vaddr paddr flags =
    set_entry (pt_idx vaddr) (bit_or (bit_or (bit_or paddr flags) present) user) (
      through pml4
        (descend (pml4_idx vaddr ∷ pdpt_idx vaddr ∷ pd_idx vaddr ∷ []) (some (pml4, vm))))

-- `mmap::alloc_anon`: the result and the memory after it. Pages mapped before memory runs out stay
-- mapped. `none` is a panic.
pub alloc_page_at : Vm → (cr3 vaddr : ℕ) → Option ℕ × PmmState → Option (Bool × Vm)
alloc_page_at vm cr3 vaddr (none, pmm) = some (false, record vm { pmm = pmm })
alloc_page_at vm cr3 vaddr (some phys, pmm) =
    through phys
      (elim (map_user_page (record { pmm = pmm; memory = zero_page vm.memory phys }) cr3 vaddr phys
        7) [ none ↦ none | some vm' ↦ some (true, vm') ])

-- A fresh page, zeroed, at `vaddr`.
unfoldable pub map_anon : Vm → (cr3 vaddr : ℕ) → Option (Bool × Vm)
unfolding alloc_page_at
map_anon vm cr3 vaddr = alloc_page_at vm cr3 vaddr (alloc_page vm.pmm)

-- The loop over the remaining `pages`, from page `i` behind `base` on.
unfoldable pub alloc_anon : (cr3 base i pages : ℕ) → Vm → Option (Bool × Vm)
alloc_anon cr3 base i zero vm = some (true, vm)
alloc_anon cr3 base i (suc pages) vm = elim (add_u64 base (i * 4096)) [
  | none ↦ none
  | some vaddr ↦ elim (map_anon vm cr3 vaddr) [
    | none ↦ none
    | some (false, vm') ↦ some (false, vm')
    | some (true, vm') ↦ alloc_anon cr3 base (i + 1) pages vm'
  ]
]
