-- ===== src/Paging/Sound.antt =====
-- The page allocator stays valid while pages are mapped, and how many pages that takes.
use ross_os.Base.{
  ℕ, zero, suc, ◌+◌, ◌*◌, ◌≤◌, ◌≡◌, refl, ap, sym, ◌∙◌, subst, List, [], ◌∷◌, Option, none, some,
  Bool, true, false, arith, length, ◌==◌, if_both, Option-cases, inl, inr,
}
use ross_os.Pmm.{PmmState, alloc_page}
use ross_os.Pmm.Calls.{IsValid, Allocates, alloc_page-Allocates}
use ross_os.Paging.{
  Vm, entry_at, next_table, enter_table, descend, set_entry, map_user_page, alloc_page_at, map_anon,
  alloc_anon, through, phys_to_virt, add_u64,
}

-- Of `free` pages at most `n` are taken, and a valid allocator is left, unless the kernel panics.
abbrev pub Spends {ℓ} : {A : Type ℓ} → (n free : ℕ) → Option (A × Vm) → Type 0
Spends n free none = Unit {0}
Spends n free (some (a, vm)) = IsValid vm.pmm × (free ≤ vm.pmm.free_count + n)

abbrev SpendsVm : (n free : ℕ) → Option Vm → Type 0
SpendsVm n free none = Unit {0}
SpendsVm n free (some vm) = IsValid vm.pmm × (free ≤ vm.pmm.free_count + n)

through_both :
    {A : Type 0} (P : Option A → Type 0)
    → P none
    → (phys : ℕ) (r : Option A) → P r
    → P (through phys r)
through_both P p phys r q = elim (Option-cases (phys_to_virt phys)) [
  | inl e ↦ rw (through, e) p
  | inr (v, e) ↦ rw (through, e) q
]

through_some :
    (free phys table : ℕ) (vm : Vm) (r : Option (ℕ × Vm))
    → r ≡ some (table, vm)
    → IsValid vm.pmm × (free ≤ vm.pmm.free_count + 1)
    → Spends 1 free (through phys r)
through_some free phys table vm r e s =
    through_both (Spends 1 free) tt phys r (subst (Spends 1 free) (sym e) s)

enter_table-Spends :
    (vm : Vm) (table idx : ℕ) (r : Option ℕ × PmmState)
    → Allocates vm.pmm r
    → Spends 1 vm.pmm.free_count (enter_table vm table idx r)
unfolding enter_table
enter_table-Spends vm table idx (none, pmm) a = tt
enter_table-Spends vm table idx (some phys, pmm) a =
    through_both (Spends 1 vm.pmm.free_count) tt phys _
      (through_some vm.pmm.free_count _ _ _ _ refl (a.valid, omega (arith, a.fewer)))

next_table-Spends :
    (vm : Vm) (table idx : ℕ)
    → IsValid vm.pmm
    → Spends 1 vm.pmm.free_count (next_table vm table idx)
unfolding next_table
next_table-Spends vm table idx v =
    if_both (Spends {A = ℕ} 1 vm.pmm.free_count) (vm.memory (entry_at table idx) == 0) _ _
      (enter_table-Spends vm table idx (alloc_page vm.pmm) (alloc_page-Allocates vm.pmm v))
      (through_some vm.pmm.free_count _ _ _ _ refl (v, omega arith))

spend_more :
    (m free left : ℕ) (r : Option (ℕ × Vm))
    → free ≤ left + 1
    → Spends m left r
    → Spends (suc m) free r
spend_more m free left none h s = tt
spend_more m free left (some (table, vm)) h s = (s.0, omega (arith, h, s.1))

panicked : (idxs : List ℕ) (n free : ℕ) → Spends n free (descend idxs none)
unfolding descend
panicked [] n free = tt
panicked (i ∷ idxs) n free = tt

descend-Spends :
    (idxs : List ℕ) (table : ℕ) (vm : Vm)
    → IsValid vm.pmm
    → Spends (length idxs) vm.pmm.free_count (descend idxs (some (table, vm)))
unfolding descend
descend-Spends [] table vm v = (v, omega arith)
descend-Spends (i ∷ idxs) table vm v =
    go (next_table vm table i) (next_table-Spends vm table i v)
      (λ table' vm' v'. descend-Spends idxs table' vm' v')
  where
    go :
        (r : Option (ℕ × Vm))
        → Spends 1 vm.pmm.free_count r
        → ((table' : ℕ) (vm' : Vm)
            → IsValid vm'.pmm
            → Spends (length idxs) vm'.pmm.free_count (descend idxs (some (table', vm'))))
        → Spends (suc (length idxs)) vm.pmm.free_count (descend idxs r)
    go none s rec = panicked idxs (suc (length idxs)) vm.pmm.free_count
    go (some (table', vm')) s rec =
        spend_more (length idxs) vm.pmm.free_count vm'.pmm.free_count _ s.1 (rec table' vm' s.0)

set_entry-Spends :
    (n free idx v : ℕ) (r : Option (ℕ × Vm)) → Spends n free r → SpendsVm n free (set_entry idx v r)
unfolding set_entry
set_entry-Spends n free idx v none s = s
set_entry-Spends n free idx v (some (table, vm)) s = s

map_user_page-Spends :
    (vm : Vm) (pml4 vaddr paddr flags : ℕ)
    → IsValid vm.pmm
    → SpendsVm 3 vm.pmm.free_count (map_user_page vm pml4 vaddr paddr flags)
unfolding map_user_page
map_user_page-Spends vm pml4 vaddr paddr flags v =
    set_entry-Spends 3 vm.pmm.free_count _ _ _
      (through_both (Spends 3 vm.pmm.free_count) tt pml4 _ (descend-Spends _ pml4 vm v))

-- A page has been taken and mapped.
mapped-Spends :
    (free left : ℕ) (r : Option Vm)
    → free ≡ left + 1
    → SpendsVm 3 left r
    → Spends 4 free (elim r [ none ↦ none | some vm' ↦ some (true, vm') ])
mapped-Spends free left none e s = tt
mapped-Spends free left (some vm) e s = (s.0, omega (arith, e, s.1))

alloc_page_at-Spends :
    (vm : Vm) (cr3 vaddr : ℕ) (r : Option ℕ × PmmState)
    → IsValid vm.pmm
    → Allocates vm.pmm r
    → Spends 4 vm.pmm.free_count (alloc_page_at vm cr3 vaddr r)
unfolding alloc_page_at
alloc_page_at-Spends vm cr3 vaddr (none, pmm) v a = (subst IsValid (sym a.0) v, omega (arith, a.1))
alloc_page_at-Spends vm cr3 vaddr (some phys, pmm) v a =
    through_both (Spends 4 vm.pmm.free_count) tt phys _ (
      mapped-Spends vm.pmm.free_count pmm.free_count _ (sym a.fewer)
        (map_user_page-Spends _ cr3 vaddr phys 7 a.valid))

pub map_anon-Spends :
    (vm : Vm) (cr3 vaddr : ℕ) → IsValid vm.pmm → Spends 4 vm.pmm.free_count (map_anon vm cr3 vaddr)
unfolding map_anon
map_anon-Spends vm cr3 vaddr v =
    alloc_page_at-Spends vm cr3 vaddr (alloc_page vm.pmm) v (alloc_page-Allocates vm.pmm v)

-- A failure means that no page is free.
abbrev pub OutOfMemory : Option (Bool × Vm) → Type 0
OutOfMemory (some (false, vm)) = vm.pmm.free_count ≡ 0
OutOfMemory _ = Unit {0}

mapped_ok : (r : Option Vm) → OutOfMemory (elim r [ none ↦ none | some vm' ↦ some (true, vm') ])
mapped_ok none = tt
mapped_ok (some vm) = tt

alloc_page_at_fails :
    (vm : Vm) (cr3 vaddr : ℕ) (r : Option ℕ × PmmState)
    → Allocates vm.pmm r
    → OutOfMemory (alloc_page_at vm cr3 vaddr r)
unfolding alloc_page_at
alloc_page_at_fails vm cr3 vaddr (none, pmm) a = ap (λ s. s.free_count) a.0 ∙ a.1
alloc_page_at_fails vm cr3 vaddr (some phys, pmm) a =
    through_both OutOfMemory tt phys _ (mapped_ok _)

pub map_anon_fails :
    (vm : Vm) (cr3 vaddr : ℕ) → IsValid vm.pmm → OutOfMemory (map_anon vm cr3 vaddr)
unfolding map_anon
map_anon_fails vm cr3 vaddr v =
    alloc_page_at_fails vm cr3 vaddr (alloc_page vm.pmm) (alloc_page-Allocates vm.pmm v)

more_pages :
    (pages free left : ℕ) (r : Option (Bool × Vm))
    → free ≤ left + 4
    → Spends (4 * pages) left r
    → Spends (4 * suc pages) free r
more_pages pages free left none h s = tt
more_pages pages free left (some (b, vm)) h s = (s.0, omega (arith, h, s.1))

pub alloc_anon-Spends :
    (cr3 base i pages : ℕ) (vm : Vm)
    → IsValid vm.pmm
    → Spends (4 * pages) vm.pmm.free_count (alloc_anon cr3 base i pages vm)
unfolding alloc_anon
alloc_anon-Spends cr3 base i zero vm v = (v, omega arith)
alloc_anon-Spends cr3 base i (suc pages) vm v = elim (Option-cases (add_u64 base (i * 4096))) [
  | inl e ↦ subst (λ o. Spends (4 * suc pages) vm.pmm.free_count (next o)) (sym e) tt
  | inr (vaddr, e) ↦
      subst (λ o. Spends (4 * suc pages) vm.pmm.free_count (next o)) (sym e)
        (go (map_anon vm cr3 vaddr) (map_anon-Spends vm cr3 vaddr v)
          (λ vm' h. alloc_anon-Spends cr3 base (i + 1) pages vm' h))
]
  where
    next : Option ℕ → Option (Bool × Vm)
    next o = elim o [
      | none ↦ none
      | some vaddr ↦ elim (map_anon vm cr3 vaddr) [
        | none ↦ none
        | some (false, vm') ↦ some (false, vm')
        | some (true, vm') ↦ alloc_anon cr3 base (i + 1) pages vm'
      ]
    ]

    go :
        (r : Option (Bool × Vm))
        → Spends 4 vm.pmm.free_count r
        → ((vm' : Vm)
            → IsValid vm'.pmm
            → Spends (4 * pages) vm'.pmm.free_count (alloc_anon cr3 base (i + 1) pages vm'))
        → Spends (4 * suc pages) vm.pmm.free_count (elim r [
          | none ↦ none
          | some (false, vm') ↦ some (false, vm')
          | some (true, vm') ↦ alloc_anon cr3 base (i + 1) pages vm'
        ])
    go none h rec = tt
    go (some (false, vm')) h rec = (h.0, omega (arith, h.1))
    go (some (true, vm')) h rec =
        more_pages pages vm.pmm.free_count vm'.pmm.free_count _ h.1 (rec vm' h.0)
