-- ===== src/Paging/Mapped.antt =====
-- `map_user_page` against `lookup_page`.
use Prim.Native.Nat.{bit_or}
use ross_os.Base.{
  ℕ, ◌*◌, ◌^◌, ◌<◌, ◌≡◌, ◌≢◌, ap, sym, ◌∙◌, subst, List, [], ◌∷◌, Option, none, some, false, arith,
  ==_ne,
}
use ross_os.Base.Words.{join_parts}
use ross_os.Pmm.Calls.{IsValid}
use ross_os.Paging.{
  Memory, Vm, present, user, is_huge, frame, pml4_idx, pdpt_idx, pd_idx, pt_idx, entry_at, write,
  lookup_page, descend, set_entry, map_user_page,
}
use ross_os.Paging.Tables.{page_of, leaf_entry, write_self, write_ne, page_of-entry_at, through_low}
use ross_os.Paging.Walk.{Route, Resolved, Walks, descend-Walks, owned_low}

-- The three tables that lead to the last one.
abbrev pub way : ℕ → List ℕ
way vaddr = pml4_idx vaddr ∷ pdpt_idx vaddr ∷ pd_idx vaddr ∷ []

lookup_through :
    (m : Memory) (pml4 v a4 a3 a2 a1 : ℕ)
    → pml4 < 2 ^ 31
    → frame a4 < 2 ^ 31
    → frame a3 < 2 ^ 31
    → frame a2 < 2 ^ 31
    → m (entry_at pml4 (pml4_idx v)) ≡ a4
    → a4 ≢ 0
    → m (entry_at (frame a4) (pdpt_idx v)) ≡ a3
    → a3 ≢ 0
    → m (entry_at (frame a3) (pd_idx v)) ≡ a2
    → a2 ≢ 0
    → is_huge a2 ≡ false
    → m (entry_at (frame a2) (pt_idx v)) ≡ a1
    → a1 ≢ 0
    → lookup_page m pml4 v ≡ some (some (frame a1))
unfolding lookup_page
lookup_through m pml4 v a4 a3 a2 a1 l l4 l3 l2 h4 n4 h3 n3 h2 n2 s2 h1 n1 =
    rw (h4, h3, h2, h1, ==_ne a4 0 n4, ==_ne a3 0 n3, ==_ne a2 0 n2, s2, ==_ne a1 0 n1)
      (through_low pml4 _ l
        ∙ through_low (frame a4) _ l4
        ∙ through_low (frame a3) _ l3
        ∙ through_low (frame a2) _ l2)

-- What `map_user_page` of the page at `paddr` for `vaddr` may answer.
abbrev pub Maps : Vm → (pml4 vaddr paddr : ℕ) → Option Vm → Type 0
Maps vm pml4 vaddr paddr none = vm.pmm.free_count < 3
Maps vm pml4 vaddr paddr (some vm') =
    (lookup_page vm'.memory pml4 vaddr ≡ some (some paddr)) × IsValid vm'.pmm

set_entry-Maps :
    (vm : Vm) (pml4 vaddr k flags : ℕ) (r : Option (ℕ × Vm))
    → flags < 4096
    → Walks vm [] pml4 (way vaddr) r
    → Maps vm pml4 vaddr
        (k * 4096)
        (set_entry (pt_idx vaddr) (bit_or (bit_or (bit_or (k * 4096) flags) present) user) r)
unfolding set_entry
set_entry-Maps vm pml4 vaddr k flags none hf w = w
set_entry-Maps vm pml4 vaddr k flags (some (last, u)) hf w = (found, w.valid)
  where
    entry : ℕ
    entry = bit_or (bit_or (bit_or (k * 4096) flags) present) user

    low : (low : ℕ) × (entry ≡ join_parts 12 k low) × (low < 4096) × (0 < low)
    low = leaf_entry k flags hf

    m : Memory
    m = write u.memory (entry_at last (pt_idx vaddr)) entry

    p4 : Resolved u [] pml4 (way vaddr) last
    p4 = w.resolved

    a4 : ℕ
    a4 = u.memory (entry_at pml4 (pml4_idx vaddr))

    a3 : ℕ
    a3 = u.memory (entry_at (frame a4) (pdpt_idx vaddr))

    a2 : ℕ
    a2 = u.memory (entry_at (frame a3) (pd_idx vaddr))

    p3 : Resolved u (page_of pml4 ∷ []) (frame a4) (pdpt_idx vaddr ∷ pd_idx vaddr ∷ []) last
    p3 = p4.3

    p2 : Resolved u (page_of (frame a4) ∷ page_of pml4 ∷ []) (frame a3) (pd_idx vaddr ∷ []) last
    p2 = p3.3

    p1 : Resolved u (page_of (frame a3) ∷ page_of (frame a4) ∷ page_of pml4 ∷ []) (frame a2) [] last
    p1 = p2.3

    -- The last write is in another page than the entries of the way.
    other :
        (table i : ℕ)
        → table ≡ page_of table * 4096
        → i < 512
        → page_of last ≢ page_of table
        → m (entry_at table i) ≡ u.memory (entry_at table i)
    other table i aligned hi ne =
        write_ne u.memory (entry_at last (pt_idx vaddr)) entry (entry_at table i) (λ e. ne (
          sym (page_of-entry_at last (pt_idx vaddr) p1.1.0 (omega arith))
          ∙ sym (ap page_of e)
          ∙ page_of-entry_at table i aligned hi))

    found : lookup_page m pml4 vaddr ≡ some (some (k * 4096))
    found =
        lookup_through m pml4 vaddr a4 a3 a2 entry (owned_low u.pmm _ p4.0) (owned_low u.pmm _ p3.0)
          (owned_low u.pmm _ p2.0) (omega (arith, p1.0, owned_low u.pmm last p1.1))
          (other pml4 (pml4_idx vaddr) p4.0.0 (omega arith) p1.2.1.1.0) p4.1
          (other (frame a4) (pdpt_idx vaddr) p3.0.0 (omega arith) p1.2.1.0) p3.1
          (other (frame a3) (pd_idx vaddr) p2.0.0 (omega arith) p1.2.0) p2.1 p2.2
          (ap (λ t. m (entry_at t (pt_idx vaddr))) p1.0
            ∙ write_self u.memory (entry_at last (pt_idx vaddr)) entry)
          (λ z. absurd (omega (arith, low.1, low.3, z)))
        ∙ ap (λ x. some (some x)) (omega (arith, low.1, low.2))

-- From a valid allocator, and along a route of page tables that are allocated, each another page of
-- the managed first 1 GB, and not entered as huge pages: after `map_user_page` of an aligned page with
-- flags below 4096, `lookup_page` of the address does not panic and gives that page, and the allocator
-- is valid; `map_user_page` panics only when fewer than three pages are free.
pub map_user_page-Maps :
    (vm : Vm) (pml4 vaddr k flags : ℕ)
    → IsValid vm.pmm
    → flags < 4096
    → Route vm [] pml4 (way vaddr)
    → Maps vm pml4 vaddr (k * 4096) (map_user_page vm pml4 vaddr (k * 4096) flags)
unfolding map_user_page
map_user_page-Maps vm pml4 vaddr k flags v hf route = set_entry-Maps vm pml4 vaddr k flags _ hf (
    subst (Walks vm [] pml4 (way vaddr))
      (sym
        (through_low pml4 (descend (way vaddr) (some (pml4, vm))) (owned_low vm.pmm pml4 route.0)))
      (descend-Walks (way vaddr) vm [] pml4 v tt (omega arith, (omega arith, (omega arith, tt)))
        route))
