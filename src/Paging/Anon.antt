-- ===== src/Paging/Anon.antt =====
-- A page of anonymous memory: what `map_anon` does where it has the pages for it.
use ross_os.Base.{
  ℕ, ◌≤◌, ◌≡◌, refl, ap, sym, ◌∙◌, subst, List, [], ◌∷◌, Option, none, some, Bool, true, false,
  ◌||◌, ◌==◌, arith, inl, inr,
}
use ross_os.Pmm.{PmmState, alloc_page}
use ross_os.Pmm.Bitmap.{is_used}
use ross_os.Pmm.Calls.{IsValid, Allocates, alloc_page-Allocates}
use ross_os.Paging.{
  Vm, is_huge, frame, entry_at, zero_page, lookup_page, map_user_page, alloc_page_at, map_anon,
}
use ross_os.Paging.Tables.{page_of, page_of-entry_at, through_low, zero_page_out}
use ross_os.Paging.Walk.{AllIdx, Route}
use ross_os.Paging.Mapped.{way, Maps, map_user_page-Maps}

-- A route stays one when more pages are taken and the pages in use keep their content.
Route-kept :
    (vm vm' : Vm) (is : List ℕ) (seen : List ℕ) (table : ℕ)
    → ((q : ℕ) → is_used vm.pmm.bitmap q ≡ true → is_used vm'.pmm.bitmap q ≡ true)
    → ((a : ℕ) → is_used vm.pmm.bitmap (page_of a) ≡ true → vm'.memory a ≡ vm.memory a)
    → AllIdx is
    → Route vm seen table is
    → Route vm' seen table is
Route-kept vm vm' [] seen table more kept k (own, out) =
    ((own.0, more (page_of table) own.1, own.2), out)
Route-kept vm vm' (i ∷ is) seen table more kept k (own, out, inl blank) = (
  (own.0, more (page_of table) own.1, own.2),
  out,
  inl (
      kept (entry_at table i)
        (ap (is_used vm.pmm.bitmap) (page_of-entry_at table i own.0 k.0) ∙ own.1)
      ∙ blank),
)
Route-kept vm vm' (i ∷ is) seen table more kept k (own, out, inr (there, small, route)) =
    let same : vm'.memory (entry_at table i) ≡ vm.memory (entry_at table i) =
      kept (entry_at table i)
        (ap (is_used vm.pmm.bitmap) (page_of-entry_at table i own.0 k.0) ∙ own.1) in
    (
      (own.0, more (page_of table) own.1, own.2),
      out,
      inr (
        (λ z. there (sym same ∙ z)),
        ap is_huge same ∙ small,
        subst (λ x. Route vm' (page_of table ∷ seen) (frame x) is) (sym same)
            (Route-kept vm vm' is (page_of table ∷ seen) (frame (vm.memory (entry_at table i))) more
              kept k.1 route),
      ),
    )

-- A page that was free is mapped at `vaddr`.
pub record Backed (vm : Vm) (cr3 vaddr : ℕ) (r : Option (Bool × Vm)) : Type 0 where
  pub after : Vm
  pub phys : ℕ
  pub mapped : r ≡ some (true, after)
  pub was_free : is_used vm.pmm.bitmap (page_of phys) ≡ false
  pub found : lookup_page after.memory cr3 vaddr ≡ some (some phys)
  pub valid : IsValid after.pmm

finish :
    (vm u : Vm) (cr3 vaddr phys : ℕ) (r : Option Vm)
    → 3 ≤ u.pmm.free_count
    → is_used vm.pmm.bitmap (page_of phys) ≡ false
    → Maps u cr3 vaddr phys r
    → Backed vm cr3 vaddr (elim r [ none ↦ none | some vm' ↦ some (true, vm') ])
finish vm u cr3 vaddr phys none enough free m = absurd (omega (arith, enough, m))
finish vm u cr3 vaddr phys (some vm') enough free m = record {
  after = vm';
  phys = phys;
  mapped = refl;
  was_free = free;
  found = m.0;
  valid = m.1;
}

alloc_page_at-Backed :
    (vm : Vm) (cr3 vaddr : ℕ) (r : Option ℕ × PmmState)
    → 4 ≤ vm.pmm.free_count
    → Route vm [] cr3 (way vaddr)
    → Allocates vm.pmm r
    → Backed vm cr3 vaddr (alloc_page_at vm cr3 vaddr r)
unfolding alloc_page_at
alloc_page_at-Backed vm cr3 vaddr (none, pmm) enough route a = absurd (omega (arith, enough, a.1))
alloc_page_at-Backed vm cr3 vaddr (some phys, pmm) enough route a =
    subst (Backed vm cr3 vaddr) (sym (through_low phys _ (omega (arith, a.address, a.inside)))) (
      finish vm u cr3 vaddr phys (map_user_page u cr3 vaddr phys 7) (omega (arith, enough, a.fewer))
        (ap (is_used vm.pmm.bitmap) page_phys ∙ a.was_free)
        (subst (λ p. Maps u cr3 vaddr p (map_user_page u cr3 vaddr p 7)) (sym a.address)
          (map_user_page-Maps u cr3 vaddr a.page 7 a.valid (omega arith) (
            Route-kept vm u (way vaddr) [] cr3 more kept
              (omega arith, (omega arith, (omega arith, tt))) route))))
  where
    u : Vm
    u = record { pmm = pmm; memory = zero_page vm.memory phys }

    page_phys : page_of phys ≡ a.page
    page_phys = omega (arith, a.address)

    or_true : (b : Bool) → (b || true) ≡ true
    or_true true = refl
    or_true false = refl

    more : (q : ℕ) → is_used vm.pmm.bitmap q ≡ true → is_used pmm.bitmap q ≡ true
    more q h = a.taken q ∙ ap (λ b. (a.page == q) || b) h ∙ or_true (a.page == q)

    kept :
        (b : ℕ)
        → is_used vm.pmm.bitmap (page_of b) ≡ true
        → zero_page vm.memory phys b ≡ vm.memory b
    kept b h =
        zero_page_out vm.memory phys b
          (λ e. cc (h, a.was_free, ap (is_used vm.pmm.bitmap) (e ∙ page_phys)))

-- With four pages free and a route to the address, `map_anon` does not panic: it maps a page that was
-- free.
pub map_anon-Backed :
    (vm : Vm) (cr3 vaddr : ℕ)
    → IsValid vm.pmm
    → 4 ≤ vm.pmm.free_count
    → Route vm [] cr3 (way vaddr)
    → Backed vm cr3 vaddr (map_anon vm cr3 vaddr)
unfolding map_anon
map_anon-Backed vm cr3 vaddr v enough route =
    alloc_page_at-Backed vm cr3 vaddr (alloc_page vm.pmm) enough route
      (alloc_page-Allocates vm.pmm v)
