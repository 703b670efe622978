-- ===== src/Pmm/Calls.antt =====
-- `alloc_page` and `free_page` against the set of allocated pages.
use native.Mathlib.Decide.{ℕ_discrete}
use ross_os.Base.{
  ℕ, ◌+◌, ◌*◌, ◌/◌, ◌≤◌, ◌<◌, ◌≡◌, refl, ap, sym, ◌∙◌, subst, List, Option, none, some, true, false,
  not, ◌&&◌, ◌||◌, arith, length, length-set, leb, ◌==◌, ==_refl, ==_ne, if◌then◌else◌, Bool-cases,
  inl, inr,
}
use ross_os.Pmm.{
  PmmState, page_size, bitmap_bytes, max_pages, find_page, take_page, alloc_page, free_page,
}
use ross_os.Pmm.Alloc.{FindsPage, find_page-FindsPage, free_in_full}
use ross_os.Pmm.Bitmap.{
  is_used, free_in, Bytes, is_used-mark, is_used-unmark, free_in-mark, free_in-unmark, Bytes-mark,
  Bytes-unmark,
}

-- `free_count` is the number of clear bits.
pub record IsValid (s : PmmState) : Type 0 where
  pub sized : length s.bitmap ≡ bitmap_bytes
  pub bytes : Bytes s.bitmap
  pub counted : s.free_count ≡ free_in s.bitmap

-- What a successful `alloc_page` has done.
pub record Allocated (s : PmmState) (addr : ℕ) (s' : PmmState) : Type 0 where
  pub page : ℕ
  pub address : addr ≡ page * page_size
  pub inside : page < max_pages
  pub was_free : is_used s.bitmap page ≡ false
  pub lowest : (j : ℕ) → j < page → is_used s.bitmap j ≡ true
  pub taken : (q : ℕ) → is_used s'.bitmap q ≡ ((page == q) || is_used s.bitmap q)
  pub fewer : s'.free_count + 1 ≡ s.free_count
  pub valid : IsValid s'

abbrev pub Allocates : PmmState → Option ℕ × PmmState → Type 0
Allocates s (some addr, s') = Allocated s addr s'
Allocates s (none, s') =
    (s' ≡ s) × (s.free_count ≡ 0) × ((j : ℕ) → j < max_pages → is_used s.bitmap j ≡ true)

take_page-Allocates :
    (s : PmmState) (r : Option ℕ) → IsValid s → FindsPage s.bitmap 0 r → Allocates s (take_page s r)
unfolding take_page
take_page-Allocates s none v f =
    (refl, v.counted ∙ free_in_full s.bitmap f, λ j h. f j (omega (arith, v.sized)))
take_page-Allocates s (some page) v f = record {
  page = page;
  address = refl;
  inside = omega (arith, f.place, f.inside, v.sized);
  was_free = was_free;
  lowest = λ j h. f.lower j (omega (arith, f.place));
  taken = is_used-mark s.bitmap page v.bytes inside;
  fewer = omega (arith, v.counted, free_in-mark s.bitmap page v.bytes inside was_free);
  valid = record {
    sized = length-set s.bitmap (page / 8) _ ∙ v.sized;
    bytes = Bytes-mark s.bitmap page v.bytes inside;
    counted = omega (arith, v.counted, free_in-mark s.bitmap page v.bytes inside was_free);
  };
}
  where
    same : page ≡ f.offset
    same = omega (arith, f.place)

    inside : page < length s.bitmap * 8
    inside = omega (arith, f.place, f.inside)

    was_free : is_used s.bitmap page ≡ false
    was_free = ap (is_used s.bitmap) same ∙ f.is_free

-- On a valid state `alloc_page` hands out the address of the lowest free page and marks that page
-- alone; when it fails, the state is as before, `free_count` is 0 and every page is allocated.
pub alloc_page-Allocates : (s : PmmState) → IsValid s → Allocates s (alloc_page s)
unfolding alloc_page
alloc_page-Allocates s v =
    take_page-Allocates s (find_page s.bitmap 0) v (find_page-FindsPage s.bitmap 0)

-- What `free_page` has done.
pub record Freed (s : PmmState) (page : ℕ) (s' : PmmState) : Type 0 where
  pub released : (q : ℕ) → is_used s'.bitmap q ≡ (not (page == q) && is_used s.bitmap q)
  pub counted : s'.free_count ≡ s.free_count + (if is_used s.bitmap page then 1 else 0)
  pub valid : IsValid s'

pub already_free :
    (bm : List ℕ) (p q : ℕ) → is_used bm p ≡ false → is_used bm q ≡ (not (p == q) && is_used bm q)
already_free bm p q h = elim (ℕ_discrete p q) [
  | yes e ↦
      ap (is_used bm) (sym e)
      ∙ h
      ∙ sym (ap (λ b. not b && is_used bm q) (subst (λ x. (p == x) ≡ true) e (==_refl p)))
  | no ne ↦ sym (ap (λ b. not b && is_used bm q) (==_ne p q ne))
]

-- On a valid state, `free_page` of an address inside the managed memory releases the page that the
-- address lies in and no other, and counts it if it was allocated; the state stays valid.
pub free_page-Freed :
    (s : PmmState) (addr : ℕ)
    → IsValid s
    → addr / page_size < max_pages
    → Freed s (addr / page_size) (free_page s addr)
unfolding free_page
free_page-Freed s addr v h = rw in_range (elim (Bool-cases (is_used s.bitmap page)) [
  | inl e ↦ rw e (record {
    released = is_used-unmark s.bitmap page v.bytes inside;
    counted = rw e refl;
    valid = record {
      sized = length-set s.bitmap (page / 8) _ ∙ v.sized;
      bytes = Bytes-unmark s.bitmap page v.bytes inside;
      counted = omega (arith, v.counted, free_in-unmark s.bitmap page v.bytes inside e);
    };
  })
  | inr e ↦ rw e (record {
    released = λ q. already_free s.bitmap page q e;
    counted = rw e (omega arith);
    valid = v;
  })
])
  where
    page : ℕ
    page = addr / page_size

    in_range : leb max_pages page ≡ false
    in_range = ground arith

    inside : page < length s.bitmap * 8
    inside = omega (arith, v.sized, h)

-- An address outside the managed memory is ignored.
free_page_outside : (s : PmmState) (addr : ℕ) → max_pages ≤ addr / page_size → free_page s addr ≡ s
unfolding free_page
free_page_outside s addr h = ground arith

-- A page that `alloc_page` has handed out and `free_page` has taken back leaves the same set of
-- allocated pages and the same count as before, so that the next `alloc_page` may reuse it.
pub free-alloc :
    (s s' : PmmState) (addr : ℕ)
    → IsValid s
    → alloc_page s ≡ (some addr, s')
    → ((q : ℕ) → is_used (free_page s' addr).bitmap q ≡ is_used s.bitmap q)
      × ((free_page s' addr).free_count ≡ s.free_count)
free-alloc s s' addr v h = (
  λ q. f.released q ∙ ap (λ p. not (p == q) && is_used s'.bitmap q) here ∙ back q,
  omega (arith, f.counted, a.fewer, one),
)
  where
    a : Allocated s addr s'
    a = subst (Allocates s) h (alloc_page-Allocates s v)

    here : addr / page_size ≡ a.page
    here = omega (arith, a.address)

    f : Freed s' (addr / page_size) (free_page s' addr)
    f = free_page-Freed s' addr a.valid (omega (arith, a.address, a.inside))

    one : ◌≡◌ {A = ℕ} (if is_used s'.bitmap (addr / page_size) then 1 else 0) 1
    one =
        ap (λ b. if b then 1 else 0)
          (ap (is_used s'.bitmap) here
            ∙ a.taken a.page
            ∙ ap (λ b. b || is_used s.bitmap a.page) (==_refl a.page))

    back : (q : ℕ) → (not (a.page == q) && is_used s'.bitmap q) ≡ is_used s.bitmap q
    back q = elim (ℕ_discrete a.page q) [
      | yes e ↦
          ap (λ b. not b && is_used s'.bitmap q)
            (subst (λ x. (a.page == x) ≡ true) e (==_refl a.page))
          ∙ sym (ap (is_used s.bitmap) (sym e) ∙ a.was_free)
      | no ne ↦
          ap (λ b. not b && is_used s'.bitmap q) (==_ne a.page q ne)
          ∙ a.taken q
          ∙ ap (λ b. b || is_used s.bitmap q) (==_ne a.page q ne)
    ]
