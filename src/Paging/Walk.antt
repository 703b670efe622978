-- ===== src/Paging/Walk.antt =====
-- The whole walk: which tables it goes through, and what it leaves alone.
use ross_os.Base.{
  ℕ, ◌+◌, ◌^◌, ◌≤◌, ◌<◌, ◌≡◌, ◌≢◌, refl, ap, sym, ◌∙◌, subst, List, [], ◌∷◌, Option, none, some,
  Bool, true, false, arith, length, ◌==◌, ==_ne, if◌then◌else◌, inl, inr, ◌⊎◌,
}
use ross_os.Pmm.{PmmState, alloc_page}
use ross_os.Pmm.Bitmap.{is_used}
use ross_os.Pmm.Calls.{IsValid, Allocates, alloc_page-Allocates}
use ross_os.Paging.{Vm, is_huge, frame, entry_at, enter_table, next_table, descend}
use ross_os.Paging.Tables.{
  page_of, IsOwned, page_of-entry_at, Stepped, Fresh, create_step, through_low,
}

-- Pages, and the pages of the tables gone through so far.
abbrev pub Outside : ℕ → List ℕ → Type 0
Outside p [] = Unit {0}
Outside p (q ∷ qs) = (p ≢ q) × Outside p qs

abbrev pub Inside : ℕ → List ℕ → Type 0
Inside p [] = ⊥
Inside p (q ∷ qs) = (p ≡ q) ⊎ Inside p qs

abbrev pub AllUsed : PmmState → List ℕ → Type 0
AllUsed pmm [] = Unit {0}
AllUsed pmm (q ∷ qs) = (is_used pmm.bitmap q ≡ true) × AllUsed pmm qs

abbrev pub AllIdx : List ℕ → Type 0
AllIdx [] = Unit {0}
AllIdx (i ∷ is) = (i < 512) × AllIdx is

-- The tables on the way, as far as they exist, are pages that the allocator has handed out, each
-- another one, and none of their entries on the way is a huge page.
abbrev pub Route : Vm → List ℕ → ℕ → List ℕ → Type 0
Route vm seen table [] = IsOwned vm.pmm table × Outside (page_of table) seen
Route vm seen table (i ∷ is) =
    IsOwned vm.pmm table
    × Outside (page_of table) seen
    × ((vm.memory (entry_at table i) ≡ 0)
        ⊎ ((vm.memory (entry_at table i) ≢ 0)
            × (is_huge (vm.memory (entry_at table i)) ≡ false)
            × Route vm (page_of table ∷ seen) (frame (vm.memory (entry_at table i))) is))

-- The way exists and leads to `last`.
abbrev pub Resolved : Vm → List ℕ → ℕ → List ℕ → ℕ → Type 0
Resolved vm seen table [] last = (table ≡ last) × IsOwned vm.pmm last × Outside (page_of last) seen
Resolved vm seen table (i ∷ is) last =
    IsOwned vm.pmm table
    × (vm.memory (entry_at table i) ≢ 0)
    × (is_huge (vm.memory (entry_at table i)) ≡ false)
    × Resolved vm (page_of table ∷ seen) (frame (vm.memory (entry_at table i))) is last

pub record Walked (vm : Vm) (seen : List ℕ) (table : ℕ) (idxs : List ℕ) (last : ℕ) (vm' : Vm)
    : Type 0 where
  pub resolved : Resolved vm' seen table idxs last
  pub keeps : (a : ℕ) → Inside (page_of a) seen → vm'.memory a ≡ vm.memory a
  pub still_used : (q : ℕ) → is_used vm.pmm.bitmap q ≡ true → is_used vm'.pmm.bitmap q ≡ true
  pub valid : IsValid vm'.pmm

abbrev pub Walks : Vm → List ℕ → ℕ → List ℕ → Option (ℕ × Vm) → Type 0
Walks vm seen table idxs none = vm.pmm.free_count < length idxs
Walks vm seen table idxs (some (last, vm')) = Walked vm seen table idxs last vm'

Inside-Outside : (p q : ℕ) (qs : List ℕ) → Inside p qs → Outside q qs → p ≢ q
Inside-Outside p q [] h k e = h
Inside-Outside p q (r ∷ qs) (inl h) k e = k.0 (sym e ∙ h)
Inside-Outside p q (r ∷ qs) (inr h) k e = Inside-Outside p q qs h k.1 e

Inside-used :
    (pmm : PmmState) (p : ℕ) (qs : List ℕ)
    → Inside p qs
    → AllUsed pmm qs
    → is_used pmm.bitmap p ≡ true
Inside-used pmm p [] h k = absurd h
Inside-used pmm p (q ∷ qs) (inl h) k = ap (is_used pmm.bitmap) h ∙ k.0
Inside-used pmm p (q ∷ qs) (inr h) k = Inside-used pmm p qs h k.1

Outside-new :
    (pmm : PmmState) (p : ℕ) (qs : List ℕ)
    → is_used pmm.bitmap p ≡ false
    → AllUsed pmm qs
    → Outside p qs
Outside-new pmm p [] h k = tt
Outside-new pmm p (q ∷ qs) h k =
    ((λ e. cc (h, k.0, ap (is_used pmm.bitmap) e)), Outside-new pmm p qs h k.1)

AllUsed-mono :
    (pmm pmm' : PmmState) (qs : List ℕ)
    → ((q : ℕ) → is_used pmm.bitmap q ≡ true → is_used pmm'.bitmap q ≡ true)
    → AllUsed pmm qs
    → AllUsed pmm' qs
AllUsed-mono pmm pmm' [] f h = tt
AllUsed-mono pmm pmm' (q ∷ qs) f h = (f q h.0, AllUsed-mono pmm pmm' qs f h.1)

module _ (vm : Vm) (seen : List ℕ) (table i : ℕ) (used : AllUsed vm.pmm seen)
    (own : IsOwned vm.pmm table) (out : Outside (page_of table) seen) (hi : i < 512) where
  entry_page : page_of (entry_at table i) ≡ page_of table
  entry_page = page_of-entry_at table i own.0 hi

  -- One step and the walk from there make the longer walk.
  Walked-cons :
      (next : ℕ) (vm₁ : Vm) (is : List ℕ) (last : ℕ) (vm' : Vm)
      → Stepped vm table i next vm₁
      → is_huge (vm₁.memory (entry_at table i)) ≡ false
      → Walked vm₁ (page_of table ∷ seen) next is last vm'
      → Walked vm seen table (i ∷ is) last vm'
  Walked-cons next vm₁ is last vm' s small w = record {
    resolved = (
      (own.0, w.still_used (page_of table) (s.still_used (page_of table) own.1), own.2),
      (λ z. s.entered (sym here ∙ z)),
      ap is_huge here ∙ small,
      subst (λ t. Resolved vm' (page_of table ∷ seen) t is last) (sym (ap frame here ∙ s.target))
          w.resolved,
    );
    keeps = λ a inside.
        w.keeps a (inr inside)
        ∙ s.keeps a (Inside-used vm.pmm (page_of a) seen inside used) (λ e.
          Inside-Outside (page_of a) (page_of table) seen inside out (ap page_of e ∙ entry_page));
    still_used = λ q u. w.still_used q (s.still_used q u);
    valid = w.valid;
  }
    where
      here : vm'.memory (entry_at table i) ≡ vm₁.memory (entry_at table i)
      here = w.keeps (entry_at table i) (inl entry_page)

  Walks-cons :
      (next : ℕ) (vm₁ : Vm) (is : List ℕ) (r : Option (ℕ × Vm))
      → Stepped vm table i next vm₁
      → is_huge (vm₁.memory (entry_at table i)) ≡ false
      → vm.pmm.free_count ≤ vm₁.pmm.free_count + 1
      → Walks vm₁ (page_of table ∷ seen) next is r
      → Walks vm seen table (i ∷ is) r
  Walks-cons next vm₁ is none s small fewer w = omega arith
  Walks-cons next vm₁ is (some (last, vm')) s small fewer w =
      Walked-cons next vm₁ is last vm' s small w

Route-Fresh :
    (vm vm₁ : Vm) (seen : List ℕ) (table i next : ℕ) (is : List ℕ)
    → AllIdx is
    → Outside (page_of next) seen
    → Fresh vm table i next vm₁
    → Route vm₁ seen next is
Route-Fresh vm vm₁ seen table i next [] k out f = (f.owned, out)
Route-Fresh vm vm₁ seen table i next (j ∷ is) k out f = (f.owned, out, inl (f.blank j k.0))

old_step :
    (vm : Vm) (table i : ℕ)
    → IsValid vm.pmm
    → vm.memory (entry_at table i) ≢ 0
    → Stepped vm table i (frame (vm.memory (entry_at table i))) vm
old_step vm table i v h = record {
  entered = h;
  target = refl;
  keeps = λ a u ne. refl;
  still_used = λ q u. u;
  valid = v;
}

descend-none : (is : List ℕ) → descend is none ≡ none
unfolding descend
descend-none [] = refl
descend-none (i ∷ is) = refl

if_true {ℓ} : {A : Type ℓ} (b : Bool) (x y : A) → b ≡ true → (if b then x else y) ≡ x
if_true b x y h = ap (λ c. if c then x else y) h

if_false {ℓ} : {A : Type ℓ} (b : Bool) (x y : A) → b ≡ false → (if b then x else y) ≡ y
if_false b x y h = ap (λ c. if c then x else y) h

next_made :
    (vm : Vm) (table i : ℕ)
    → vm.memory (entry_at table i) ≡ 0
    → next_table vm table i ≡ enter_table vm table i (alloc_page vm.pmm)
unfolding next_table
next_made vm table i h = if_true _ _ _ (ap (λ x. x == 0) h)

next_old :
    (vm : Vm) (table i : ℕ)
    → vm.memory (entry_at table i) ≢ 0
    → frame (vm.memory (entry_at table i)) < 2 ^ 31
    → next_table vm table i ≡ some (frame (vm.memory (entry_at table i)), vm)
unfolding next_table
next_old vm table i h low = if_false _ _ _ (==_ne _ 0 h) ∙ through_low _ _ low

-- A table that the allocator manages lies below 2 GB.
pub owned_low : (pmm : PmmState) (table : ℕ) → IsOwned pmm table → table < 2 ^ 31
owned_low pmm table own = omega (arith, own.2)

Route-IsOwned :
    (vm : Vm) (seen : List ℕ) (table : ℕ) (is : List ℕ)
    → Route vm seen table is
    → IsOwned vm.pmm table
Route-IsOwned vm seen table [] r = r.0
Route-IsOwned vm seen table (i ∷ is) r = r.0

-- The step that needs a new table, and the walk from there.
made_step :
    (is : List ℕ) (vm : Vm) (seen : List ℕ) (table i : ℕ) (r : Option ℕ × PmmState)
    → AllUsed vm.pmm seen
    → AllIdx (i ∷ is)
    → IsOwned vm.pmm table
    → Outside (page_of table) seen
    → Allocates vm.pmm r
    → ((vm₁ : Vm) (next : ℕ)
        → IsValid vm₁.pmm
        → AllUsed vm₁.pmm (page_of table ∷ seen)
        → Route vm₁ (page_of table ∷ seen) next is
        → Walks vm₁ (page_of table ∷ seen) next is (descend is (some (next, vm₁))))
    → Walks vm seen table (i ∷ is) (descend is (enter_table vm table i r))
unfolding enter_table
made_step is vm seen table i (none, pmm) used k own out a rec =
    subst (Walks vm seen table (i ∷ is)) (sym (descend-none is)) (omega (arith, a.1))
made_step is vm seen table i (some addr, pmm) used k own out a rec =
    let (next, vm₁, made, s, f) = create_step vm table i addr pmm own k.0 a in
    let used₁ : AllUsed vm₁.pmm (page_of table ∷ seen) =
      (s.still_used (page_of table) own.1, AllUsed-mono vm.pmm vm₁.pmm seen s.still_used used) in
    subst (λ n. Walks vm seen table (i ∷ is) (descend is n)) (sym made)
      (Walks-cons vm seen table i used own out k.0 next vm₁ is (descend is (some (next, vm₁))) s
        f.small (omega (arith, f.fewer))
        (rec vm₁ next s.valid used₁ (
          Route-Fresh vm vm₁ (page_of table ∷ seen) table i next is k.1
            (Outside-new vm.pmm (page_of next) (page_of table ∷ seen) f.new (own.1, used)) f)))

later_steps :
    (is : List ℕ) (vm : Vm) (seen : List ℕ) (table i : ℕ)
    → IsValid vm.pmm
    → AllUsed vm.pmm seen
    → AllIdx (i ∷ is)
    → Route vm seen table (i ∷ is)
    → ((vm₁ : Vm) (next : ℕ)
        → IsValid vm₁.pmm
        → AllUsed vm₁.pmm (page_of table ∷ seen)
        → Route vm₁ (page_of table ∷ seen) next is
        → Walks vm₁ (page_of table ∷ seen) next is (descend is (some (next, vm₁))))
    → Walks vm seen table (i ∷ is) (descend is (next_table vm table i))
later_steps is vm seen table i v used k (own, out, inl blank) rec =
    subst (λ n. Walks vm seen table (i ∷ is) (descend is n)) (sym (next_made vm table i blank))
      (made_step is vm seen table i (alloc_page vm.pmm) used k own out
        (alloc_page-Allocates vm.pmm v) rec)
later_steps is vm seen table i v used k (own, out, inr (there, small, route)) rec =
    subst (λ n. Walks vm seen table (i ∷ is) (descend is n))
      (sym (next_old vm table i there (owned_low vm.pmm _ (Route-IsOwned vm _ _ is route))))
      (Walks-cons vm seen table i used own out k.0 _ vm is
        (descend is (some (frame (vm.memory (entry_at table i)), vm))) (old_step vm table i v there)
        small (omega arith) (rec vm (frame (vm.memory (entry_at table i))) v (own.1, used) route))

-- From a valid allocator along a route, the walk either ends at the last table of a way that now
-- exists, having changed nothing in the tables gone through before, or fails for want of free pages.
pub descend-Walks :
    (is : List ℕ) (vm : Vm) (seen : List ℕ) (table : ℕ)
    → IsValid vm.pmm
    → AllUsed vm.pmm seen
    → AllIdx is
    → Route vm seen table is
    → Walks vm seen table is (descend is (some (table, vm)))
unfolding descend
descend-Walks [] vm seen table v used k route = record {
  resolved = (refl, route.0, route.1);
  keeps = λ a inside. refl;
  still_used = λ q u. u;
  valid = v;
}
descend-Walks (i ∷ is) vm seen table v used k route =
    later_steps is vm seen table i v used k route (λ vm₁ next v₁ used₁ route₁.
      descend-Walks is vm₁ (page_of table ∷ seen) next v₁ used₁ k.1 route₁)
