-- ===== src/Paging/Tables.antt =====
-- Page table entries, and one step of the walk.
use Prim.Native.Nat.{bit_or}
use ross_os.Base.{
  ℕ, ◌+◌, ◌*◌, ◌/◌, ◌^◌, ◌<◌, ◌≡◌, ◌≢◌, refl, ap, sym, ◌∙◌, Option, none, some, Bool, true, false,
  ◌||◌, not, arith, lt→ltb, if◌then◌else◌, ◌==◌, ==_refl, ==_ne,
}
use ross_os.Base.Words.{join_parts, bit_or-join_parts, bit_and-join_parts, bit_or-lt, bit_or_digit}
use ross_os.Pmm.{PmmState, max_pages}
use ross_os.Pmm.Bitmap.{is_used}
use ross_os.Pmm.Calls.{IsValid, Allocated}
use ross_os.Paging.{
  Memory, Vm, present, writable, user, is_huge, frame, entry_at, write, zero_page, enter_table,
  kernel_vma_base, through,
}

abbrev pub page_of : ℕ → ℕ
page_of addr = addr / 4096

-- A page that the allocator has handed out, which manages the first 1 GB.
abbrev pub IsOwned : PmmState → ℕ → Type 0
IsOwned pmm table =
    (table ≡ page_of table * 4096)
    × (is_used pmm.bitmap (page_of table) ≡ true)
    × (page_of table < max_pages)

or_low :
    (k a b : ℕ) → a < 4096 → b < 4096 → bit_or (join_parts 12 k a) b ≡ join_parts 12 k (bit_or a b)
or_low k a b ha hb = bit_or-join_parts 12 k a b ha hb

bare : (k : ℕ) → k * 4096 ≡ join_parts 12 k 0
bare k = omega arith

-- The three flags of a table entry fill the low bits.
table_entry :
    (k : ℕ) → bit_or (bit_or (bit_or (k * 4096) present) writable) user ≡ join_parts 12 k 7
table_entry k =
    ap (λ e. bit_or (bit_or (bit_or e 1) 2) 4) (bare k)
    ∙ ap (λ e. bit_or (bit_or e 2) 4) (or_low k 0 1 (omega arith) (omega arith))
    ∙ ap (λ e. bit_or e 4) (or_low k 1 2 (omega arith) (omega arith))
    ∙ or_low k 3 4 (omega arith) (omega arith)

user_pos : (x : ℕ) → 0 < bit_or x 4
user_pos x = omega (arith, bit_or_digit x 4, bit_or_digit (x / 2) 2, bit_or_digit (x / 2 / 2) 1)

-- A leaf entry keeps its page and has some low bit set.
pub leaf_entry :
    (k flags : ℕ)
    → flags < 4096
    → (low : ℕ) × (bit_or (bit_or (bit_or (k * 4096) flags) present) user ≡ join_parts 12 k low)
      × (low < 4096)
      × (0 < low)
leaf_entry k flags h = (bit_or b 4, joined, bit_or-lt 12 b 4 hb (omega arith), user_pos b)
  where
    a : ℕ
    a = bit_or 0 flags

    ha : a < 4096
    ha = bit_or-lt 12 0 flags (omega arith) h

    b : ℕ
    b = bit_or a 1

    hb : b < 4096
    hb = bit_or-lt 12 a 1 ha (omega arith)

    joined : bit_or (bit_or (bit_or (k * 4096) flags) present) user ≡ join_parts 12 k (bit_or b 4)
    joined =
        ap (λ e. bit_or (bit_or (bit_or e flags) 1) 4) (bare k)
        ∙ ap (λ e. bit_or (bit_or e 1) 4) (or_low k 0 flags (omega arith) h)
        ∙ ap (λ e. bit_or e 4) (or_low k a 1 ha (omega arith))
        ∙ or_low k b 4 hb (omega arith)

table_entry_small : (k : ℕ) → is_huge (join_parts 12 k 7) ≡ false
table_entry_small k =
    ap (λ b. not (b == 0)) (bit_and-join_parts 12 k 7 128 (omega arith) (omega arith))

-- Memory after a write, at other addresses and at other pages.
pub write_self : (m : Memory) (a v : ℕ) → write m a v a ≡ v
unfolding write
write_self m a v = rw (==_refl a)

pub write_ne : (m : Memory) (a v b : ℕ) → b ≢ a → write m a v b ≡ m b
unfolding write
write_ne m a v b ne = rw (==_ne b a ne)

zero_page_in : (m : Memory) (phys b : ℕ) → page_of b ≡ page_of phys → zero_page m phys b ≡ 0
unfolding zero_page
zero_page_in m phys b e = ground arith

pub zero_page_out : (m : Memory) (phys b : ℕ) → page_of b ≢ page_of phys → zero_page m phys b ≡ m b
unfolding zero_page
zero_page_out m phys b ne = rw (==_ne (page_of b) (page_of phys) ne)

-- An entry of a table lies in the table's page.
pub page_of-entry_at :
    (table idx : ℕ)
    → table ≡ page_of table * 4096
    → idx < 512
    → page_of (entry_at table idx) ≡ page_of table
page_of-entry_at table idx e h = omega arith

-- What one step of the walk has done.
pub record Stepped (vm : Vm) (table idx next : ℕ) (vm' : Vm) : Type 0 where
  pub entered : vm'.memory (entry_at table idx) ≢ 0
  pub target : frame (vm'.memory (entry_at table idx)) ≡ next
  pub keeps :
      (a : ℕ)
      → is_used vm.pmm.bitmap (page_of a) ≡ true
      → a ≢ entry_at table idx
      → vm'.memory a ≡ vm.memory a
  pub still_used : (q : ℕ) → is_used vm.pmm.bitmap q ≡ true → is_used vm'.pmm.bitmap q ≡ true
  pub valid : IsValid vm'.pmm

-- A step that made the next table.
pub record Fresh (vm : Vm) (table idx next : ℕ) (vm' : Vm) : Type 0 where
  pub small : is_huge (vm'.memory (entry_at table idx)) ≡ false
  pub owned : IsOwned vm'.pmm next
  pub new : is_used vm.pmm.bitmap (page_of next) ≡ false
  pub fewer : vm'.pmm.free_count + 1 ≡ vm.pmm.free_count
  pub blank : (i : ℕ) → i < 512 → vm'.memory (entry_at next i) ≡ 0

-- A table below 2 GB is reached.
pub through_low {ℓ} : {A : Type ℓ} (phys : ℕ) (r : Option A) → phys < 2 ^ 31 → through phys r ≡ r
through_low {A = A} phys r h =
    ap
      (λ b. elim (if b then some (phys + kernel_vma_base) else none) [
        | none ↦ none
        | some virt ↦ r
      ])
      (lt→ltb (phys + kernel_vma_base) (2 ^ 64) (omega (arith, h)))

pub create_step :
    (vm : Vm) (table idx addr : ℕ) (pmm : PmmState)
    → IsOwned vm.pmm table
    → idx < 512
    → Allocated vm.pmm addr pmm
    → (next : ℕ) × (vm' : Vm) × (enter_table vm table idx (some addr, pmm) ≡ some (next, vm'))
      × Stepped vm table idx next vm'
      × Fresh vm table idx next vm'
unfolding enter_table
create_step vm table idx addr pmm own hi a = (frame entry, vm', made, stepped, fresh)
  where
    entry : ℕ
    entry = bit_or (bit_or (bit_or addr present) writable) user

    vm' : Vm
    vm' = record { pmm = pmm; memory = write (zero_page vm.memory addr) (entry_at table idx) entry }

    entry_eq : entry ≡ join_parts 12 a.page 7
    entry_eq = ap (λ x. bit_or (bit_or (bit_or x 1) 2) 4) a.address ∙ table_entry a.page

    here : vm'.memory (entry_at table idx) ≡ entry
    here = write_self (zero_page vm.memory addr) (entry_at table idx) entry

    page_next : page_of (frame entry) ≡ a.page
    page_next = omega (arith, entry_eq)

    page_addr : page_of addr ≡ a.page
    page_addr = omega (arith, a.address)

    made : enter_table vm table idx (some addr, pmm) ≡ some (frame entry, vm')
    made =
        through_low addr _ (omega (arith, a.address, a.inside))
        ∙ through_low (frame entry) _ (omega (arith, page_next, a.inside))

    elsewhere : (b : ℕ) → is_used vm.pmm.bitmap (page_of b) ≡ true → page_of b ≢ a.page
    elsewhere b u e = cc (u, a.was_free, ap (is_used vm.pmm.bitmap) e)

    or_true : (b : Bool) → (b || true) ≡ true
    or_true true = refl
    or_true false = refl

    stepped : Stepped vm table idx (frame entry) vm'
    stepped = record {
      entered = λ z. absurd (omega (arith, here, entry_eq, z));
      target = ap frame here;
      keeps = λ b u ne.
          write_ne (zero_page vm.memory addr) (entry_at table idx) entry b ne
          ∙ zero_page_out vm.memory addr b (λ e. elsewhere b u (e ∙ page_addr));
      still_used = λ q u. a.taken q ∙ ap (λ b. (a.page == q) || b) u ∙ or_true (a.page == q);
      valid = a.valid;
    }

    apart : (i : ℕ) → i < 512 → entry_at (frame entry) i ≢ entry_at table idx
    apart i lt e = elsewhere table own.1 (
        omega (
          arith,
          page_of-entry_at table idx own.0 hi,
          page_of-entry_at (frame entry) i (omega arith) lt,
          page_next,
          ap page_of e,
        ))

    fresh : Fresh vm table idx (frame entry) vm'
    fresh = record {
      small = ap is_huge (here ∙ entry_eq) ∙ table_entry_small a.page;
      owned = (
        omega arith,
        ap (is_used pmm.bitmap) page_next
            ∙ a.taken a.page
            ∙ ap (λ b. b || is_used vm.pmm.bitmap a.page) (==_refl a.page),
        omega (arith, page_next, a.inside),
      );
      new = ap (is_used vm.pmm.bitmap) page_next ∙ a.was_free;
      fewer = a.fewer;
      blank = λ i lt.
          write_ne (zero_page vm.memory addr) (entry_at table idx) entry (entry_at (frame entry) i)
            (apart i lt)
          ∙ zero_page_in vm.memory addr (entry_at (frame entry) i)
              (page_of-entry_at (frame entry) i (omega arith) lt ∙ page_next ∙ sym page_addr);
    }
