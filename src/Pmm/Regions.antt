-- ===== src/Pmm/Regions.antt =====
-- `init`: which pages the boot memory map makes available.
use ross_os.Base.{
  ℕ, zero, suc, ◌+◌, ◌-◌, ◌*◌, ◌/◌, ◌%◌, ◌≤◌, ◌<◌, ◌≡◌, refl, ap, sym, ◌∙◌, subst, List, [], ◌∷◌,
  Bool, true, false, not, ◌&&◌, ◌||◌, arith, length, get_or, replicate, length-replicate,
  length-set, min, leb, ltb, ◌==◌, Bool-cases, inl, inr,
}
use ross_os.Base.Bits.{zeros, has_bit, holds_below, holds_below_at}
use ross_os.Pmm.{
  PmmState, MemoryKind, MemoryRegion, page_size, bitmap_bytes, max_pages, release, release_range,
  add_region, init, new_state,
}
use ross_os.Pmm.Calls.{IsValid, already_free}
use ross_os.Pmm.Bitmap.{is_used, free_in, Bytes, is_used-unmark, free_in-unmark, Bytes-unmark}

-- The pages in `covered` have been made available, and no other.
pub record Opened (covered : ℕ → Bool) (s s' : PmmState) : Type 0 where
  pub pages :
      (q : ℕ) → q < max_pages → is_used s'.bitmap q ≡ (not (covered q) && is_used s.bitmap q)
  pub valid : IsValid s'
  pub balance : s'.total_count + s.free_count ≡ s.total_count + s'.free_count

both : (a b u v w : Bool) → v ≡ (not a && u) → w ≡ (not b && v) → w ≡ (not (a || b) && u)
both a b u v w h k = ground arith

Opened-trans :
    (c d : ℕ → Bool) (s t u : PmmState) → Opened c s t → Opened d t u → Opened (λ q. c q || d q) s u
Opened-trans c d s t u f g = record {
  pages = λ q h. both (c q) (d q) _ _ _ (f.pages q h) (g.pages q h);
  valid = g.valid;
  balance = omega (arith, f.balance, g.balance);
}

Opened-none :
    (c : ℕ → Bool) (s : PmmState)
    → ((q : ℕ) → q < max_pages → c q ≡ false)
    → IsValid s
    → Opened c s s
Opened-none c s h v = record {
  pages = λ q lt. sym (ap (λ b. not b && is_used s.bitmap q) (h q lt));
  valid = v;
  balance = omega arith;
}

Opened-same :
    (c d : ℕ → Bool) (s t : PmmState)
    → ((q : ℕ) → q < max_pages → c q ≡ d q)
    → Opened c s t
    → Opened d s t
Opened-same c d s t h f = record {
  pages = λ q lt. f.pages q lt ∙ ap (λ b. not b && is_used s.bitmap q) (h q lt);
  valid = f.valid;
  balance = f.balance;
}

release-Opened :
    (s : PmmState) (i : ℕ) → IsValid s → i < max_pages → Opened (λ q. i == q) s (release s i)
unfolding release
release-Opened s i v h = elim (Bool-cases (is_used s.bitmap i)) [
  | inl e ↦ rw e (record {
    pages = λ q lt. is_used-unmark s.bitmap i v.bytes inside q;
    valid = record {
      sized = length-set s.bitmap (i / 8) _ ∙ v.sized;
      bytes = Bytes-unmark s.bitmap i v.bytes inside;
      counted = omega (arith, v.counted, free_in-unmark s.bitmap i v.bytes inside e);
    };
    balance = omega arith;
  })
  | inr e ↦
      rw e
        (record { pages = λ q lt. already_free s.bitmap i q e; valid = v; balance = omega arith })
]
  where
    inside : i < length s.bitmap * 8
    inside = omega (arith, v.sized, h)

abbrev between : ℕ → ℕ → ℕ → Bool
between start n q = leb start q && ltb q (start + n)

release_range-Opened :
    (n start : ℕ) (s : PmmState)
    → IsValid s
    → start + n ≤ max_pages
    → Opened (between start n) s (release_range n start s)
unfolding release_range
release_range-Opened zero start s v h = Opened-none (between start 0) s (λ q lt. ground arith) v
release_range-Opened (suc n) start s v h =
    Opened-same (λ q. (start == q) || between (start + 1) n q) (between start (suc n)) s _
      (λ q lt. ground arith)
      (Opened-trans (λ q. start == q) (between (start + 1) n) s (release s start) _ first
        (release_range-Opened n (start + 1) (release s start) first.valid (omega arith)))
  where
    first : Opened (λ q. start == q) s (release s start)
    first = release-Opened s start v (omega arith)

-- Do all the bytes of page `q` lie in the region, and is it usable?
pub offers : MemoryRegion → MemoryKind → ℕ → Bool
offers r MemoryKind.usable q =
    leb r.base (q * page_size) && leb (q * page_size + page_size) (r.base + r.size)
offers r _ q = false

-- A usable region begins at a page boundary.
unfoldable pub IsAligned : MemoryRegion → MemoryKind → Type 0
IsAligned r MemoryKind.usable = r.base % page_size ≡ 0
IsAligned r _ = Unit {0}

-- Every one does, as in a UEFI memory map.
unfoldable pub AllAligned : List MemoryRegion → Type 0
AllAligned [] = Unit {0}
AllAligned (r ∷ rs) = IsAligned r r.kind × AllAligned rs

-- For a region at a page boundary these are the pages that the code goes through.
covers : (base size q : ℕ) → Bool
covers base size q = leb (base / page_size) q && ltb q (base / page_size + size / page_size)

covers_whole :
    (base size q : ℕ)
    → base % page_size ≡ 0
    → covers base size q
      ≡ (leb base (q * page_size) && leb (q * page_size + page_size) (base + size))
unfolding covers
covers_whole base size q h = ground arith

pub offered : List MemoryRegion → ℕ → Bool
offered [] q = false
offered (r ∷ rs) q = offers r r.kind q || offered rs q

add_region-Opened :
    (s : PmmState) (r : MemoryRegion) (k : MemoryKind)
    → IsValid s
    → IsAligned r k
    → Opened (offers r k) s (add_region s r k)
unfolding add_region offers release_range IsAligned covers
add_region-Opened s r MemoryKind.usable v a =
    Opened-same (covers r.base r.size) (offers r MemoryKind.usable) s
      (add_region s r MemoryKind.usable) (λ q lt. covers_whole r.base r.size q a) opened
  where
    start : ℕ
    start = r.base / page_size

    n : ℕ
    n = min (start + r.size / page_size) max_pages - start

    empty : leb start max_pages ≡ false → 0 ≡ n
    empty e = ground arith

    opened : Opened (covers r.base r.size) s (release_range n start s)
    opened = elim (Bool-cases (leb start max_pages)) [
      | inl e ↦
          Opened-same (between start n) (covers r.base r.size) s _ (λ q lt. ground arith)
            (release_range-Opened n start s v (ground arith))
      | inr e ↦
          subst (λ m. Opened (covers r.base r.size) s (release_range m start s)) (empty e)
            (Opened-none (covers r.base r.size) s (λ q lt. ground arith) v)
    ]
add_region-Opened s r MemoryKind.used v a = Opened-none _ s (λ q lt. refl) v
add_region-Opened s r MemoryKind.reserved v a = Opened-none _ s (λ q lt. refl) v

init-Opened :
    (rs : List MemoryRegion) (s : PmmState)
    → IsValid s
    → AllAligned rs
    → Opened (offered rs) s (init rs s)
unfolding init offered AllAligned
init-Opened [] s v a = Opened-none _ s (λ q lt. refl) v
init-Opened (r ∷ rs) s v a =
    Opened-trans (offers r r.kind) (offered rs) s (add_region s r r.kind) _ first
      (init-Opened rs _ first.valid a.1)
  where
    first : Opened (offers r r.kind) s (add_region s r r.kind)
    first = add_region-Opened s r r.kind v a.0

pub Bytes-replicate : (n : ℕ) → Bytes (replicate n 0xFF)
Bytes-replicate zero = tt
Bytes-replicate (suc n) = (omega arith, Bytes-replicate n)

pub free_in-replicate : (n : ℕ) → free_in (replicate n 0xFF) ≡ 0
unfolding free_in zeros
free_in-replicate zero = refl
free_in-replicate (suc n) = omega (arith, free_in-replicate n)

is_used-replicate : (n i : ℕ) → get_or {A = ℕ} (replicate n 0xFF) i 0xFF ≡ 0xFF
is_used-replicate zero i = refl
is_used-replicate (suc n) zero = refl
is_used-replicate (suc n) (suc i) = is_used-replicate n i

ff_bits : holds_below 8 (has_bit 0xFF) ≡ true
unfolding holds_below
ff_bits = refl

pub new_state-IsValid : IsValid new_state
unfolding new_state
new_state-IsValid = record {
  sized = length-replicate {A = ℕ} bitmap_bytes 0xFF;
  bytes = Bytes-replicate bitmap_bytes;
  counted = sym (free_in-replicate bitmap_bytes);
}

new_state_full : (q : ℕ) → is_used new_state.bitmap q ≡ true
unfolding new_state
new_state_full q =
    ap (λ b. has_bit b (q % 8)) (is_used-replicate bitmap_bytes (q / 8))
    ∙ holds_below_at 8 (has_bit 0xFF) (q % 8) ff_bits (omega arith)

-- Where the usable regions of the memory map begin at page boundaries: after `init` on the state at
-- boot, a page of the managed 1 GB is free exactly when all its bytes lie in a usable region; the state
-- is valid, and the total counts the free pages.
pub init_lem :
    (rs : List MemoryRegion)
    → AllAligned rs
    → ((q : ℕ) → q < max_pages → is_used (init rs new_state).bitmap q ≡ not (offered rs q))
      × IsValid (init rs new_state)
      × ((init rs new_state).total_count ≡ (init rs new_state).free_count)
init_lem rs a = (
  λ q h.
      o.pages q h
      ∙ ap (λ b. not (offered rs q) && b) (new_state_full q)
      ∙ and_true (not (offered rs q)),
  o.valid,
  balance,
)
  where
    o : Opened (offered rs) new_state (init rs new_state)
    o = init-Opened rs new_state new_state-IsValid a

    and_true : (b : Bool) → (b && true) ≡ b
    and_true true = refl
    and_true false = refl

    balance : (init rs new_state).total_count ≡ (init rs new_state).free_count
    balance = unfold new_state in omega (arith, o.balance)
