-- ===== src/Pmm/Alloc.antt =====
-- The search of `alloc_page` finds the lowest free page.
use ross_os.Base.{
  ℕ, zero, suc, ◌+◌, ◌-◌, ◌*◌, ◌/◌, ◌%◌, ◌<◌, ◌≡◌, refl, ap, ap₂, sym, ◌∙◌, subst, List, [], ◌∷◌,
  Option, none, some, true, false, arith, length, get_or, ◌==◌, Bool-cases, inl, inr,
}
use native.Mathlib.Decide.{ℕ_discrete, dec_lt}
use ross_os.Base.Bits.{zeros, zeros_full, has_bit, holds_below, holds_below_at}
use ross_os.Pmm.{find_bit, find_page}
use ross_os.Pmm.Bitmap.{is_used, free_in}

-- `find_bit` finds the lowest clear bit.
abbrev LowestBit : ℕ → ℕ → Option ℕ → Type 0
LowestBit byte n none = (j : ℕ) → j < n → has_bit byte j ≡ true
LowestBit byte n (some i) =
    (i < n) × (has_bit byte i ≡ false) × ((j : ℕ) → j < i → has_bit byte j ≡ true)

find_bit-LowestBit :
    (n bit byte : ℕ)
    → ((j : ℕ) → j < bit → has_bit byte j ≡ true)
    → LowestBit byte (bit + n) (find_bit n bit byte)
unfolding find_bit
find_bit-LowestBit zero bit byte below = λ j h. below j (omega arith)
find_bit-LowestBit (suc n) bit byte below = elim (Bool-cases (has_bit byte bit)) [
  | inl e ↦ rw e (
      subst (λ m. LowestBit byte m (find_bit n (bit + 1) byte)) (omega arith)
        (find_bit-LowestBit n (bit + 1) byte (extend e)))
  | inr e ↦ rw e (omega arith, e, below)
]
  where
    extend : has_bit byte bit ≡ true → (j : ℕ) → j < bit + 1 → has_bit byte j ≡ true
    extend e j h = elim (ℕ_discrete j bit) [
      | yes same ↦ ap (has_bit byte) same ∙ e
      | no ne ↦ below j (omega arith)
    ]

is_used_head :
    (byte : ℕ) (bytes : List ℕ) (q : ℕ) → q < 8 → is_used (byte ∷ bytes) q ≡ has_bit byte q
is_used_head byte bytes q h =
    ap₂ (λ i j. has_bit (get_or (byte ∷ bytes) i 0xFF) j) quotient remainder
  where
    quotient : q / 8 ≡ 0
    quotient = omega arith

    remainder : q % 8 ≡ q
    remainder = omega arith

is_used_tail :
    (byte : ℕ) (bytes : List ℕ) (q : ℕ) → is_used (byte ∷ bytes) (q + 8) ≡ is_used bytes q
is_used_tail byte bytes q = ap₂ (λ i j. has_bit (get_or (byte ∷ bytes) i 0xFF) j) quotient remainder
  where
    quotient : (q + 8) / 8 ≡ suc (q / 8)
    quotient = omega arith

    remainder : (q + 8) % 8 ≡ q % 8
    remainder = omega arith

-- Page `k` of the bytes that begin at index `idx` is the lowest free one.
pub record LowestPage (bm : List ℕ) (idx page : ℕ) : Type 0 where
  pub offset : ℕ
  pub place : page ≡ idx * 8 + offset
  pub inside : offset < length bm * 8
  pub is_free : is_used bm offset ≡ false
  pub lower : (j : ℕ) → j < offset → is_used bm j ≡ true

abbrev pub FindsPage : List ℕ → ℕ → Option ℕ → Type 0
FindsPage bm idx none = (j : ℕ) → j < length bm * 8 → is_used bm j ≡ true
FindsPage bm idx (some page) = LowestPage bm idx page

module _ (byte : ℕ) (bytes : List ℕ) (full : (j : ℕ) → j < 8 → has_bit byte j ≡ true) where
  used_below :
      (n : ℕ)
      → ((j : ℕ) → j < n → is_used bytes j ≡ true)
      → (j : ℕ) → j < n + 8
      → is_used (byte ∷ bytes) j ≡ true
  used_below n rest j h = elim (dec_lt j 8) [
    | yes low ↦ is_used_head byte bytes j low ∙ full j low
    | no high ↦
        ap (is_used (byte ∷ bytes)) (shifted high)
        ∙ is_used_tail byte bytes (j - 8)
        ∙ rest (j - 8) (omega arith)
  ]
    where
      shifted : ¬ (j < 8) → j ≡ j - 8 + 8
      shifted high = omega arith

  skip_byte :
      (idx : ℕ) (r : Option ℕ) → FindsPage bytes (idx + 1) r → FindsPage (byte ∷ bytes) idx r
  skip_byte idx none f = λ j h. used_below (length bytes * 8) f j (omega arith)
  skip_byte idx (some page) f = record {
    offset = f.offset + 8;
    place = omega (arith, f.place);
    inside = omega (arith, f.inside);
    is_free = is_used_tail byte bytes f.offset ∙ f.is_free;
    lower = used_below f.offset f.lower;
  }

full_table : holds_below 8 (has_bit 0xFF) ≡ true
unfolding holds_below
full_table = refl

hit_byte :
    (byte : ℕ) (bytes : List ℕ) (idx bit : ℕ)
    → LowestBit byte 8 (some bit)
    → LowestPage (byte ∷ bytes) idx (idx * 8 + bit)
hit_byte byte bytes idx bit h = record {
  offset = bit;
  place = refl;
  inside = omega (arith, h.0);
  is_free = is_used_head byte bytes bit h.0 ∙ h.1;
  lower = λ j lt. is_used_head byte bytes j (omega (arith, h.0)) ∙ h.2 j lt;
}

find_in_byte :
    (byte : ℕ) (bytes : List ℕ) (idx : ℕ) (r rest : Option ℕ)
    → LowestBit byte 8 r
    → FindsPage bytes (idx + 1) rest
    → FindsPage (byte ∷ bytes) idx (elim r [ some bit ↦ some (idx * 8 + bit) | none ↦ rest ])
find_in_byte byte bytes idx none rest low f = skip_byte byte bytes low idx rest f
find_in_byte byte bytes idx (some bit) rest low f = hit_byte byte bytes idx bit low

pub find_page-FindsPage : (bm : List ℕ) (idx : ℕ) → FindsPage bm idx (find_page bm idx)
unfolding find_page
find_page-FindsPage [] idx = λ j h. absurd (omega arith)
find_page-FindsPage (byte ∷ bytes) idx = go (find_page-FindsPage bytes (idx + 1))
  where
    is_ff : (byte == 0xFF) ≡ true → byte ≡ 0xFF
    is_ff e = ground arith

    go :
        FindsPage bytes (idx + 1) (find_page bytes (idx + 1))
        → FindsPage (byte ∷ bytes) idx (find_page (byte ∷ bytes) idx)
    go ih = elim (Bool-cases (byte == 0xFF)) [
      | inl e ↦
          rw (e, find_page)
            (skip_byte byte bytes
              (λ j h.
                ap (λ b. has_bit b j) (is_ff e) ∙ holds_below_at 8 (has_bit 0xFF) j full_table h)
              idx (find_page bytes (idx + 1)) ih)
      | inr e ↦
          rw (e, find_page)
            (find_in_byte byte bytes idx (find_bit 8 0 byte) (find_page bytes (idx + 1))
              (find_bit-LowestBit 8 0 byte (λ j h. absurd (omega arith))) ih)
    ]

-- With every page allocated no byte has a clear bit.
pub free_in_full :
    (bm : List ℕ) → ((j : ℕ) → j < length bm * 8 → is_used bm j ≡ true) → free_in bm ≡ 0
unfolding free_in
free_in_full [] full = refl
free_in_full (byte ∷ bytes) full = omega (arith, here, free_in_full bytes after)
  where
    here : zeros byte ≡ 0
    here = zeros_full byte (λ j h. sym (is_used_head byte bytes j h) ∙ full j (omega arith))

    after : (j : ℕ) → j < length bytes * 8 → is_used bytes j ≡ true
    after j h = sym (is_used_tail byte bytes j) ∙ full (j + 8) (omega arith)
