-- ===== src/Pmm/Bitmap.antt =====
-- The bitmap as a set of pages, and its number of free pages.
use native.Mathlib.Decide.{ℕ_discrete}
use ross_os.Base.{
  ℕ, zero, suc, ◌+◌, ◌*◌, ◌/◌, ◌%◌, ◌<◌, ◌≡◌, ◌≢◌, ap, ap₂, sym, ◌∙◌, List, [], ◌∷◌, Bool, true,
  false, not, ◌&&◌, ◌||◌, arith, length, get_or, set, get_or-set_self, get_or-set_ne, ◌==◌, ==_ne,
}
use ross_os.Base.Bits.{
  has_bit, set_bit, clear_bit, zeros, has_bit-set_bit, has_bit-clear_bit, set_bit-lt, clear_bit-lt,
  zeros-set_bit, zeros-clear_bit,
}

-- Is page `p` allocated? Pages past the bitmap are never handed out.
abbrev pub is_used : List ℕ → ℕ → Bool
is_used bm p = has_bit (get_or bm (p / 8) 0xFF) (p % 8)

abbrev pub mark : List ℕ → ℕ → List ℕ
mark bm p = set bm (p / 8) (set_bit (get_or bm (p / 8) 0xFF) (p % 8))

abbrev pub unmark : List ℕ → ℕ → List ℕ
unmark bm p = set bm (p / 8) (clear_bit (get_or bm (p / 8) 0xFF) (p % 8))

-- The number of free pages.
unfoldable pub free_in : List ℕ → ℕ
free_in [] = 0
free_in (byte ∷ bytes) = zeros byte + free_in bytes

abbrev pub Bytes : List ℕ → Type 0
Bytes [] = Unit {0}
Bytes (byte ∷ bytes) = (byte < 256) × Bytes bytes

pub Bytes-get : (bm : List ℕ) (i : ℕ) → Bytes bm → get_or bm i 0xFF < 256
Bytes-get [] i h = omega arith
Bytes-get (x ∷ bm) zero h = h.0
Bytes-get (x ∷ bm) (suc i) h = Bytes-get bm i h.1

pub Bytes-set : (bm : List ℕ) (i v : ℕ) → Bytes bm → v < 256 → Bytes (set bm i v)
Bytes-set [] i v h hv = tt
Bytes-set (x ∷ bm) zero v h hv = (hv, h.1)
Bytes-set (x ∷ bm) (suc i) v h hv = (h.0, Bytes-set bm i v h.1 hv)

free_in-set :
    (bm : List ℕ) (i v : ℕ)
    → i < length bm
    → free_in (set bm i v) + zeros (get_or bm i 0xFF) ≡ free_in bm + zeros v
unfolding free_in
free_in-set [] i v h = absurd (omega arith)
free_in-set (x ∷ bm) zero v h = omega arith
free_in-set (x ∷ bm) (suc i) v h = omega (arith, free_in-set bm i v (omega arith))

same_page : (p q : ℕ) → p / 8 ≡ q / 8 → (p % 8 == q % 8) ≡ (p == q)
same_page p q e = ground arith

other_page : (p q : ℕ) → p / 8 ≢ q / 8 → (p == q) ≡ false
other_page p q ne = ==_ne p q (λ e. ne (ap (λ x. x / 8) e))

module _ (bm : List ℕ) (p : ℕ) (bytes : Bytes bm) (inside : p < length bm * 8) where
  index_in : p / 8 < length bm
  index_in = omega (arith, inside)

  bit_in : p % 8 < 8
  bit_in = omega arith

  byte_in : get_or bm (p / 8) 0xFF < 256
  byte_in = Bytes-get bm (p / 8) bytes

  -- Bit `q` after byte `p / 8` has been replaced by `v`.
  replaced_same : (q v : ℕ) → p / 8 ≡ q / 8 → is_used (set bm (p / 8) v) q ≡ has_bit v (q % 8)
  replaced_same q v e =
      ap (λ i. has_bit (get_or (set bm (p / 8) v) i 0xFF) (q % 8)) (sym e)
      ∙ ap (λ b. has_bit b (q % 8)) (get_or-set_self bm (p / 8) v 0xFF index_in)

  replaced_other : (q v : ℕ) → p / 8 ≢ q / 8 → is_used (set bm (p / 8) v) q ≡ is_used bm q
  replaced_other q v ne = ap (λ b. has_bit b (q % 8)) (get_or-set_ne bm (p / 8) (q / 8) v 0xFF ne)

  in_byte : (q : ℕ) → p / 8 ≡ q / 8 → has_bit (get_or bm (p / 8) 0xFF) (q % 8) ≡ is_used bm q
  in_byte q e = ap (λ i. has_bit (get_or bm i 0xFF) (q % 8)) e

  pub is_used-mark : (q : ℕ) → is_used (mark bm p) q ≡ ((p == q) || is_used bm q)
  is_used-mark q = elim (ℕ_discrete (p / 8) (q / 8)) [
    | yes e ↦
        replaced_same q _ e
        ∙ has_bit-set_bit (get_or bm (p / 8) 0xFF) (p % 8) byte_in bit_in (q % 8) (omega arith)
        ∙ ap₂ ◌||◌ (same_page p q e) (in_byte q e)
    | no ne ↦ replaced_other q _ ne ∙ sym (ap (λ b. b || is_used bm q) (other_page p q ne))
  ]

  pub is_used-unmark : (q : ℕ) → is_used (unmark bm p) q ≡ (not (p == q) && is_used bm q)
  is_used-unmark q = elim (ℕ_discrete (p / 8) (q / 8)) [
    | yes e ↦
        replaced_same q _ e
        ∙ has_bit-clear_bit (get_or bm (p / 8) 0xFF) (p % 8) byte_in bit_in (q % 8) (omega arith)
        ∙ ap₂ (λ a b. not a && b) (same_page p q e) (in_byte q e)
    | no ne ↦ replaced_other q _ ne ∙ sym (ap (λ b. not b && is_used bm q) (other_page p q ne))
  ]

  pub free_in-mark : is_used bm p ≡ false → free_in (mark bm p) + 1 ≡ free_in bm
  free_in-mark h = omega (
    arith,
    free_in-set bm (p / 8) (set_bit (get_or bm (p / 8) 0xFF) (p % 8)) index_in,
    zeros-set_bit (get_or bm (p / 8) 0xFF) (p % 8) byte_in bit_in h,
  )

  pub free_in-unmark : is_used bm p ≡ true → free_in (unmark bm p) ≡ free_in bm + 1
  free_in-unmark h = omega (
    arith,
    free_in-set bm (p / 8) (clear_bit (get_or bm (p / 8) 0xFF) (p % 8)) index_in,
    zeros-clear_bit (get_or bm (p / 8) 0xFF) (p % 8) byte_in bit_in h,
  )

  pub Bytes-mark : Bytes (mark bm p)
  Bytes-mark = Bytes-set bm (p / 8) _ bytes (set_bit-lt _ (p % 8) byte_in bit_in)

  pub Bytes-unmark : Bytes (unmark bm p)
  Bytes-unmark = Bytes-set bm (p / 8) _ bytes (clear_bit-lt _ (p % 8) byte_in bit_in)
