-- ===== src/Base/Words.antt =====
-- `|` and `&` on words that are made of a high part and a low one, such as page table entries.
use Prim.Native.Nat.{
  ℕ, zero, suc, ◌+◌, ◌*◌, ◌/◌, ◌%◌, ◌^◌, ◌≤◌, ◌<◌, min, max, digits, bit_and, bit_or,
  bit_and-bitwise, bit_or-bitwise,
}
use mathlib.Core.Path.{◌≡◌, refl, ap, ap₂, ◌∙◌, sym}
use native.Mathlib.Omega.{arith}
use native.Mathlib.Nat.{pow-suc}

-- Both operations as the recursion on digits that defines them, with any count that is enough.
module _ (rest : ℕ → ℕ) (join : ℕ → ℕ → ℕ) where
  enough : (m n a b : ℕ) → a ≤ m → a ≤ n → digits rest join m a b ≡ digits rest join n a b
  enough zero zero a b hm hn = refl
  enough zero (suc n) zero b hm hn = refl
  enough zero (suc n) (suc a) b hm hn = elim hm [ ]
  enough (suc m) zero zero b hm hn = refl
  enough (suc m) zero (suc a) b hm hn = elim hn [ ]
  enough (suc m) (suc n) zero b hm hn = refl
  enough (suc m) (suc n) (suc a) b hm hn =
      ap (λ d. d * 2 + join (suc a % 2) (b % 2))
        (enough m n (suc a / 2) (b / 2) (omega arith) (omega arith))

  -- One digit, where `rest` agrees with the recursion.
  one_digit :
      (a b : ℕ)
      → rest b ≡ rest (b / 2) * 2 + join 0 (b % 2)
      → digits rest join a a b ≡ digits rest join (a / 2) (a / 2) (b / 2) * 2 + join (a % 2) (b % 2)
  one_digit zero b h = h
  one_digit (suc a) b h =
      ap (λ d. d * 2 + join (suc a % 2) (b % 2))
        (enough a (suc a / 2) (suc a / 2) (b / 2) (omega arith) (omega arith))

pub bit_or_digit : (a b : ℕ) → bit_or a b ≡ bit_or (a / 2) (b / 2) * 2 + max (a % 2) (b % 2)
bit_or_digit a b =
    bit_or-bitwise a b
    ∙ one_digit (λ y. y) max a b (omega arith)
    ∙ ap (λ d. d * 2 + max (a % 2) (b % 2)) (sym (bit_or-bitwise (a / 2) (b / 2)))

pub bit_and_digit : (a b : ℕ) → bit_and a b ≡ bit_and (a / 2) (b / 2) * 2 + min (a % 2) (b % 2)
bit_and_digit a b =
    bit_and-bitwise a b
    ∙ one_digit (λ y. 0) min a b (omega arith)
    ∙ ap (λ d. d * 2 + min (a % 2) (b % 2)) (sym (bit_and-bitwise (a / 2) (b / 2)))

or_nothing : (bound a : ℕ) → a ≤ bound → bit_or a 0 ≡ a
or_nothing zero zero h = refl
or_nothing zero (suc a) h = elim h [ ]
or_nothing (suc bound) zero h = refl
or_nothing (suc bound) (suc a) h =
    omega (arith, bit_or_digit (suc a) 0, or_nothing bound (suc a / 2) (omega arith))

and_nothing : (bound a : ℕ) → a ≤ bound → bit_and a 0 ≡ 0
and_nothing zero zero h = refl
and_nothing zero (suc a) h = elim h [ ]
and_nothing (suc bound) zero h = refl
and_nothing (suc bound) (suc a) h =
    omega (arith, bit_and_digit (suc a) 0, and_nothing bound (suc a / 2) (omega arith))

-- A low part below `2 ^ n` under a high part `k`.
abbrev pub join_parts : ℕ → ℕ → ℕ → ℕ
join_parts n k low = k * 2 ^ n + low

double : (n : ℕ) → 2 ^ suc n ≡ 2 ^ n * 2
double n = simp pow-suc (omega arith)

double_part : (n k : ℕ) → k * 2 ^ suc n ≡ k * 2 ^ n * 2
double_part n k = ap (λ p. k * p) (double n) ∙ omega arith

half_join : (n k a : ℕ) → join_parts (suc n) k a / 2 ≡ join_parts n k (a / 2)
half_join n k a = omega (arith, double_part n k)

parity_join : (n k a : ℕ) → join_parts (suc n) k a % 2 ≡ a % 2
parity_join n k a = omega (arith, double_part n k)

pub bit_or-join_parts :
    (n k a b : ℕ)
    → a < 2 ^ n
    → b < 2 ^ n
    → bit_or (join_parts n k a) b ≡ join_parts n k (bit_or a b)
bit_or-join_parts zero k a b ha hb =
    let a_none : a ≡ 0 = omega arith in
    let b_none : b ≡ 0 = omega arith in
    rw (a_none, b_none) (or_nothing (k * 1 + 0) (k * 1 + 0) (omega arith))
bit_or-join_parts (suc n) k a b ha hb =
    bit_or_digit (join_parts (suc n) k a) b
    ∙ ap₂ (λ h l. bit_or h (b / 2) * 2 + max l (b % 2)) (half_join n k a) (parity_join n k a)
    ∙ omega (
      arith,
      bit_or-join_parts n k (a / 2) (b / 2) (omega (arith, double n)) (omega (arith, double n)),
      bit_or_digit a b,
      double_part n k,
    )

pub bit_or-lt : (n a b : ℕ) → a < 2 ^ n → b < 2 ^ n → bit_or a b < 2 ^ n
bit_or-lt zero a b ha hb =
    let a_none : a ≡ 0 = omega arith in
    let b_none : b ≡ 0 = omega arith in rw (a_none, b_none) (omega arith)
bit_or-lt (suc n) a b ha hb = omega (
  arith,
  bit_or_digit a b,
  bit_or-lt n (a / 2) (b / 2) (omega (arith, double n)) (omega (arith, double n)),
  double n,
)

pub bit_and-join_parts :
    (n k a b : ℕ) → a < 2 ^ n → b < 2 ^ n → bit_and (join_parts n k a) b ≡ bit_and a b
bit_and-join_parts zero k a b ha hb =
    let a_none : a ≡ 0 = omega arith in
    let b_none : b ≡ 0 = omega arith in
    rw (a_none, b_none) (and_nothing (k * 1 + 0) (k * 1 + 0) (omega arith))
bit_and-join_parts (suc n) k a b ha hb =
    bit_and_digit (join_parts (suc n) k a) b
    ∙ ap₂ (λ h l. bit_and h (b / 2) * 2 + min l (b % 2)) (half_join n k a) (parity_join n k a)
    ∙ omega (
      arith,
      bit_and-join_parts n k (a / 2) (b / 2) (omega (arith, double n)) (omega (arith, double n)),
      bit_and_digit a b,
    )
