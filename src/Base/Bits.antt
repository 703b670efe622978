-- ===== src/Base/Bits.antt =====
-- Single bits of a byte. The tables check every byte and every bit position.
use Prim.Native.Nat.{ℕ, zero, suc, ◌+◌, ◌-◌, ◌^◌, ◌<◌, bit_and, bit_or}
use mathlib.Core.Path.{◌≡◌, refl, sym, ap, ◌∙◌}
use mathlib.Core.Bool.{Bool, true, false, not, ◌&&◌, ◌||◌}
use native.Mathlib.Omega.{arith}
use native.Mathlib.Decide.{ℕ_discrete}
use ross_os.Base.Tests.{ltb, ◌==◌, if◌then◌else◌}

-- Does every number from 0 up to the bound pass the test?
unfoldable pub holds_below : ℕ → (ℕ → Bool) → Bool
holds_below zero test = true
holds_below (suc bound) test =
    let rest = holds_below bound test in if test bound then rest else false

pub holds_below_at :
    (bound : ℕ) (test : ℕ → Bool) (i : ℕ)
    → holds_below bound test ≡ true
    → i < bound
    → test i ≡ true
unfolding holds_below
holds_below_at zero test i passed inside = elim inside [ ]
holds_below_at (suc bound) test i passed inside = elim (ℕ_discrete i bound) [
  | yes last ↦ ap test last ∙ ground arith
  | no earlier ↦ holds_below_at bound test i (ground arith) (omega arith)
]

-- `byte & (1 << bit) != 0`, `byte | (1 << bit)` and `byte & !(1 << bit)` on a `u8`.
abbrev pub has_bit : ℕ → ℕ → Bool
has_bit byte bit = not (bit_and byte (2 ^ bit) == 0)

abbrev pub set_bit : ℕ → ℕ → ℕ
set_bit byte bit = bit_or byte (2 ^ bit)

abbrev pub clear_bit : ℕ → ℕ → ℕ
clear_bit byte bit = bit_and byte (255 - 2 ^ bit)

same : Bool → Bool → Bool
same true b = b
same false b = not b

same_sound : (a b : Bool) → same a b ≡ true → a ≡ b
unfolding same
same_sound true true h = refl
same_sound true false h = sym h
same_sound false false h = refl
same_sound false true h = h

-- The unset bits of a byte among its lowest `n`.
unfoldable pub zeros_below : ℕ → ℕ → ℕ
zeros_below zero byte = 0
zeros_below (suc n) byte = (if has_bit byte n then 0 else 1) + zeros_below n byte

unfoldable pub zeros : ℕ → ℕ
unfolding zeros_below
zeros byte = zeros_below 8 byte

-- A statement about every byte and every bit position, by evaluation.
pub every_bit : (ℕ → ℕ → Bool) → Bool
unfolding holds_below
every_bit p = holds_below 256 (λ byte. holds_below 8 (p byte))

every_bit_sound :
    (p : ℕ → ℕ → Bool) (byte bit : ℕ)
    → every_bit p ≡ true
    → byte < 256
    → bit < 8
    → p byte bit ≡ true
unfolding every_bit
every_bit_sound p byte bit h hb hi =
    holds_below_at 8 (p byte) bit (holds_below_at 256 (λ b. holds_below 8 (p b)) byte h hb) hi

set_table :
    every_bit (λ byte i.
      holds_below 8 (λ j. same (has_bit (set_bit byte i) j) ((i == j) || has_bit byte j)))
    ≡ true
unfolding every_bit holds_below same
set_table = refl

clear_table :
    every_bit (λ byte i.
      holds_below 8 (λ j. same (has_bit (clear_bit byte i) j) (not (i == j) && has_bit byte j)))
    ≡ true
unfolding every_bit holds_below same
clear_table = refl

range_table : every_bit (λ byte i. ltb (set_bit byte i) 256 && ltb (clear_bit byte i) 256) ≡ true
unfolding every_bit holds_below
range_table = refl

zeros_table :
    every_bit (λ byte i.
      if has_bit byte i
      then zeros (clear_bit byte i) == zeros byte + 1
      else zeros (set_bit byte i) + 1 == zeros byte)
    ≡ true
unfolding every_bit holds_below zeros
zeros_table = refl

module _ (byte i : ℕ) (hb : byte < 256) (hi : i < 8) where
  pub has_bit-set_bit : (j : ℕ) → j < 8 → has_bit (set_bit byte i) j ≡ ((i == j) || has_bit byte j)
  has_bit-set_bit j hj =
      same_sound _ _ (holds_below_at 8 _ j (every_bit_sound _ byte i set_table hb hi) hj)

  pub has_bit-clear_bit :
      (j : ℕ) → j < 8 → has_bit (clear_bit byte i) j ≡ (not (i == j) && has_bit byte j)
  has_bit-clear_bit j hj =
      same_sound _ _ (holds_below_at 8 _ j (every_bit_sound _ byte i clear_table hb hi) hj)

  pub set_bit-lt : set_bit byte i < 256
  set_bit-lt = ground (arith, every_bit_sound _ byte i range_table hb hi)

  pub clear_bit-lt : clear_bit byte i < 256
  clear_bit-lt = ground (arith, every_bit_sound _ byte i range_table hb hi)

  pub zeros-set_bit : has_bit byte i ≡ false → zeros (set_bit byte i) + 1 ≡ zeros byte
  zeros-set_bit h = ground (arith, every_bit_sound _ byte i zeros_table hb hi)

  pub zeros-clear_bit : has_bit byte i ≡ true → zeros (clear_bit byte i) ≡ zeros byte + 1
  zeros-clear_bit h = ground (arith, every_bit_sound _ byte i zeros_table hb hi)

pub zeros_full : (byte : ℕ) → ((j : ℕ) → j < 8 → has_bit byte j ≡ true) → zeros byte ≡ 0
unfolding zeros
zeros_full byte full = go 8 full
  where
    go : (n : ℕ) → ((j : ℕ) → j < n → has_bit byte j ≡ true) → zeros_below n byte ≡ 0
    go zero f = refl
    go (suc n) f = rw (f n (omega arith)) (omega (arith, go n (λ j h. f j (omega arith))))
