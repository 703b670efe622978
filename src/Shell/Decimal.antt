-- ===== src/Shell/Decimal.antt =====
-- The numbers that `print_num` writes.
use ross_os.Base.{
  ℕ, zero, suc, ◌+◌, ◌-◌, ◌*◌, ◌/◌, ◌%◌, ◌^◌, ◌<◌, ◌≡◌, refl, ap, sym, ◌∙◌, List, [], ◌∷◌, none,
  some, ◌==◌, if◌then◌else◌, Bool-cases, inl, inr, arith,
}
use native.Mathlib.Nat.{pow-suc}
use ross_os.Shell.{digits, num_text}

-- The number that decimal digits write behind a number that stands for the ones before them.
unfoldable pub value_from : ℕ → List ℕ → ℕ
value_from n [] = n
value_from n (c ∷ cs) = value_from (n * 10 + (c - b'0')) cs

-- The digits of `n`, in front of `acc`, are there when there is room for them, and say what they should.
digits-value :
    (turns n : ℕ) (acc : List ℕ)
    → n < 10 ^ turns
    → (text : List ℕ) × (digits turns n acc ≡ some text) × (value_from 0 text ≡ value_from n acc)
unfolding digits value_from
digits-value zero n acc h =
    let nothing : n ≡ 0 = omega (arith, h) in
    (
      acc,
      ap (λ k. if k == 0 then some acc else none) nothing,
      ap (λ k. value_from k acc) (sym nothing),
    )
digits-value (suc turns) n acc h = elim (Bool-cases (n == 0)) [
  | inl e ↦
      let nothing : n ≡ 0 = ground arith in
      rw e (acc, refl, ap (λ k. value_from k acc) (sym nothing))
  | inr e ↦
      let (text, done, means) =
        digits-value turns (n / 10) ((b'0' + n % 10) ∷ acc) (omega (arith, h, pow-suc 10 turns)) in
      rw e (text, done, means ∙ ap (λ k. value_from k acc) (omega arith))
]

-- The digits of every 64-bit number fit the buffer of `print_num`, and say the number.
pub num_text-value :
    (n : ℕ) → n < 2 ^ 64 → (text : List ℕ) × (num_text n ≡ some text) × (value_from 0 text ≡ n)
unfolding num_text value_from
num_text-value n h = elim (Bool-cases (n == 0)) [
  | inl e ↦ let nothing : n ≡ 0 = ground arith in rw e (b'0' ∷ [], refl, sym nothing)
  | inr e ↦ rw e (digits-value 20 n [] (omega (arith, h)))
]
