-- ===== src/Base/Slices.antt =====
-- Parts of lists: what is taken from and dropped from the front.
use Prim.Native.Nat.{ℕ, zero, suc, ◌+◌, ◌-◌, ◌≤◌, min}
use mathlib.Core.Path.{◌≡◌, refl, ap, ap₂, sym, ◌∙◌}
use mathlib.Core.List.{List, [], ◌∷◌, ◌++◌}
use native.Mathlib.Omega.{arith}
use ross_os.Base.Lists.{length, take, drop}

module _ {ℓ} {A : Type ℓ} where
  pub take_nothing : (n : ℕ) (xs : List A) → n ≡ 0 → take n xs ≡ []
  take_nothing zero xs e = refl
  take_nothing (suc n) xs e = absurd (omega arith)

  pub take_empty : (n : ℕ) → take {A = A} n [] ≡ []
  take_empty zero = refl
  take_empty (suc n) = refl

  pub take-append :
      (n : ℕ) (xs ys : List A) → take n (xs ++ ys) ≡ take n xs ++ take (n - length xs) ys
  take-append n [] ys = ap₂ (λ a k. a ++ take k ys) (sym (take_empty n)) (omega arith)
  take-append zero (x ∷ xs) ys = sym (take_nothing (0 - suc (length xs)) ys (omega arith))
  take-append (suc n) (x ∷ xs) ys =
      ap (λ r. x ∷ r)
        (take-append n xs ys
          ∙ ap (λ k. take n xs ++ take k ys) {y = suc n - suc (length xs)} (omega arith))

  pub take-min : (n : ℕ) (xs : List A) → take (min (length xs) n) xs ≡ take n xs
  take-min n [] = take_empty (min 0 n) ∙ sym (take_empty n)
  take-min zero (x ∷ xs) = take_nothing (min (suc (length xs)) 0) (x ∷ xs) (omega arith)
  take-min (suc n) (x ∷ xs) =
      ap (λ k. take k (x ∷ xs)) {y = suc (min (length xs) n)} (omega arith)
      ∙ ap (λ r. x ∷ r) (take-min n xs)

  pub drop-take : (o n : ℕ) (xs : List A) → drop o (take (o + n) xs) ≡ take n (drop o xs)
  drop-take zero n xs = ap (λ k. take k xs) (omega arith)
  drop-take (suc o) n [] = ap (drop (suc o)) (take_empty (suc o + n)) ∙ sym (take_empty n)
  drop-take (suc o) n (x ∷ xs) =
      ap (λ k. drop (suc o) (take k (x ∷ xs))) {y = suc (o + n)} (omega arith) ∙ drop-take o n xs

  pub drop_all : (n : ℕ) (xs : List A) → length xs ≤ n → drop n xs ≡ []
  drop_all zero [] h = refl
  drop_all zero (x ∷ xs) h = absurd (omega (arith, h))
  drop_all (suc n) [] h = refl
  drop_all (suc n) (x ∷ xs) h = drop_all n xs (omega (arith, h))

  pub take-take : (m n : ℕ) (xs : List A) → m ≤ n → take m (take n xs) ≡ take m xs
  take-take zero n xs h = refl
  take-take (suc m) zero xs h = absurd (omega (arith, h))
  take-take (suc m) (suc n) [] h = refl
  take-take (suc m) (suc n) (x ∷ xs) h = ap (λ r. x ∷ r) (take-take m n xs (omega (arith, h)))
