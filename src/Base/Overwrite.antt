-- ===== src/Base/Overwrite.antt =====
-- `overwrite` on a list that is made of two.
use Prim.Native.Nat.{ℕ, zero, suc, ◌+◌, ◌-◌, ◌≤◌}
use mathlib.Core.Path.{◌≡◌, refl, ap, ap₂, sym, ◌∙◌}
use mathlib.Core.List.{List, [], ◌∷◌, ◌++◌}
use native.Mathlib.Omega.{arith}
use ross_os.Base.Lists.{length, take, drop}
use ross_os.Base.Slices.{take_empty, drop_all}
use ross_os.Base.Bytes.{overwrite}

pub overwrite_nothing : (xs : List ℕ) → overwrite xs 0 [] ≡ xs
unfolding overwrite
overwrite_nothing [] = refl
overwrite_nothing (x ∷ xs) = refl

drop_nothing : (n : ℕ) (xs : List ℕ) → n ≡ 0 → drop n xs ≡ xs
drop_nothing zero xs e = refl
drop_nothing (suc n) xs e = absurd (omega (arith, e))

-- The part that fits the first list, and the rest at the front of the second.
pub overwrite-append :
    (xs ys : List ℕ) (i : ℕ) (bs : List ℕ)
    → i ≤ length xs
    → overwrite (xs ++ ys) i bs
      ≡ overwrite xs i (take (length xs - i) bs) ++ overwrite ys 0 (drop (length xs - i) bs)
unfolding overwrite
overwrite-append [] ys i bs h =
    ap₂ (λ k l. overwrite ys k l) {y = 0} (omega (arith, h))
      (sym (drop_nothing (0 - i) bs (omega arith)))
overwrite-append (x ∷ xs) ys zero [] h = sym (
    ap₂ (λ t e. overwrite (x ∷ xs) 0 t ++ overwrite ys 0 e) (take_empty (suc (length xs) - 0))
      (drop_all (suc (length xs) - 0) [] (omega arith))
    ∙ ap (λ r. x ∷ xs ++ r) (overwrite_nothing ys))
overwrite-append (x ∷ xs) ys zero (b ∷ bs) h =
    ap (λ r. b ∷ r) (overwrite-append xs ys zero bs (omega arith))
    ∙ ap (λ k. overwrite (x ∷ xs) 0 (take k (b ∷ bs)) ++ overwrite ys 0 (drop k (b ∷ bs)))
        {x = suc (length xs - 0)} {y = suc (length xs) - 0} (omega arith)
overwrite-append (x ∷ xs) ys (suc i) bs h =
    ap (λ r. x ∷ r) (overwrite-append xs ys i bs (omega (arith, h)))
    ∙ ap (λ k. x ∷ overwrite xs i (take k bs) ++ overwrite ys 0 (drop k bs))
        {y = suc (length xs) - suc i} (omega arith)

-- Behind the first list.
pub overwrite-append_behind :
    (xs ys : List ℕ) (i : ℕ) (bs : List ℕ)
    → overwrite (xs ++ ys) (length xs + i) bs ≡ xs ++ overwrite ys i bs
unfolding overwrite
overwrite-append_behind [] ys i bs = ap (λ k. overwrite ys k bs) (omega arith)
overwrite-append_behind (x ∷ xs) ys i bs =
    ap (λ k. overwrite (x ∷ xs ++ ys) k bs) {y = suc (length xs + i)} (omega arith)
    ∙ ap (λ r. x ∷ r) (overwrite-append_behind xs ys i bs)

-- What has been written over is there.
pub take-drop-overwrite :
    (xs : List ℕ) (i : ℕ) (bs : List ℕ)
    → i + length bs ≤ length xs
    → take (length bs) (drop i (overwrite xs i bs)) ≡ bs
unfolding overwrite
take-drop-overwrite [] i [] h = take_empty 0
take-drop-overwrite [] i (b ∷ bs) h = absurd (omega (arith, h))
take-drop-overwrite (x ∷ xs) zero [] h = refl
take-drop-overwrite (x ∷ xs) zero (b ∷ bs) h =
    ap (λ r. b ∷ r) (take-drop-overwrite xs zero bs (omega (arith, h)))
take-drop-overwrite (x ∷ xs) (suc i) bs h = take-drop-overwrite xs i bs (omega (arith, h))
