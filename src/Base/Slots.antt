-- ===== src/Base/Slots.antt =====
-- Tables of slots, `Vec<Option<T>>`: the slot at an index, and the search for a free one.
use Prim.Native.Nat.{ℕ, zero, suc, ◌+◌, ◌≤◌, ◌<◌}
use mathlib.Core.Path.{◌≡◌, refl, subst, ap}
use mathlib.Core.Logic.{◌≢◌}
use mathlib.Core.List.{List, [], ◌∷◌, ◌++◌}
use mathlib.Core.Option.{Option, none, some}
use native.Mathlib.Omega.{arith}
use native.Mathlib.Decide.{ℕ_discrete}
use ross_os.Base.Lists.{length, get_elem?, set, get_elem?-set_self, get_elem?-set_ne}

module _ {ℓ} {A : Type ℓ} where
  -- `slots.get(i)`, and the slot's own option.
  abbrev pub slot_at : List (Option A) → ℕ → Option A
  slot_at slots i = elim (get_elem? slots i) [ none ↦ none | some slot ↦ slot ]

  -- `slots[i].is_none()` for each of `n` indices from `i` on; the first that is free.
  unfoldable pub find_free : ℕ → ℕ → List (Option A) → Option ℕ
  find_free zero i slots = none
  find_free (suc n) i slots = elim (get_elem? slots i) [
    | some none ↦ some i
    | _ ↦ find_free n (i + 1) slots
  ]

  pub record FirstFree (slots : List (Option A)) (i n k : ℕ) : Type ℓ where
    pub from : i ≤ k
    pub inside : k < i + n
    pub is_free : get_elem? slots k ≡ some none
    pub taken : (j : ℕ) → i ≤ j → j < k → get_elem? slots j ≢ some none

  FirstFree-next :
      (slots : List (Option A)) (i n k : ℕ)
      → get_elem? slots i ≢ some none
      → FirstFree slots (i + 1) n k
      → FirstFree slots i (suc n) k
  FirstFree-next slots i n k busy f = record {
    from = omega (arith, f.from);
    inside = omega (arith, f.inside);
    is_free = f.is_free;
    taken = λ j above below. elim (ℕ_discrete i j) [
      | yes e ↦ subst (λ m. get_elem? slots m ≢ some none) e busy
      | no ne ↦ f.taken j (omega arith) below
    ];
  }

  -- What the search answers: the first free index of the range, or that there is none.
  abbrev pub Found : List (Option A) → ℕ → ℕ → Option ℕ → Type ℓ
  Found slots i n (some k) = FirstFree slots i n k
  Found slots i n none = (j : ℕ) → i ≤ j → j < i + n → get_elem? slots j ≢ some none

  find_free-next :
      (slots : List (Option A)) (i n : ℕ) (r : Option ℕ)
      → get_elem? slots i ≢ some none
      → Found slots (i + 1) n r
      → Found slots i (suc n) r
  find_free-next slots i n (some k) busy f = FirstFree-next slots i n k busy f
  find_free-next slots i n none busy f = λ j above below. elim (ℕ_discrete i j) [
    | yes e ↦ subst (λ m. get_elem? slots m ≢ some none) e busy
    | no ne ↦ f j (omega arith) (omega arith)
  ]

  pub find_free-Found : (n i : ℕ) (slots : List (Option A)) → Found slots i n (find_free n i slots)
  unfolding find_free
  find_free-Found zero i slots = λ j above below. absurd (omega arith)
  find_free-Found (suc n) i slots = go (get_elem? slots i) refl (find_free-Found n (i + 1) slots)
    where
      go :
          (x : Option (Option A))
          → get_elem? slots i ≡ x
          → Found slots (i + 1) n (find_free n (i + 1) slots)
          → Found slots i (suc n) (find_free (suc n) i slots)
      go (some none) e rest =
          rw (e, find_free)
            (record {
              from = omega arith;
              inside = omega arith;
              is_free = e;
              taken = λ j above below. absurd (omega arith);
            })
      go none e rest = rw (e, find_free) (find_free-next slots i n _ (λ h. cc) rest)
      go (some (some x)) e rest = rw (e, find_free) (find_free-next slots i n _ (λ h. cc) rest)

  pub slot_at-set_self :
      (slots : List (Option A)) (i : ℕ) (x : Option A)
      → i < length slots
      → slot_at (set slots i x) i ≡ x
  slot_at-set_self slots i x h = rw (get_elem?-set_self slots i x h, slot_at)

  pub slot_at-set_ne :
      (slots : List (Option A)) (i j : ℕ) (x : Option A)
      → i ≢ j
      → slot_at (set slots i x) j ≡ slot_at slots j
  slot_at-set_ne slots i j x h = rw (get_elem?-set_ne slots i j x h, slot_at)

  pub slot_at-lt :
      (slots : List (Option A)) (i : ℕ) (a : A) → slot_at slots i ≡ some a → i < length slots
  slot_at-lt [] i a h = absurd (cc)
  slot_at-lt (x ∷ slots) zero a h = omega arith
  slot_at-lt (x ∷ slots) (suc i) a h = omega (arith, slot_at-lt slots i a h)

  pub slot_at_free :
      (slots : List (Option A)) (i : ℕ) → get_elem? slots i ≡ some none → slot_at slots i ≡ none
  slot_at_free slots i h = rw (h, slot_at)

  pub slot_at_busy :
      (slots : List (Option A)) (i : ℕ)
      → i < length slots
      → get_elem? slots i ≢ some none
      → slot_at slots i ≢ none
  slot_at_busy [] i h busy = absurd (omega arith)
  slot_at_busy (none ∷ slots) zero h busy = absurd (busy refl)
  slot_at_busy (some x ∷ slots) zero h busy = λ e. cc
  slot_at_busy (x ∷ slots) (suc i) h busy = slot_at_busy slots i (omega arith) busy

  pub slot_at-append_last :
      (slots : List (Option A)) (x : Option A) → slot_at (slots ++ (x ∷ [])) (length slots) ≡ x
  slot_at-append_last [] x = refl
  slot_at-append_last (y ∷ slots) x = slot_at-append_last slots x

  pub slot_at-append_ne :
      (slots : List (Option A)) (x : Option A) (i : ℕ)
      → i ≢ length slots
      → slot_at (slots ++ (x ∷ [])) i ≡ slot_at slots i
  slot_at-append_ne [] x zero h = absurd (h refl)
  slot_at-append_ne [] x (suc i) h = refl
  slot_at-append_ne (y ∷ slots) x zero h = refl
  slot_at-append_ne (y ∷ slots) x (suc i) h = slot_at-append_ne slots x i (λ e. h (ap suc e))

  pub slot_at_out : (slots : List (Option A)) (i : ℕ) → length slots ≤ i → slot_at slots i ≡ none
  slot_at_out [] i h = refl
  slot_at_out (x ∷ slots) zero h = absurd (omega arith)
  slot_at_out (x ∷ slots) (suc i) h = slot_at_out slots i (omega arith)
