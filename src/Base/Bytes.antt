-- ===== src/Base/Bytes.antt =====
-- Memory as a function from addresses to values: words and runs of bytes in it, slices that are
-- written over, and little-endian numbers.
use Prim.Native.Nat.{ℕ, zero, suc, ◌+◌, ◌-◌, ◌*◌, ◌/◌, ◌%◌, ◌^◌, ◌<◌, ◌≤◌}
use mathlib.Core.Path.{◌≡◌, refl, ap, ap₂, sym, ◌∙◌, fun_ext}
use mathlib.Core.Logic.{◌⊎◌, inl, inr}
use mathlib.Core.List.{List, [], ◌∷◌, ◌++◌}
use native.Mathlib.Omega.{arith}
use native.Mathlib.Decide.{dec_lt}
use ross_os.Base.Lists.{length, get_or, take, drop}
use ross_os.Base.Tests.{◌==◌, ==_ne, ==_refl, if◌then◌else◌}

pub lt_or_le : (a b : ℕ) → (a < b) ⊎ (b ≤ a)
lt_or_le a b = elim (dec_lt a b) [ yes h ↦ inl h | no h ↦ inr (omega (arith, h)) ]

unfoldable pub store : (ℕ → ℕ) → ℕ → ℕ → ℕ → ℕ
store m i v = λ a. if a == i then v else m a

-- The `len` bytes at `ptr`.
unfoldable pub load_bytes : (ℕ → ℕ) → (ptr len : ℕ) → List ℕ
load_bytes m ptr zero = []
load_bytes m ptr (suc len) = m ptr ∷ load_bytes m (ptr + 1) len

unfoldable pub store_bytes : (ℕ → ℕ) → ℕ → List ℕ → ℕ → ℕ
store_bytes m ptr [] = m
store_bytes m ptr (b ∷ bs) = store_bytes (store m ptr b) (ptr + 1) bs

-- `copy_from_slice` into the slice of `xs` that starts at `i`; what would lie behind the end is dropped.
unfoldable pub overwrite : List ℕ → ℕ → List ℕ → List ℕ
overwrite [] i bs = []
overwrite (x ∷ xs) zero [] = x ∷ xs
overwrite (x ∷ xs) zero (b ∷ bs) = b ∷ overwrite xs zero bs
overwrite (x ∷ xs) (suc i) bs = x ∷ overwrite xs i bs

-- `from_le_bytes`.
unfoldable pub from_le : List ℕ → ℕ
from_le [] = 0
from_le (b ∷ bs) = b + 256 * from_le bs

-- `to_le_bytes` of a number of `n` bytes.
unfoldable pub to_le : ℕ → ℕ → List ℕ
to_le zero v = []
to_le (suc n) v = v % 256 ∷ to_le n (v / 256)

pub length-load_bytes : (m : ℕ → ℕ) (ptr len : ℕ) → length (load_bytes m ptr len) ≡ len
unfolding load_bytes
length-load_bytes m ptr zero = refl
length-load_bytes m ptr (suc len) = ap suc (length-load_bytes m (ptr + 1) len)

pub length-overwrite : (xs : List ℕ) (i : ℕ) (bs : List ℕ) → length (overwrite xs i bs) ≡ length xs
unfolding overwrite
length-overwrite [] i bs = refl
length-overwrite (x ∷ xs) zero [] = refl
length-overwrite (x ∷ xs) zero (b ∷ bs) = ap suc (length-overwrite xs zero bs)
length-overwrite (x ∷ xs) (suc i) bs = ap suc (length-overwrite xs i bs)

pub length-to_le : (n v : ℕ) → length (to_le n v) ≡ n
unfolding to_le
length-to_le zero v = refl
length-to_le (suc n) v = ap suc (length-to_le n (v / 256))

pub get_or-load_bytes :
    (m : ℕ → ℕ) (ptr len i : ℕ) → i < len → get_or (load_bytes m ptr len) i 0 ≡ m (ptr + i)
unfolding load_bytes
get_or-load_bytes m ptr zero i h = absurd (omega arith)
get_or-load_bytes m ptr (suc len) zero h = ap m (omega arith)
get_or-load_bytes m ptr (suc len) (suc i) h =
    get_or-load_bytes m (ptr + 1) len i (omega arith) ∙ ap m (omega arith)

pub store_bytes_before :
    (m : ℕ → ℕ) (ptr : ℕ) (bs : List ℕ) (a : ℕ) → a < ptr → store_bytes m ptr bs a ≡ m a
unfolding store_bytes store
store_bytes_before m ptr [] a h = refl
store_bytes_before m ptr (b ∷ bs) a h =
    store_bytes_before (store m ptr b) (ptr + 1) bs a (omega (arith, h))
    ∙ rw (==_ne a ptr (omega (arith, h)))

pub store_bytes_behind :
    (m : ℕ → ℕ) (ptr : ℕ) (bs : List ℕ) (a : ℕ) → ptr + length bs ≤ a → store_bytes m ptr bs a ≡ m a
unfolding store_bytes store
store_bytes_behind m ptr [] a h = refl
store_bytes_behind m ptr (b ∷ bs) a h =
    store_bytes_behind (store m ptr b) (ptr + 1) bs a (omega (arith, h))
    ∙ rw (==_ne a ptr (omega (arith, h)))

pub store_bytes_in :
    (m : ℕ → ℕ) (ptr : ℕ) (bs : List ℕ) (i : ℕ)
    → i < length bs
    → store_bytes m ptr bs (ptr + i) ≡ get_or bs i 0
unfolding store_bytes store
store_bytes_in m ptr [] i h = absurd (omega arith)
store_bytes_in m ptr (b ∷ bs) zero h =
    ap (store_bytes (store m ptr b) (ptr + 1) bs) {x = ptr + 0} {y = ptr} (omega arith)
    ∙ store_bytes_before (store m ptr b) (ptr + 1) bs ptr (omega arith)
    ∙ rw (==_refl ptr)
store_bytes_in m ptr (b ∷ bs) (suc i) h =
    ap (store_bytes (store m ptr b) (ptr + 1) bs) {y = ptr + 1 + i} (omega arith)
    ∙ store_bytes_in (store m ptr b) (ptr + 1) bs i (omega arith)

-- Reading back what has been stored.
pub load_bytes-store_bytes :
    (m : ℕ → ℕ) (ptr : ℕ) (bs : List ℕ) → load_bytes (store_bytes m ptr bs) ptr (length bs) ≡ bs
unfolding load_bytes store_bytes store
load_bytes-store_bytes m ptr [] = refl
load_bytes-store_bytes m ptr (b ∷ bs) =
    ap₂ (λ x xs. x ∷ xs)
      (store_bytes_before (store m ptr b) (ptr + 1) bs ptr (omega arith) ∙ rw (==_refl ptr))
      (load_bytes-store_bytes (store m ptr b) (ptr + 1) bs)

-- Memories that agree on the range load alike.
pub load_bytes_same :
    (m m' : ℕ → ℕ) (ptr len : ℕ)
    → ((a : ℕ) → ptr ≤ a → a < ptr + len → m' a ≡ m a)
    → load_bytes m' ptr len ≡ load_bytes m ptr len
unfolding load_bytes
load_bytes_same m m' ptr zero h = refl
load_bytes_same m m' ptr (suc len) h =
    ap₂ (λ x xs. x ∷ xs) (h ptr (omega arith) (omega arith))
      (load_bytes_same m m' (ptr + 1) len (λ a l u. h a (omega (arith, l)) (omega (arith, u))))

pub load_bytes-add :
    (m : ℕ → ℕ) (ptr a b : ℕ)
    → load_bytes m ptr (a + b) ≡ load_bytes m ptr a ++ load_bytes m (ptr + a) b
unfolding load_bytes
load_bytes-add m ptr zero b = ap₂ (load_bytes m) {y = ptr + 0} (omega arith) (omega arith)
load_bytes-add m ptr (suc a) b =
    ap (load_bytes m ptr) {y = suc (a + b)} (omega arith)
    ∙ ap (λ xs. m ptr ∷ xs)
        (load_bytes-add m (ptr + 1) a b
          ∙ ap (λ q. load_bytes m (ptr + 1) a ++ load_bytes m q b) {y = ptr + suc a} (omega arith))

pub store_bytes-append :
    (m : ℕ → ℕ) (ptr : ℕ) (xs ys : List ℕ)
    → store_bytes m ptr (xs ++ ys) ≡ store_bytes (store_bytes m ptr xs) (ptr + length xs) ys
unfolding store_bytes
store_bytes-append m ptr [] ys = ap (λ p. store_bytes m p ys) {y = ptr + 0} (omega arith)
store_bytes-append m ptr (x ∷ xs) ys =
    store_bytes-append (store m ptr x) (ptr + 1) xs ys
    ∙ ap (λ p. store_bytes (store_bytes (store m ptr x) (ptr + 1) xs) p ys)
        {y = ptr + suc (length xs)} (omega arith)

pub get_or-overwrite_before :
    (xs : List ℕ) (i : ℕ) (bs : List ℕ) (j : ℕ)
    → j < i
    → get_or (overwrite xs i bs) j 0 ≡ get_or xs j 0
unfolding overwrite
get_or-overwrite_before [] i bs j h = refl
get_or-overwrite_before (x ∷ xs) zero bs j h = absurd (omega arith)
get_or-overwrite_before (x ∷ xs) (suc i) bs zero h = refl
get_or-overwrite_before (x ∷ xs) (suc i) bs (suc j) h =
    get_or-overwrite_before xs i bs j (omega arith)

pub get_or-overwrite_in :
    (xs : List ℕ) (i : ℕ) (bs : List ℕ) (j : ℕ)
    → j < length bs
    → i + j < length xs
    → get_or (overwrite xs i bs) (i + j) 0 ≡ get_or bs j 0
unfolding overwrite
get_or-overwrite_in [] i bs j h k = absurd (omega arith)
get_or-overwrite_in (x ∷ xs) zero [] j h k = absurd (omega arith)
get_or-overwrite_in (x ∷ xs) zero (b ∷ bs) zero h k = refl
get_or-overwrite_in (x ∷ xs) zero (b ∷ bs) (suc j) h k =
    ap (λ n. get_or (b ∷ overwrite xs zero bs) n 0) {y = suc (0 + j)} (omega arith)
    ∙ get_or-overwrite_in xs zero bs j (omega arith) (omega arith)
get_or-overwrite_in (x ∷ xs) (suc i) bs j h k =
    ap (λ n. get_or (x ∷ overwrite xs i bs) n 0) {y = suc (i + j)} (omega arith)
    ∙ get_or-overwrite_in xs i bs j h (omega arith)

pub get_or-overwrite_behind :
    (xs : List ℕ) (i : ℕ) (bs : List ℕ) (j : ℕ)
    → i + length bs ≤ j
    → get_or (overwrite xs i bs) j 0 ≡ get_or xs j 0
unfolding overwrite
get_or-overwrite_behind [] i bs j h = refl
get_or-overwrite_behind (x ∷ xs) zero [] j h = refl
get_or-overwrite_behind (x ∷ xs) zero (b ∷ bs) zero h = absurd (omega arith)
get_or-overwrite_behind (x ∷ xs) zero (b ∷ bs) (suc j) h =
    get_or-overwrite_behind xs zero bs j (omega arith)
get_or-overwrite_behind (x ∷ xs) (suc i) bs zero h = absurd (omega arith)
get_or-overwrite_behind (x ∷ xs) (suc i) bs (suc j) h =
    get_or-overwrite_behind xs i bs j (omega arith)

drop-append : (xs ys : List ℕ) → drop (length xs) (xs ++ ys) ≡ ys
drop-append [] ys = refl
drop-append (x ∷ xs) ys = drop-append xs ys

take-append : (xs ys : List ℕ) → take (length xs) (xs ++ ys) ≡ xs
take-append [] ys = refl
take-append (x ∷ xs) ys = ap (λ r. x ∷ r) (take-append xs ys)

-- A slice of a run of bytes is a run of bytes.
pub slice-load_bytes :
    (m : ℕ → ℕ) (ptr len i n : ℕ)
    → i + n ≤ len
    → take n (drop i (load_bytes m ptr len)) ≡ load_bytes m (ptr + i) n
slice-load_bytes m ptr len i n h =
    ap (λ k. take n (drop i (load_bytes m ptr k))) {y = i + (n + (len - i - n))} (omega (arith, h))
    ∙ ap (λ xs. take n (drop i xs)) (load_bytes-add m ptr i (n + (len - i - n)))
    ∙ ap (λ k. take n (drop k (load_bytes m ptr i ++ rest))) (sym (length-load_bytes m ptr i))
    ∙ ap (take n) (drop-append (load_bytes m ptr i) rest)
    ∙ ap (take n) (load_bytes-add m (ptr + i) n (len - i - n))
    ∙ ap (λ k. take k (load_bytes m (ptr + i) n ++ load_bytes m (ptr + i + n) (len - i - n)))
        (sym (length-load_bytes m (ptr + i) n))
    ∙ take-append (load_bytes m (ptr + i) n) (load_bytes m (ptr + i + n) (len - i - n))
  where
    rest : List ℕ
    rest = load_bytes m (ptr + i) (n + (len - i - n))

pub from_le-to_le : (v : ℕ) → v < 2 ^ 32 → from_le (to_le 4 v) ≡ v
unfolding from_le to_le
from_le-to_le v h = omega (arith, h)

pub take_all : (n : ℕ) (xs : List ℕ) → length xs ≤ n → take n xs ≡ xs
take_all zero [] h = refl
take_all (suc n) [] h = refl
take_all zero (x ∷ xs) h = absurd (omega (arith, h))
take_all (suc n) (x ∷ xs) h = ap (λ r. x ∷ r) (take_all n xs (omega (arith, h)))

-- Reading a block, writing over a part of it and storing it back is storing the part.
module _ (m : ℕ → ℕ) (ptr len i : ℕ) (bs : List ℕ) (fits : i + length bs ≤ len) where
  abbrev pub patched : List ℕ
  patched = overwrite (load_bytes m ptr len) i bs

  sized : length patched ≡ len
  sized = length-overwrite (load_bytes m ptr len) i bs ∙ length-load_bytes m ptr len

  at_offset : (j : ℕ) → j < len → get_or patched j 0 ≡ store_bytes m (ptr + i) bs (ptr + j)
  at_offset j h = elim (lt_or_le j i) [
    | inl below ↦
        get_or-overwrite_before (load_bytes m ptr len) i bs j below
        ∙ get_or-load_bytes m ptr len j h
        ∙ sym (store_bytes_before m (ptr + i) bs (ptr + j) (omega (arith, below)))
    | inr from ↦ elim (lt_or_le j (i + length bs)) [
      | inl inside ↦
          ap (λ n. get_or (overwrite (load_bytes m ptr len) i bs) n 0) {y = i + (j - i)}
            (omega (arith, from))
          ∙ get_or-overwrite_in (load_bytes m ptr len) i bs (j - i) (omega (arith, inside, from))
              (omega (arith, h, from, length-load_bytes m ptr len))
          ∙ sym (store_bytes_in m (ptr + i) bs (j - i) (omega (arith, inside, from)))
          ∙ ap (store_bytes m (ptr + i) bs) {y = ptr + j} (omega (arith, from))
      | inr behind ↦
          get_or-overwrite_behind (load_bytes m ptr len) i bs j behind
          ∙ get_or-load_bytes m ptr len j h
          ∙ sym (store_bytes_behind m (ptr + i) bs (ptr + j) (omega (arith, behind)))
    ]
  ]

  pub store_bytes-overwrite : (a : ℕ) → store_bytes m ptr patched a ≡ store_bytes m (ptr + i) bs a
  store_bytes-overwrite a = elim (lt_or_le a ptr) [
    | inl below ↦
        store_bytes_before m ptr patched a below
        ∙ sym (store_bytes_before m (ptr + i) bs a (omega (arith, below)))
    | inr from ↦ elim (lt_or_le a (ptr + len)) [
      | inl inside ↦
          ap (store_bytes m ptr patched) {y = ptr + (a - ptr)} (omega (arith, from))
          ∙ store_bytes_in m ptr patched (a - ptr) (omega (arith, inside, from, sized))
          ∙ at_offset (a - ptr) (omega (arith, inside, from))
          ∙ ap (store_bytes m (ptr + i) bs) {y = a} (omega (arith, from))
      | inr behind ↦
          store_bytes_behind m ptr patched a (omega (arith, behind, sized))
          ∙ sym (store_bytes_behind m (ptr + i) bs a (omega (arith, behind)))
    ]
  ]

  pub store_bytes-patched : store_bytes m ptr patched ≡ store_bytes m (ptr + i) bs
  store_bytes-patched = fun_ext store_bytes-overwrite
