-- ===== src/Kbuf/Window.antt =====
-- The bytes that a ring holds, oldest first, and how a write to the buffer shows there.
use ross_os.Base.{
  ℕ, zero, suc, ◌+◌, ◌-◌, ◌%◌, ◌≤◌, ◌<◌, ◌≡◌, refl, ap, ap₂, List, [], ◌∷◌, ◌++◌, arith, length,
  get_or, set, get_or-set_ne,
}
use ross_os.Kbuf.{Ring, advance}

-- The `n` bytes from index `t` on, going round at the end of the buffer.
abbrev pub window : List ℕ → ℕ → ℕ → List ℕ
window buf t zero = []
window buf t (suc n) = get_or buf t 0 ∷ window buf (advance t) n

-- How far index `i` lies ahead of index `t`.
abbrev pub distance : ℕ → ℕ → ℕ
distance t i = (i + 256 - t) % 256

abbrev pub count : Ring → ℕ
count r = distance r.tail r.head

abbrev pub contents : Ring → List ℕ
contents r = window r.buffer r.tail (count r)

pub record IsValid (r : Ring) : Type 0 where
  pub sized : length r.buffer ≡ 256
  pub head_in : r.head < 256
  pub tail_in : r.tail < 256

pub length-window : (buf : List ℕ) (t n : ℕ) → length (window buf t n) ≡ n
length-window buf t zero = refl
length-window buf t (suc n) = ap suc (length-window buf (advance t) n)

pub window-set :
    (buf : List ℕ) (t n i x : ℕ)
    → t < 256
    → i < 256
    → n ≤ distance t i
    → window (set buf i x) t n ≡ window buf t n
window-set buf t zero i x ht hi h = refl
window-set buf t (suc n) i x ht hi h =
    ap₂ ◌∷◌ (get_or-set_ne buf i t x 0 (omega arith))
      (window-set buf (advance t) n i x (omega arith) hi (omega arith))

pub window_last :
    (buf : List ℕ) (t n i : ℕ)
    → t < 256
    → i ≡ (t + n) % 256
    → window buf t (suc n) ≡ window buf t n ++ (get_or buf i 0 ∷ [])
window_last buf t zero i ht e = ap (λ k. get_or buf k 0 ∷ []) (omega arith)
window_last buf t (suc n) i ht e =
    ap (λ w. get_or buf t 0 ∷ w) (window_last buf (advance t) n i (omega arith) (omega arith))

pub window_pos :
    (buf : List ℕ) (t n : ℕ)
    → 0 < n
    → window buf t n ≡ get_or buf t 0 ∷ window buf (advance t) (n - 1)
window_pos buf t zero h = absurd (omega arith)
window_pos buf t (suc n) h = ap (λ k. window buf t (suc k)) (omega arith)
