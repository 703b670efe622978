-- ===== src/Shell/Line.antt =====
-- The line editor against a list of bytes, and the invariant of the shell's buffers.
use ross_os.Base.{
  ℕ, zero, suc, ◌+◌, ◌-◌, ◌≤◌, ◌<◌, ◌≡◌, ◌≢◌, refl, ap, sym, ◌∙◌, List, [], ◌∷◌, ◌++◌, true, ◌==◌,
  ==_ne, ltb, if◌then◌else◌, Bool-cases, inl, inr, length, take, set, get_or, length-take, arith,
}
use ross_os.Base.Slices.{take-take}
use ross_os.Vfs.{slash}
use ross_os.Shell.{State, Shell, Services, max_line, max_cwd}
use ross_os.Shell.Files.{is_shown}
use ross_os.Shell.Run.{returned, line, delete_byte, type_byte, active_byte, handle_in, handle_byte}

-- The line after a byte other than Enter: backspace takes the last byte away, and a printable byte is
-- appended while there are fewer than 128.
unfoldable pub edit : List ℕ → (ch : ℕ) → List ℕ
edit l ch =
    if ch == 0x08
    then take (length l - 1) l
    else if is_shown ch
    then if ltb (length l) max_line then l ++ (ch ∷ []) else l
    else l

-- The line and the path lie in their buffers, the line is printable and the path is absolute.
pub record IsBuffers (line_buf : List ℕ) (line_len : ℕ) (cwd_buf : List ℕ) (cwd_len : ℕ)
    : Type 0 where
  pub line_buffer : length line_buf ≡ max_line
  pub line_fits : line_len ≤ max_line
  pub printable : (i : ℕ) → i < line_len → is_shown (get_or line_buf i 0) ≡ true
  pub cwd_buffer : length cwd_buf ≡ max_cwd
  pub cwd_fits : cwd_len ≤ max_cwd
  pub cwd_some : 1 ≤ cwd_len
  pub absolute : get_or cwd_buf 0 0 ≡ slash

abbrev pub IsShell : {World Node : Type 0} → Shell World Node → Type 0
IsShell s = IsBuffers s.line_buf s.line_len s.cwd_buf s.cwd_len

take_shorter :
    (n : ℕ) (xs : List ℕ)
    → n ≤ length xs
    → take (length (take n xs) - 1) (take n xs) ≡ take (n - 1) xs
take_shorter n xs h =
    ap (λ k. take (k - 1) (take n xs)) (omega (arith, h, length-take n xs))
    ∙ take-take (n - 1) n xs (omega arith)

take-set :
    (xs : List ℕ) (n v : ℕ) → n < length xs → take (n + 1) (set xs n v) ≡ take n xs ++ (v ∷ [])
take-set [] n v h = absurd (omega (arith, h))
take-set (x ∷ xs) zero v h = refl
take-set (x ∷ xs) (suc n) v h =
    ap (λ k. take k (x ∷ set xs n v)) {y = suc (n + 1)} (omega arith)
    ∙ ap (λ r. x ∷ r) (take-set xs n v (omega (arith, h)))

module _ {World Node : Type 0} (services : Services World Node) where
  handle_byte_active :
      (s : Shell World Node) (ch : ℕ)
      → s.state ≡ State.active
      → handle_byte services s ch ≡ active_byte services s ch
  unfolding handle_byte handle_in
  handle_byte_active s ch active = ap (λ st. handle_in services st s ch) active

  delete_byte-edit :
      (s : Shell World Node)
      → IsShell s
      → line (delete_byte services s) ≡ take (length (line s) - 1) (line s)
  unfolding delete_byte
  delete_byte-edit s ok = elim (Bool-cases (ltb 0 s.line_len)) [
    | inl some_left ↦
        rw some_left
          (sym (take_shorter s.line_len s.line_buf (omega (arith, ok.line_fits, ok.line_buffer))))
    | inr empty ↦
        let none_left : s.line_len ≡ 0 = ground arith in
        rw empty (
          sym (
            take_shorter s.line_len s.line_buf (omega (arith, ok.line_fits, ok.line_buffer))
            ∙ ap (λ n. take n s.line_buf) (omega (arith, none_left))))
  ]

  type_byte-edit :
      (s : Shell World Node) (ch : ℕ)
      → IsShell s
      → line (type_byte services s ch)
        ≡ (if ltb (length (line s)) max_line then line s ++ (ch ∷ []) else line s)
  unfolding type_byte
  type_byte-edit s ch ok =
      let whole : length (line s) ≡ s.line_len =
        omega (arith, length-take s.line_len s.line_buf, ok.line_fits, ok.line_buffer) in
      rw whole (elim (Bool-cases (ltb s.line_len max_line)) [
        | inl more ↦
            let room : s.line_len < max_line = ground arith in
            rw more (take-set s.line_buf s.line_len ch (omega (arith, room, ok.line_buffer)))
        | inr full ↦ rw full refl
      ])

  active_byte-edit :
      (s : Shell World Node) (ch : ℕ)
      → IsShell s
      → ch ≢ b'\n'
      → (s' : Shell World Node) × (active_byte services s ch ≡ returned s')
        × (line s' ≡ edit (line s) ch)
  unfolding active_byte edit
  active_byte-edit s ch ok other = elim (Bool-cases (ch == 0x08)) [
    | inl e ↦ rw (==_ne ch b'\n' other, e) (delete_byte services s, refl, delete_byte-edit s ok)
    | inr e ↦ elim (Bool-cases (is_shown ch)) [
      | inl shown ↦
          rw (==_ne ch b'\n' other, e, shown)
            (type_byte services s ch, refl, type_byte-edit s ch ok)
      | inr hidden ↦ rw (==_ne ch b'\n' other, e, hidden) (s, refl, refl)
    ]
  ]

  -- Every byte other than Enter that is typed into an active shell with well-formed buffers
  -- changes the line as `edit` says, and returns.
  pub handle_byte-edit :
      (s : Shell World Node) (ch : ℕ)
      → IsShell s
      → s.state ≡ State.active
      → ch ≢ b'\n'
      → (s' : Shell World Node) × (handle_byte services s ch ≡ returned s')
        × (line s' ≡ edit (line s) ch)
  handle_byte-edit s ch ok active other =
      let (s', e, edited) = active_byte-edit s ch ok other in
      (s', handle_byte_active s ch active ∙ e, edited)
