-- ===== src/Writer/Inside.antt =====
-- The writer stays on the screen.
use ross_os.Base.{
  ℕ, zero, suc, ◌+◌, ◌-◌, ◌*◌, ◌≤◌, ◌<◌, ◌≡◌, refl, sym, ap₂, subst, ◌∙◌, ◌&&◌, arith, ltb, ltb→lt,
  leb, ◌==◌, ==_ne, if◌then◌else◌, Bool-cases, inl, inr,
}
use ross_os.Base.Bits.{has_bit}
use ross_os.Base.Bytes.{store}
use ross_os.Writer.{
  term_y, Writer, for_range, fill_rect, newline, draw_dot, draw_glyph, advance, draw_at, put_char,
}

-- `fb'` is `fb` but for pixels below `n`.
Below : ℕ → (fb fb' : ℕ → ℕ) → Type 0
Below n fb fb' = (a : ℕ) → n ≤ a → fb' a ≡ fb a

-- A loop whose every turn keeps to the pixels below `n` keeps to them.
for_range-Below :
    (n k : ℕ) (body : ℕ → (ℕ → ℕ) → ℕ → ℕ) (fb : ℕ → ℕ)
    → ((i : ℕ) → i < k → (g : ℕ → ℕ) → Below n g (body i g))
    → Below n fb (for_range k body fb)
unfolding for_range Below
for_range-Below n zero body fb h a le = refl
for_range-Below n (suc k) body fb h a le =
    h k (omega arith) (for_range k body fb) a le
    ∙ for_range-Below n k body fb (λ i lt. h i (omega (arith, lt))) a le

store-Below : (n i color : ℕ) (fb : ℕ → ℕ) → i < n → Below n fb (store fb i color)
unfolding store Below
store-Below n i color fb lt a le = rw (==_ne a i (omega (arith, lt, le)))

row_inside : (x y w h : ℕ) → x < w → y < h → y * w + x < h * w
row_inside x y w h a b = grind (arith, a, b)

fill_rect-Below :
    (wr : Writer) (x y w h color : ℕ)
    → Below (wr.h * wr.w) wr.framebuffer (fill_rect wr x y w h color).framebuffer
unfolding fill_rect
fill_rect-Below wr x y w h color = for_range-Below (wr.h * wr.w) _ _ _ λ r lr fb.
    for_range-Below (wr.h * wr.w) _ _ fb λ c lc g.
      store-Below (wr.h * wr.w) _ color g
        (row_inside (x + c) (y + r) wr.w wr.h (omega (arith, lc)) (omega (arith, lr)))

newline-Below :
    (wr : Writer) (scale : ℕ) → Below (wr.h * wr.w) wr.framebuffer (newline wr scale).framebuffer
unfolding newline Below
newline-Below wr scale = elim (Bool-cases (leb wr.h (wr.y + (8 * scale + 4) + 8 * scale))) [
  | inl e ↦ rw e (
      fill_rect-Below (record wr { x = 20; y = term_y + 20 }) 0 (term_y + 20) wr.w
        (wr.h - (term_y + 20)) _)
  | inr e ↦ rw e (λ a le. refl)
]

dot-Below :
    (w h px py color : ℕ) (g : ℕ → ℕ)
    → Below (h * w) g (if ltb px w && ltb py h then store g (py * w + px) color else g)
unfolding Below
dot-Below w h px py color g = elim (Bool-cases (ltb px w)) [
  | inr e ↦ rw e (λ a le. refl)
  | inl e ↦ elim (Bool-cases (ltb py h)) [
    | inr e' ↦ rw (e, e') (λ a le. refl)
    | inl e' ↦
        rw (e, e')
          (store-Below (h * w) (py * w + px) color g
            (row_inside px py w h (ltb→lt px w e) (ltb→lt py h e')))
  ]
]

newline-h : (wr : Writer) (scale : ℕ) → (newline wr scale).h ≡ wr.h
unfolding newline fill_rect
newline-h wr scale = ground arith

newline-w : (wr : Writer) (scale : ℕ) → (newline wr scale).w ≡ wr.w
unfolding newline fill_rect
newline-w wr scale = ground arith

module _ (font : ℕ → ℕ → ℕ) where
  draw_dot-Below :
      (wr : Writer) (gx gy color scale : ℕ) (fb : ℕ → ℕ)
      → Below (wr.h * wr.w) fb (draw_dot font wr gx gy color scale fb)
  unfolding draw_dot
  draw_dot-Below wr gx gy color scale fb = for_range-Below (wr.h * wr.w) _ _ _ λ sy _ fb.
      for_range-Below (wr.h * wr.w) _ _ fb
        λ sx _ g. dot-Below wr.w wr.h (wr.x + gx * scale + sx) (wr.y + gy * scale + sy) color g

  draw_glyph-Below :
      (wr : Writer) (ch color scale : ℕ) (fb : ℕ → ℕ)
      → Below (wr.h * wr.w) fb (draw_glyph font wr ch color scale fb)
  unfolding draw_glyph Below
  draw_glyph-Below wr ch color scale fb = for_range-Below (wr.h * wr.w) 8 _ fb λ gy _ fb.
      for_range-Below (wr.h * wr.w) 8 _ fb λ gx _ g.
        elim (Bool-cases (has_bit (font ch gy) (7 - gx))) [
          | inl e ↦ rw e (draw_dot-Below wr gx gy color scale g)
          | inr e ↦ rw e (λ a le. refl)
        ]

  draw_at-Below :
      (wr : Writer) (ch color scale : ℕ)
      → Below (wr.h * wr.w) wr.framebuffer (draw_at font wr ch color scale).framebuffer
  unfolding draw_at
  draw_at-Below wr ch color scale = draw_glyph-Below wr ch color scale wr.framebuffer

  draw_on_new_line-Below :
      (wr : Writer) (ch color scale : ℕ)
      → Below
          (wr.h * wr.w)
          wr.framebuffer
          (draw_at font (newline wr scale) ch color scale).framebuffer
  unfolding Below
  draw_on_new_line-Below wr ch color scale a le =
      draw_at-Below (newline wr scale) ch color scale a (
        subst (λ n. n ≤ a)
          (ap₂ (λ h w. h * w) (sym (newline-h wr scale)) (sym (newline-w wr scale))) le)
      ∙ newline-Below wr scale a le

  -- A character, a line feed among them, changes no word of memory behind the framebuffer, wherever
  -- the cursor is, whatever the font, the colour and the scale: neither its dots nor the wrap to the
  -- top of the terminal.
  pub put_char_stays_inside :
      (wr : Writer) (ch color scale a : ℕ)
      → wr.h * wr.w ≤ a
      → (put_char font wr ch color scale).framebuffer a ≡ wr.framebuffer a
  unfolding put_char Below
  put_char_stays_inside wr ch color scale a le = elim (Bool-cases (ch == b'\n')) [
    | inl e ↦ rw e (newline-Below wr scale a le)
    | inr e ↦ elim (Bool-cases (leb 128 ch)) [
      | inl e' ↦ rw (e, e')
      | inr e' ↦ elim (Bool-cases (ltb wr.w (wr.x + advance font scale))) [
        | inl e'' ↦ rw (e, e', e'') (draw_on_new_line-Below wr ch color scale a le)
        | inr e'' ↦ rw (e, e', e'') (draw_at-Below wr ch color scale a le)
      ]
    ]
  ]
