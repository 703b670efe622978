-- ===== src/Writer.antt =====
-- ross-kernel/src/writer.rs: the text cursor and the characters drawn in the framebuffer, which is a
-- function from a pixel's index to its colour. `font` stands for the table of ross-common/src/font.rs:
-- the byte of each row of the glyph of a character.
pub mod Inside
use ross_os.Base.{
  ℕ, zero, suc, ◌+◌, ◌-◌, ◌*◌, List, [], ◌∷◌, Bool, true, false, ◌&&◌, min, ltb, leb, ◌==◌,
  if◌then◌else◌,
}
use ross_os.Base.Bits.{has_bit}
use ross_os.Base.Bytes.{store}

abbrev pub bg : ℕ
bg = 0x00180702

abbrev pub fg : ℕ
fg = 0x00FFFFFF

abbrev pub left_margin : ℕ
left_margin = 20

abbrev pub term_y : ℕ
term_y = 60

-- `shell::TERM_Y` is `term_y`.
pub record Writer : Type 0 where
  pub framebuffer : ℕ → ℕ
  pub w : ℕ
  pub h : ℕ
  pub x : ℕ
  pub y : ℕ
  pub input_x : ℕ

-- `Writer::new` on the fields that it takes from `BootInfo`.
abbrev pub new_writer : (ℕ → ℕ) → (w h : ℕ) → Writer
new_writer framebuffer w h = record {
  framebuffer = framebuffer;
  w = w;
  h = h;
  x = left_margin;
  y = 50;
  input_x = left_margin;
}

abbrev pub set_pos : Writer → (x y : ℕ) → Writer
set_pos wr x y = record wr { x = x; y = y }

-- `for i in 0..n`.
unfoldable pub for_range : {S : Type 0} → ℕ → (ℕ → S → S) → S → S
for_range zero body s = s
for_range (suc n) body s = body n (for_range n body s)

-- The loops over `y..(y + h).min(self.h)` and `x..(x + w).min(self.w)`.
unfoldable pub fill_rect : Writer → (x y w h color : ℕ) → Writer
fill_rect wr x y w h color = record wr {
  framebuffer =
      for_range (min (y + h) wr.h - y)
        (λ r. for_range (min (x + w) wr.w - x) (λ c fb. store fb ((y + r) * wr.w + (x + c)) color))
        wr.framebuffer;
}

-- For a screen of at least 80 rows: on a lower one the source's `h - y` is out of range.
unfoldable pub newline : Writer → ℕ → Writer
newline wr scale =
    let y = wr.y + (8 * scale + 4) in
    if leb wr.h (y + 8 * scale)
    then fill_rect (record wr { x = left_margin; y = term_y + 20 }) 0 (term_y + 20) wr.w
        (wr.h - (term_y + 20)) bg
    else record wr { x = left_margin; y = y }

module _ (font : ℕ → ℕ → ℕ) where
  -- The pixels of one lit bit of the glyph, `scale` wide and high.
  unfoldable pub draw_dot : Writer → (gx gy color scale : ℕ) → (ℕ → ℕ) → ℕ → ℕ
  draw_dot wr gx gy color scale = for_range scale (λ sy. for_range scale (λ sx fb.
      let px = wr.x + gx * scale + sx in
      let py = wr.y + gy * scale + sy in
      if ltb px wr.w && ltb py wr.h then store fb (py * wr.w + px) color else fb))

  unfoldable pub draw_glyph : Writer → (ch color scale : ℕ) → (ℕ → ℕ) → ℕ → ℕ
  draw_glyph wr ch color scale = for_range 8 (λ gy.
      for_range 8
        (λ gx fb. if has_bit (font ch gy) (7 - gx) then draw_dot wr gx gy color scale fb else fb))

  abbrev pub advance : ℕ → ℕ
  advance scale = 8 * scale + scale

  draw_at : Writer → (ch color scale : ℕ) → Writer
  draw_at wr ch color scale = record wr {
    framebuffer = draw_glyph wr ch color scale wr.framebuffer;
    x = wr.x + advance scale;
  }

  unfoldable pub put_char : Writer → (ch color scale : ℕ) → Writer
  unfolding draw_at
  put_char wr ch color scale =
      if ch == b'\n'
      then newline wr scale
      else if leb 128 ch
      then wr
      else draw_at (if ltb wr.w (wr.x + advance scale) then newline wr scale else wr) ch color scale

  unfoldable pub put_str : Writer → List ℕ → (color scale : ℕ) → Writer
  put_str wr [] color scale = wr
  put_str wr (b ∷ bs) color scale = put_str (put_char wr b color scale) bs color scale

unfoldable pub backspace : Writer → ℕ → Writer
backspace wr scale =
    let char_w = 8 * scale + scale in
    if leb (wr.input_x + char_w) wr.x
    then fill_rect (record wr { x = wr.x - char_w }) (wr.x - char_w) wr.y char_w (8 * scale) bg
    else wr

abbrev pub mark_input_start : Writer → Writer
mark_input_start wr = record wr { input_x = wr.x }
