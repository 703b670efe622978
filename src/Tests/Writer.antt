-- ===== src/Tests/Writer.antt =====
-- The writer at a concrete input.
use ross_os.Base.{◌≡◌, arith}
use ross_os.Writer.{new_writer, put_char}
use ross_os.Writer.Inside.{put_char_stays_inside}

-- A letter of full blocks at the lower right of a small screen: it goes to the next line, which wraps.
put_char_stays_inside_example :
    (put_char
        (λ ch row. 0xFF)
        (record (new_writer (λ a. 0) 32 100) { x = 30; y = 90 })
        b'A'
        7
        1).framebuffer
      3200
    ≡ 0
put_char_stays_inside_example =
    put_char_stays_inside (λ ch row. 0xFF) (record (new_writer (λ a. 0) 32 100) { x = 30; y = 90 })
      b'A' 7 1 3200 (omega arith)
