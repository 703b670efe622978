-- ===== src/Tests/Kbuf.antt =====
-- The scancode ring at concrete inputs.
use ross_os.Base.{ℕ, ◌≡◌, ◌≤◌, ◌++◌, refl, List, [], ◌∷◌, none, some, arith, length, replicate}
use ross_os.Kbuf.{Ring, push, pop}
use ross_os.Kbuf.Window.{IsValid, contents}
use ross_os.Kbuf.Refine.{store, fetch, run, run_queue, run_refines}
use ross_os.Kbuf.Races.{System, Producer, Event, interrupt, produce, consume, step, boot}
use ross_os.Kbuf.Races
use ross_os.Kbuf.Races.Order.{interleaved_fifo, drop_when_full}
use ross_os.Kbuf.Scancode.{scancode_to_ascii, scancode_injective}

-- Two bytes, the second past the end of the buffer.
abbrev wrapped : Ring
wrapped = record { buffer = 9 ∷ replicate 254 0 ++ (8 ∷ []); head = 1; tail = 255 }

wrapped-IsValid : IsValid wrapped
wrapped-IsValid = omega arith

run_refines_example :
    run wrapped (store 7 ∷ fetch ∷ fetch ∷ fetch ∷ fetch ∷ [])
    ≡ run_queue (8 ∷ 9 ∷ []) (store 7 ∷ fetch ∷ fetch ∷ fetch ∷ fetch ∷ [])
run_refines_example =
    run_refines (store 7 ∷ fetch ∷ fetch ∷ fetch ∷ fetch ∷ []) wrapped wrapped-IsValid

run-wrapped :
    run wrapped (store 7 ∷ fetch ∷ fetch ∷ fetch ∷ fetch ∷ [])
    ≡ some 8 ∷ some 9 ∷ some 7 ∷ none ∷ []
unfolding run push pop
run-wrapped = refl

-- An interrupt that comes while the main loop is in the middle of a `pop`.
abbrev schedule : List Event
schedule =
    interrupt 30
    ∷ produce
    ∷ produce
    ∷ produce
    ∷ consume
    ∷ consume
    ∷ interrupt 48
    ∷ produce
    ∷ consume
    ∷ produce
    ∷ consume
    ∷ produce
    ∷ []

interleaved_fifo_example :
    let s = Races.run boot schedule in
    (s.accepted ≡ s.delivered ++ contents s.ring) × (length (contents s.ring) ≤ 255)
interleaved_fifo_example = interleaved_fifo schedule

key_a : scancode_to_ascii 0x1E ≡ some b'a'
unfolding scancode_to_ascii
key_a = refl

scancode_injective_example : ◌≡◌ {A = ℕ} 0x1E 0x1E
scancode_injective_example = scancode_injective 0x1E 0x1E b'a' key_a key_a

-- 255 bytes are accepted; the next interrupt finds the ring full.
fill : ℕ → List Event
fill ℕ.zero = interrupt 1 ∷ []
fill (ℕ.suc n) = interrupt 1 ∷ produce ∷ produce ∷ produce ∷ fill n

filled_loading : (Races.run boot (fill 255)).producer ≡ Producer.loaded 1 255
unfolding Races.run boot step fill
filled_loading = refl

filled_drops : (step (Races.run boot (fill 255)) produce).producer ≡ Producer.idle
unfolding Races.run boot step fill
filled_drops = refl

drop_when_full_example : length (contents (Races.run boot (fill 255)).ring) ≡ 255
drop_when_full_example = drop_when_full (fill 255) 1 255 filled_loading filled_drops
