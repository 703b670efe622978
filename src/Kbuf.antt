-- ===== src/Kbuf.antt =====
-- ross-kernel/src/kbuf.rs: the ring of scancodes between the IRQ1 handler and the main loop.
pub mod Window
pub mod Refine
pub mod Races
pub mod Scancode
use ross_os.Base.{
  ℕ, ◌+◌, ◌%◌, List, Option, none, some, ◌==◌, if◌then◌else◌, get_elem?, set, replicate,
}

abbrev pub buf_size : ℕ
buf_size = 256

-- `BUFFER`, `HEAD` (next write index) and `TAIL` (next read index).
pub record Ring : Type 0 where
  pub buffer : List ℕ
  pub head : ℕ
  pub tail : ℕ

abbrev pub initial : Ring
initial = record { buffer = replicate 256 0; head = 0; tail = 0 }

abbrev pub advance : ℕ → ℕ
advance i = (i + 1) % buf_size

-- A byte that finds the ring full is dropped.
unfoldable pub push : Ring → ℕ → Ring
push r byte =
    if advance r.head == r.tail
    then r
    else record r { buffer = set r.buffer r.head byte; head = advance r.head }

-- `none` for an empty ring. The read is in range wherever `TAIL < BUF_SIZE`.
unfoldable pub pop : Ring → Option ℕ × Ring
pop r =
    if r.tail == r.head
    then (none, r)
    else (get_elem? r.buffer r.tail, record r { tail = advance r.tail })
