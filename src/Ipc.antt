-- ===== src/Ipc.antt =====
-- ross-kernel/src/ipc.rs: anonymous byte pipes, one bounded buffer for each id.
pub mod Table
pub mod Stream
pub mod Retain
use ross_os.Base.{
  ℕ, zero, suc, ◌+◌, ◌-◌, ◌≤◌, List, [], ◌∷◌, ◌++◌, Option, none, some, Bool, true, false, min,
  length, set, slot_at, find_free, take, drop, ltb, leb, if◌then◌else◌,
}

abbrev pub max_pipe_bytes : ℕ
max_pipe_bytes = 4096

abbrev pub max_pipes : ℕ
max_pipes = 64

-- `buffer`: the front of the deque is the head of the list.
pub record Pipe : Type 0 where
  pub buffer : List ℕ
  pub closed : Bool

-- `PipeTable`: `none` is a freed slot.
abbrev pub PipeTable : Type 0
PipeTable = List (Option Pipe)

abbrev pub fresh_pipe : Pipe
fresh_pipe = record { buffer = []; closed = false }

create_at : PipeTable → Option ℕ → Option ℕ × PipeTable
create_at t (some i) = (some i, set t i (some fresh_pipe))
create_at t none =
    if leb max_pipes (length t) then (none, t) else (some (length t), t ++ (some fresh_pipe ∷ []))

-- The first free slot is used again; failing that, the table grows up to 64 slots.
unfoldable pub create : PipeTable → Option ℕ × PipeTable
unfolding create_at
create t = create_at t (find_free (length t) 0 t)

-- How many bytes go in: what is free of 4096, by a saturating subtraction.
abbrev pub accepted : Pipe → List ℕ → ℕ
accepted p bytes = min (max_pipe_bytes - length p.buffer) (length bytes)

write_to : PipeTable → ℕ → List ℕ → Option Pipe → Option ℕ × PipeTable
write_to t id bytes none = (none, t)
write_to t id bytes (some p) = if p.closed then (none, t) else (
  some (accepted p bytes),
  set t id (some (record p { buffer = p.buffer ++ take (accepted p bytes) bytes })),
)

-- `none` stands for `Err(())`.
unfoldable pub write : PipeTable → ℕ → List ℕ → Option ℕ × PipeTable
unfolding write_to
write t id bytes = write_to t id bytes (slot_at t id)

read_from : PipeTable → ℕ → ℕ → Option Pipe → Option (List ℕ) × PipeTable
read_from t id len none = (none, t)
read_from t id len (some p) =
    let n = min len (length p.buffer) in
    (some (take n p.buffer), set t id (some (record p { buffer = drop n p.buffer })))

-- The bytes that fill the front of the caller's buffer of `len` bytes; their number is the result.
unfoldable pub read : PipeTable → ℕ → ℕ → Option (List ℕ) × PipeTable
unfolding read_from
read t id len = read_from t id len (slot_at t id)

unfoldable pub close : PipeTable → ℕ → PipeTable
close t id = set t id none
