-- ===== src/Shell.antt =====
-- ross-kernel/src/shell.rs: the line and the working directory that the shell keeps, paths, numbers,
-- and the prompt. `shell::TERM_Y` is `term_y` of Writer. The texts are ASCII.
pub mod Files
pub mod Info
pub mod Run
pub mod Keeps
pub mod Line
pub mod Buffers
pub mod Path
pub mod Decimal
use ross_os.Base.{
  ℕ, zero, suc, ◌+◌, ◌-◌, ◌*◌, ◌/◌, ◌%◌, List, [], ◌∷◌, ◌++◌, Option, none, some, Bool, true, false,
  not, ◌==◌, ltb, leb, if◌then◌else◌, min, length, get_or, take, replicate, set, ◌⊎◌, inl, inr,
}
use ross_os.Base.Text.{codes}
use ross_os.Base.Bytes.{overwrite}
use ross_os.Pci.{PciDevice}
use ross_os.Pmm.{PmmState}
use ross_os.Vfs.{NodeOps, VfsRoot, slash}
use ross_os.Writer.{
  Writer, bg, fg, left_margin, term_y, set_pos, fill_rect, put_char, put_str, mark_input_start,
}

abbrev pub max_line : ℕ
max_line = 128

abbrev pub max_cwd : ℕ
max_cwd = 64

abbrev pub dim : ℕ
dim = 0x00999999

abbrev pub accent : ℕ
accent = 0x0000FF99

abbrev pub red : ℕ
red = 0x004444FF

pub data State : Type 0 where
  splash active : State

-- The statics of the module, and what its commands read or change elsewhere: the screen, the serial
-- line, the page allocator, the tick counter, the PCI registry, and the rest of the kernel as `World`.
pub record Shell (World Node : Type 0) : Type 0 where
  pub state : State
  pub line_buf : List ℕ
  pub line_len : ℕ
  pub cwd_buf : List ℕ
  pub cwd_len : ℕ
  pub writer : Writer
  pub serial : List ℕ
  pub pmm : PmmState
  pub ticks : ℕ
  pub devices : List PciDevice
  pub vfs : VfsRoot Node
  pub world : World

-- What the shell calls: the nodes, the font, `{}`, `{:02x}` and `{:04x}` of core::fmt,
-- `task::spawn_process` (whether it answers `Ok`), `ahci::is_ready`, and `ahci::read_sectors` of sector
-- 0 into 512 bytes (its message or the bytes).
pub record Services (World Node : Type 0) : Type 0 where
  pub ops : NodeOps World Node
  pub font : ℕ → ℕ → ℕ
  pub decimal : ℕ → List ℕ
  pub hex2 : ℕ → List ℕ
  pub hex4 : ℕ → List ℕ
  pub spawn_process : List ℕ → World → Bool × World
  pub is_ready : World → Bool
  pub read_sector : World → (List ℕ ⊎ List ℕ) × World

abbrev pub initial_cwd : List ℕ
initial_cwd = codes "/mnt/disk"

-- The initial values of the statics.
abbrev pub initial_line : List ℕ
initial_line = replicate max_line 0

abbrev pub initial_cwd_buf : List ℕ
initial_cwd_buf = overwrite (replicate max_cwd 0) 0 initial_cwd

abbrev pub starts_with_slash : List ℕ → Bool
starts_with_slash [] = false
starts_with_slash (c ∷ cs) = c == slash

unfoldable pub ends_with_slash : List ℕ → Bool
ends_with_slash [] = false
ends_with_slash (c ∷ []) = c == slash
ends_with_slash (c ∷ d ∷ cs) = ends_with_slash (d ∷ cs)

-- The path that `path` names in the working directory `cwd`.
unfoldable pub resolve_in : (cwd path : List ℕ) → List ℕ
resolve_in cwd path =
    if starts_with_slash path
    then path
    else if ends_with_slash cwd
    then cwd ++ path
    else cwd ++ (slash ∷ path)

-- The digits of `n` in front of `acc`, as `print_num` takes them from the end of its buffer; the buffer
-- has room for `turns` of them.
unfoldable pub digits : (turns n : ℕ) → List ℕ → Option (List ℕ)
digits zero n acc = if n == 0 then some acc else none
digits (suc turns) n acc =
    let rest = digits turns (n / 10) ((b'0' + n % 10) ∷ acc) in if n == 0 then some acc else rest

-- The digits that are printed; `none` would be an index out of the buffer.
unfoldable pub num_text : ℕ → Option (List ℕ)
num_text n = let text = digits 20 n [] in if n == 0 then some (b'0' ∷ []) else text

module _ {World Node : Type 0} where
  abbrev pub cwd : Shell World Node → List ℕ
  cwd s = take s.cwd_len s.cwd_buf

  abbrev pub resolve : Shell World Node → List ℕ → List ℕ
  resolve s path = resolve_in (cwd s) path

  -- `len` bytes at the most go into the buffer.
  unfoldable pub set_cwd : Shell World Node → List ℕ → Shell World Node
  unfolding overwrite
  set_cwd s path =
      let len = min (length path) max_cwd in
      record s { cwd_buf = overwrite s.cwd_buf 0 (take len path); cwd_len = len }

  abbrev pub with_writer : Shell World Node → Writer → Shell World Node
  with_writer s wr = record s { writer = wr }

  abbrev pub log : Shell World Node → List ℕ → Shell World Node
  log s text = record s { serial = s.serial ++ text }

module _ {World Node : Type 0} (services : Services World Node) where
  -- `put_str` and `put_char` at scale 1.
  abbrev pub say : Shell World Node → List ℕ → (color : ℕ) → Shell World Node
  say s text color = record s { writer = put_str services.font s.writer text color 1 }

  abbrev pub say_char : Shell World Node → (ch color : ℕ) → Shell World Node
  say_char s ch color = record s { writer = put_char services.font s.writer ch color 1 }

  abbrev pub prompt : Shell World Node → Shell World Node
  prompt s =
      let shown = say (say s (codes "ross") accent) (codes "> ") dim in
      record shown { writer = mark_input_start shown.writer }

  unfoldable pub say_digits : Shell World Node → Option (List ℕ) → Shell World Node
  say_digits s none = s
  say_digits s (some text) = say s text fg

  unfoldable pub print_num : Shell World Node → ℕ → Shell World Node
  unfolding say_digits num_text
  print_num s n = say_digits s (num_text n)

  -- Clears the terminal area and writes the banner.
  abbrev pub banner : Shell World Node → Shell World Node
  banner s =
      let wr = s.writer in
      let cleared = fill_rect wr 0 term_y wr.w (wr.h - term_y) bg in
      let greeted =
        put_str services.font (set_pos cleared left_margin (term_y + 6))
          (codes "ROSS Shell v0.4  |  Type 'help' for commands") dim 1 in
      record s { writer = set_pos greeted left_margin (term_y + 20) }

  unfoldable pub activate : Shell World Node → Shell World Node
  activate s =
      let wr = s.writer in
      let wiped = set_pos (fill_rect wr 20 44 200 10 bg) 20 44 in
      let ready = put_str services.font wiped (codes "R.O.S.S. Ready.") accent 1 in
      let ruled = fill_rect ready 0 (term_y - 2) wr.w 2 0x00333333 in
      prompt (banner (record s { writer = ruled }))
