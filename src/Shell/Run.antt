-- ===== src/Shell/Run.antt =====
-- ross-kernel/src/shell.rs: the dispatch of a command line, and the handling of one byte of input.
use ross_os.Base.{ℕ, ◌+◌, ◌-◌, List, [], ◌∷◌, Bool, ◌==◌, ltb, if◌then◌else◌, length, take, set}
use ross_os.Base.Text.{codes, same_bytes, split_whitespace, join_words, trim}
use ross_os.Writer.{fg, backspace}
use ross_os.Shell.{
  State, Shell, Services, max_line, dim, red, cwd, resolve, say, say_char, log, prompt, activate,
  initial_cwd,
}
use ross_os.Shell.Files.{cmd_pwd, cmd_cd, cmd_ls, cmd_cat, cmd_write, is_shown}
use ross_os.Shell.Info.{
  cmd_help, cmd_clear, cmd_memory, cmd_uptime, cmd_version, cmd_lspci, cmd_disk,
}

-- `reboot` does not return: what follows it is not run.
pub data Outcome (World Node : Type 0) : Type 0 where
  returned rebooting : Shell World Node → Outcome World Node

abbrev pub first_word : List (List ℕ) → List ℕ
first_word [] = []
first_word (word ∷ words) = word

abbrev pub later_words : List (List ℕ) → List (List ℕ)
later_words [] = []
later_words (word ∷ words) = words

abbrev pub first_or : List (List ℕ) → List ℕ → List ℕ
first_or [] other = other
first_or (word ∷ words) other = word

-- The line that is being edited.
abbrev pub line : {World Node : Type 0} → Shell World Node → List ℕ
line s = take s.line_len s.line_buf

module _ {World Node : Type 0} (services : Services World Node) where
  unfoldable pub run_ls : Shell World Node → List (List ℕ) → Shell World Node
  run_ls s [] = cmd_ls services s (cwd s)
  run_ls s (raw ∷ words) = cmd_ls services s (resolve s raw)

  unfoldable pub run_cat : Shell World Node → List (List ℕ) → Shell World Node
  run_cat s [] = say services s (codes "  Usage: cat <path>\n") dim
  run_cat s (raw ∷ words) = cmd_cat services s (resolve s raw)

  unfoldable pub run_write : Shell World Node → List (List ℕ) → Shell World Node
  unfolding join_words
  run_write s [] = say services s (codes "  Usage: write <path> <content>\n") dim
  run_write s (raw ∷ words) =
      let bytes = join_words words in
      if length bytes == 0
      then say services s (codes "  Usage: write <path> <content>\n") dim
      else cmd_write services s (resolve s raw) bytes

  unfoldable pub run_exec : Shell World Node → List (List ℕ) → Shell World Node
  run_exec s [] = say services s (codes "  Usage: exec <path>\n") dim
  run_exec s (raw ∷ words) =
      let (spawned, world) = services.spawn_process (resolve s raw) s.world in
      if spawned
      then record s { world = world }
      else say services (record s { world = world }) (codes "  Error: failed to spawn process\n")
          red

  unfoldable pub unknown : Shell World Node → List ℕ → Shell World Node
  unknown s other =
      say services
        (say services (say services s (codes "  Error: unknown command '") red) other red)
        (codes "'\n") red

  -- The command with its arguments.
  unfoldable pub dispatch :
      Shell World Node → (command : List ℕ) → (args : List (List ℕ)) → Outcome World Node
  unfolding run_ls run_cat run_write run_exec unknown
  dispatch s command args =
      let is : List ℕ → Bool = λ text. same_bytes command text in
      if is (codes "help")
      then returned (cmd_help services s)
      else if is (codes "clear")
      then returned (cmd_clear services s)
      else if is (codes "memory")
      then returned (cmd_memory services s)
      else if is (codes "uptime")
      then returned (cmd_uptime services s)
      else if is (codes "version")
      then returned (cmd_version services s)
      else if is (codes "pwd")
      then returned (cmd_pwd services s)
      else if is (codes "cd")
      then returned (cmd_cd services s (first_or args initial_cwd))
      else if is (codes "ls")
      then returned (run_ls s args)
      else if is (codes "lspci")
      then returned (cmd_lspci services s)
      else if is (codes "disk")
      then returned (cmd_disk services s)
      else if is (codes "cat")
      then returned (run_cat s args)
      else if is (codes "write")
      then returned (run_write s args)
      else if is (codes "reboot")
      then rebooting s
      else if is (codes "exec")
      then returned (run_exec s args)
      else if is []
      then returned s
      else returned (unknown s command)

  unfoldable pub execute : Shell World Node → List ℕ → Outcome World Node
  unfolding split_whitespace dispatch
  execute s input =
      let traced = log (log (log s (codes "[SHELL] Executing: ")) input) (codes "\n") in
      let words = split_whitespace input in dispatch traced (first_word words) (later_words words)

  -- The end of the handling of Enter.
  abbrev pub next_line : Outcome World Node → Outcome World Node
  next_line (returned s) = returned (prompt services (record s { line_len = 0 }))
  next_line (rebooting s) = rebooting s

  -- The bytes of the line are printable ASCII, so that it is UTF-8.
  unfoldable pub enter_line : Shell World Node → Outcome World Node
  unfolding execute trim
  enter_line s = next_line (execute (say_char services s b'\n' fg) (trim (line s)))

  unfoldable pub delete_byte : Shell World Node → Shell World Node
  delete_byte s =
      if ltb 0 s.line_len
      then record s { line_len = s.line_len - 1; writer = backspace s.writer 1 }
      else s

  unfoldable pub type_byte : Shell World Node → ℕ → Shell World Node
  type_byte s ch =
      if ltb s.line_len max_line
      then say_char services
          (record s { line_buf = set s.line_buf s.line_len ch; line_len = s.line_len + 1 }) ch fg
      else s

  -- A byte that is typed into an active shell.
  unfoldable pub active_byte : Shell World Node → ℕ → Outcome World Node
  unfolding enter_line delete_byte type_byte
  active_byte s ch =
      if ch == b'\n'
      then enter_line s
      else if ch == 0x08
      then returned (delete_byte s)
      else if is_shown ch
      then returned (type_byte s ch)
      else returned s

  unfoldable pub handle_in : State → Shell World Node → ℕ → Outcome World Node
  unfolding active_byte activate
  handle_in State.splash s ch =
      if ch == b'\n'
      then returned (activate services (record s { state = State.active }))
      else returned s
  handle_in State.active s ch = active_byte s ch

  unfoldable pub handle_byte : Shell World Node → ℕ → Outcome World Node
  unfolding handle_in
  handle_byte s ch = handle_in s.state s ch
