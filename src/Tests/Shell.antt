-- ===== src/Tests/Shell.antt =====
-- A shell over a small tree of directories, and the theorems on the shell at work on it.
use ross_os.Base.{
  ℕ, ◌≡◌, refl, List, [], ◌∷◌, none, some, true, false, if◌then◌else◌, take, arith, inl,
}
use ross_os.Base.Bytes.{overwrite}
use ross_os.Base.Text.{codes, split_whitespace}
use ross_os.Pmm.{new_state}
use ross_os.Vfs.{NodeOps, NodeType}
use ross_os.Writer.{new_writer}
use ross_os.Shell.{
  ends_with_slash, State, Shell, Services, initial_line, initial_cwd_buf, cwd, resolve, resolve_in,
  max_cwd, num_text,
}
use ross_os.Shell.Buffers.{Leaves, handle_byte-IsShell}
use ross_os.Shell.Decimal.{value_from, num_text-value}
use ross_os.Shell.Files.{cmd_cd}
use ross_os.Shell.Line.{IsShell, edit, handle_byte-edit}
use ross_os.Shell.Path.{leads_to_directory, cmd_cd-cwd}
use ross_os.Shell.Run.{returned, line, handle_byte}

-- Every name leads to a directory.
abbrev everywhere : NodeOps (Unit {0}) (Unit {0})
everywhere = record {
  attribute = λ w n. record { size = 0; node_type = NodeType.directory };
  read = λ w n offset len. none;
  readdir = λ w n. some [];
  finddir = λ w n name. some tt;
  write = λ w n offset bytes. (none, tt);
  create = λ w n name. (none, tt);
}

abbrev plain : Services (Unit {0}) (Unit {0})
plain = record {
  ops = everywhere;
  font = λ ch row. 0;
  decimal = λ n. [];
  hex2 = λ n. [];
  hex4 = λ n. [];
  spawn_process = λ path w. (true, tt);
  is_ready = λ w. false;
  read_sector = λ w. (inl [], tt);
}

abbrev shell : Shell (Unit {0}) (Unit {0})
shell = record {
  state = State.active;
  line_buf = initial_line;
  line_len = 0;
  cwd_buf = initial_cwd_buf;
  cwd_len = 9;
  writer = new_writer (λ i. 0) 800 600;
  serial = [];
  pmm = new_state;
  ticks = 0;
  devices = [];
  vfs = record { root_node = some tt; disk_root = some tt };
  world = tt;
}

shell-IsShell : IsShell shell
unfolding overwrite
shell-IsShell = record {
  line_buffer = refl;
  line_fits = omega arith;
  printable = λ i h. absurd (omega (arith, h));
  cwd_buffer = refl;
  cwd_fits = omega arith;
  cwd_some = omega arith;
  absolute = refl;
}

handle_byte-edit_example :
    (s' : Shell (Unit {0}) (Unit {0})) × (handle_byte plain shell b'l' ≡ returned s')
    × (line s' ≡ edit (line shell) b'l')
handle_byte-edit_example =
    handle_byte-edit plain shell b'l' shell-IsShell refl (λ e. omega (arith, e))

handle_byte-IsShell_example : Leaves (handle_byte plain shell b'l')
handle_byte-IsShell_example = handle_byte-IsShell plain shell b'l' shell-IsShell

cmd_cd-cwd_example : cwd (cmd_cd plain shell (codes "src")) ≡ (
    if leads_to_directory plain shell (resolve shell (codes "src"))
    then take max_cwd (resolve shell (codes "src"))
    else cwd shell)
cmd_cd-cwd_example = cmd_cd-cwd plain shell (codes "src") shell-IsShell

num_text-value_example : (text : List ℕ) × (num_text 1024 ≡ some text) × (value_from 0 text ≡ 1024)
num_text-value_example = num_text-value 1024 (omega arith)

resolves : resolve_in (codes "/mnt/disk") (codes "a") ≡ codes "/mnt/disk/a"
unfolding resolve_in ends_with_slash
resolves = refl

words : split_whitespace (codes " write  a.txt b") ≡ codes "write" ∷ codes "a.txt" ∷ codes "b" ∷ []
unfolding split_whitespace
words = refl
