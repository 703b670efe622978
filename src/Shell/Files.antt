-- ===== src/Shell/Files.antt =====
-- ross-kernel/src/shell.rs: the commands on directories and files.
use ross_os.Base.{
  ℕ, List, [], ◌∷◌, ◌++◌, Option, none, some, Bool, true, false, ◌&&◌, ◌==◌, leb, if◌then◌else◌,
  min,
}
use ross_os.Base.Text.{codes}
use ross_os.Vfs.{NodeType, Stat, open_path, create, slash}
use ross_os.Writer.{fg}
use ross_os.Shell.{Shell, Services, dim, accent, red, cwd, resolve, set_cwd, say, say_char, log}

abbrev pub is_directory : Stat → Bool
is_directory stat = elim stat.node_type [ NodeType.directory ↦ true | NodeType.file ↦ false ]

-- `is_ascii_graphic` or a space.
abbrev pub is_shown : ℕ → Bool
is_shown b = leb b' ' b && leb b b'~'

abbrev pub or_root : List ℕ → List ℕ
or_root [] = slash ∷ []
or_root (c ∷ cs) = c ∷ cs

module _ {World Node : Type 0} (services : Services World Node) where
  abbrev pub cmd_pwd : Shell World Node → Shell World Node
  cmd_pwd s =
      say_char services (say services (say services s (codes "  ") fg) (cwd s) accent) b'\n' fg

  unfoldable pub cd_to : Shell World Node → List ℕ → Option Node → Shell World Node
  cd_to s path none = say services s (codes "  Error: no such path\n") red
  cd_to s path (some node) =
      if is_directory (services.ops.attribute s.world node)
      then set_cwd s path
      else say services s (codes "  Error: not a directory\n") red

  unfoldable pub cmd_cd : Shell World Node → List ℕ → Shell World Node
  unfolding cd_to
  cmd_cd s raw =
      let path = resolve s raw in cd_to s path (open_path services.ops s.world s.vfs path)

  unfoldable pub list_files : Shell World Node → List (List ℕ) → Shell World Node
  list_files s [] = s
  list_files s (file ∷ files) =
      list_files
        (say_char services (say services (say services s (codes "    ") fg) file fg) b'\n' fg) files

  unfoldable pub listed : Shell World Node → List ℕ → Option (List (List ℕ)) → Shell World Node
  unfolding list_files
  listed s target none = say services s (codes "  Error: not a directory\n") red
  listed s target (some files) =
      list_files
        (say services (say services (say services s (codes "  Files in ") accent) target accent)
          (codes ":\n") accent)
        files

  unfoldable pub ls_in : Shell World Node → List ℕ → Option Node → Shell World Node
  unfolding listed
  ls_in s target none = say services s (codes "  Error: no such path\n") red
  ls_in s target (some node) = listed s target (services.ops.readdir s.world node)

  unfoldable pub cmd_ls : Shell World Node → List ℕ → Shell World Node
  unfolding ls_in
  cmd_ls s path = ls_in s (or_root path) (open_path services.ops s.world s.vfs (or_root path))

  unfoldable pub show_bytes : Shell World Node → List ℕ → Shell World Node
  show_bytes s [] = s
  show_bytes s (b ∷ bs) =
      show_bytes
        (if b == b'\n'
          then say_char services s b'\n' fg
          else if is_shown b
          then say_char services s b fg
          else s)
        bs

  unfoldable pub shown : Shell World Node → Option (List ℕ) → Shell World Node
  unfolding show_bytes
  shown s none = say services s (codes "  Error: read failed\n") red
  shown s (some bytes) = say_char services (show_bytes s bytes) b'\n' fg

  unfoldable pub cat_node : Shell World Node → Option Node → Shell World Node
  unfolding shown
  cat_node s none = say services s (codes "  Error: file not found\n") red
  cat_node s (some node) =
      let size = (services.ops.attribute s.world node).size in
      if size == 0
      then say services s (codes "  (empty)\n") dim
      else shown s (services.ops.read s.world node 0 (min size 4096))

  unfoldable pub cmd_cat : Shell World Node → List ℕ → Shell World Node
  unfolding cat_node
  cmd_cat s path = cat_node s (open_path services.ops s.world s.vfs path)

  unfoldable pub wrote : Shell World Node → List ℕ → Option ℕ → Shell World Node
  wrote s path none =
      say services (log s (codes "[WRITE] write() failed\n"))
        (codes "  Error: write failed (read-only?)\n") red
  wrote s path (some n) =
      say services s
        (codes "  Wrote " ++ (services.decimal n ++ (codes " bytes to " ++ (path ++ (b'\n' ∷ [])))))
        fg

  unfoldable pub write_node : Shell World Node → (path bytes : List ℕ) → Node → Shell World Node
  unfolding wrote
  write_node s path bytes node =
      let (r, world) = services.ops.write s.world node 0 bytes in
      wrote (record s { world = world }) path r

  unfoldable pub write_created :
      Shell World Node → (path bytes : List ℕ) → Option Node × World → Shell World Node
  unfolding write_node
  write_created s path bytes (none, world) =
      say services (log (record s { world = world }) (codes "[WRITE] create failed\n"))
        (codes "  Error: cannot create file\n") red
  write_created s path bytes (some node, world) =
      write_node (log (record s { world = world }) (codes "[WRITE] created new file\n")) path bytes
        node

  unfoldable pub write_opened :
      Shell World Node → (path bytes : List ℕ) → Option Node → Shell World Node
  unfolding write_node write_created
  write_opened s path bytes (some node) =
      write_node (log s (codes "[WRITE] file exists, overwriting\n")) path bytes node
  write_opened s path bytes none =
      write_created s path bytes (create services.ops s.world s.vfs path)

  unfoldable pub cmd_write : Shell World Node → (path bytes : List ℕ) → Shell World Node
  unfolding write_opened
  cmd_write s path bytes =
      let logged = log (log (log s (codes "[WRITE] path=")) path) (codes "\n") in
      write_opened logged path bytes (open_path services.ops s.world s.vfs path)
