-- ===== src/Shell/Keeps.antt =====
-- What the commands leave alone: the line, and, but for `cd`, the working directory.
use ross_os.Base.{
  ℕ, ◌/◌, ◌%◌, take, ◌≡◌, refl, ◌∙◌, List, [], ◌∷◌, Option, none, some, ◌==◌, if_both, inl, inr,
  ◌⊎◌, min, length,
}
use ross_os.Base.Text.{codes, join_words}
use ross_os.Pci.{PciDevice}
use ross_os.Vfs.{open_path, create}
use ross_os.Writer.{fg}
use ross_os.Shell.{
  State, Shell, Services, say, say_digits, num_text, print_num, cwd, resolve, dim, accent,
}
use ross_os.Shell.Files.{
  list_files, listed, ls_in, cmd_ls, or_root, show_bytes, is_shown, shown, cat_node, cmd_cat, wrote,
  write_node, write_created, write_opened, cmd_write,
}
use ross_os.Shell.Info.{
  list_commands, cmd_help, say_mib, say_count, cmd_memory, cmd_uptime, list_devices, cmd_lspci,
  say_hex, sector_read, sector_head, cmd_disk, commands,
}
use ross_os.Shell.Run.{run_ls, run_cat, run_write, run_exec}

module _ {World Node : Type 0} where
  -- The line, the working directory, and whether the shell is active.
  abbrev pub kept : Shell World Node → State × List ℕ × ℕ × List ℕ × ℕ
  kept s = (s.state, s.line_buf, s.line_len, s.cwd_buf, s.cwd_len)

  -- `t` has them from `s`.
  pub data Keeps (s t : Shell World Node) : Type 0 where
    keeps : kept t ≡ kept s → Keeps s t

  onto : {s t u : Shell World Node} → kept t ≡ kept s → Keeps t u → Keeps s u
  onto e (keeps e') = keeps (e' ∙ e)

  after : {s t u : Shell World Node} → kept u ≡ kept t → Keeps s t → Keeps s u
  after e (keeps e') = keeps (e ∙ e')

  both : {s t u : Shell World Node} → Keeps s t → Keeps t u → Keeps s u
  both (keeps e) (keeps e') = keeps (e' ∙ e)

module _ {World Node : Type 0} (services : Services World Node) where
  print_num-kept : (s : Shell World Node) (n : ℕ) → Keeps s (print_num services s n)
  unfolding print_num say_digits
  print_num-kept s n = elim (num_text n) as (λ t. Keeps s (say_digits services s t)) [
    | none ↦ keeps refl
    | some text ↦ keeps refl
  ]

  list_files-kept :
      (files : List (List ℕ)) (s : Shell World Node) → Keeps s (list_files services s files)
  unfolding list_files
  list_files-kept [] s = keeps refl
  list_files-kept (file ∷ files) s = onto refl (list_files-kept files _)

  cmd_ls-kept : (s : Shell World Node) (path : List ℕ) → Keeps s (cmd_ls services s path)
  unfolding cmd_ls ls_in
  cmd_ls-kept s path = from_node (open_path services.ops s.world s.vfs (or_root path))
    where
      from_list : (r : Option (List (List ℕ))) → Keeps s (listed services s (or_root path) r)
      from_list none = keeps refl
      from_list (some files) = onto refl (list_files-kept files _)

      from_node : (o : Option Node) → Keeps s (ls_in services s (or_root path) o)
      from_node none = keeps refl
      from_node (some node) = from_list (services.ops.readdir s.world node)

  show_bytes-kept : (bytes : List ℕ) (s : Shell World Node) → Keeps s (show_bytes services s bytes)
  unfolding show_bytes
  show_bytes-kept [] s = keeps refl
  show_bytes-kept (b ∷ bs) s =
      both
        (if_both (Keeps s) (b == b'\n') _ _ (keeps refl)
          (if_both (Keeps s) (is_shown b) _ _ (keeps refl) (keeps refl)))
        (show_bytes-kept bs _)

  cmd_cat-kept : (s : Shell World Node) (path : List ℕ) → Keeps s (cmd_cat services s path)
  unfolding cmd_cat cat_node shown
  cmd_cat-kept s path = from_node (open_path services.ops s.world s.vfs path)
    where
      from_read : (r : Option (List ℕ)) → Keeps s (shown services s r)
      from_read none = keeps refl
      from_read (some bytes) = after refl (show_bytes-kept bytes s)

      from_node : (o : Option Node) → Keeps s (cat_node services s o)
      from_node none = keeps refl
      from_node (some node) =
          if_both (Keeps s) ((services.ops.attribute s.world node).size == 0) _ _ (keeps refl) (
            from_read (
              services.ops.read s.world node 0
                (min (services.ops.attribute s.world node).size 4096)))

  wrote-kept :
      (s : Shell World Node) (path : List ℕ) (r : Option ℕ) → Keeps s (wrote services s path r)
  unfolding wrote
  wrote-kept s path none = keeps refl
  wrote-kept s path (some n) = keeps refl

  created-kept :
      (s : Shell World Node) (path bytes : List ℕ) (r : Option Node × World)
      → Keeps s (write_created services s path bytes r)
  unfolding write_created write_node
  created-kept s path bytes (none, world) = keeps refl
  created-kept s path bytes (some node, world) = onto refl (wrote-kept _ path _)

  cmd_write-kept :
      (s : Shell World Node) (path bytes : List ℕ) → Keeps s (cmd_write services s path bytes)
  unfolding cmd_write write_opened write_node
  cmd_write-kept s path bytes = onto refl (from_node _ (open_path services.ops s.world s.vfs path))
    where
      from_node :
          (t : Shell World Node) (o : Option Node) → Keeps t (write_opened services t path bytes o)
      from_node t none =
          onto refl (created-kept t path bytes (create services.ops t.world t.vfs path))
      from_node t (some node) = onto refl (wrote-kept _ path _)

  list_commands-kept :
      (rest : List (List ℕ × List ℕ)) (s : Shell World Node)
      → Keeps s (list_commands services s rest)
  unfolding list_commands
  list_commands-kept [] s = keeps refl
  list_commands-kept ((name, desc) ∷ rest) s = onto refl (list_commands-kept rest _)

  pub cmd_help-kept : (s : Shell World Node) → Keeps s (cmd_help services s)
  unfolding cmd_help
  cmd_help-kept s = onto refl (list_commands-kept commands _)

  say_count-kept :
      (s : Shell World Node) (label : List ℕ) (n color : ℕ)
      → Keeps s (say_count services s label n color)
  unfolding say_count
  say_count-kept s label n color = onto refl (print_num-kept (say services s label color) n)

  say_mib-kept :
      (s : Shell World Node) (label : List ℕ) (n color : ℕ)
      → Keeps s (say_mib services s label n color)
  unfolding say_mib
  say_mib-kept s label n color = after refl (say_count-kept s label n color)

  pub cmd_memory-kept : (s : Shell World Node) → Keeps s (cmd_memory services s)
  unfolding cmd_memory
  cmd_memory-kept s =
      onto {t = say services s (codes "  Physical Memory\n") accent} refl
        (both (say_mib-kept _ _ _ _) (both (say_mib-kept _ _ _ _) (say_mib-kept _ _ _ _)))

  pub cmd_uptime-kept : (s : Shell World Node) → Keeps s (cmd_uptime services s)
  unfolding cmd_uptime
  cmd_uptime-kept s = after refl (
      both (say_count-kept s (codes "  Uptime: ") (s.ticks / 100 / 60) fg) (
        both (say_count-kept _ (codes "m ") (s.ticks / 100 % 60) fg)
          (say_count-kept _ (codes "s  (") s.ticks dim)))

  list_devices-kept :
      (ds : List PciDevice) (s : Shell World Node) → Keeps s (list_devices services s ds)
  unfolding list_devices
  list_devices-kept [] s = keeps refl
  list_devices-kept (d ∷ ds) s = onto refl (list_devices-kept ds _)

  pub cmd_lspci-kept : (s : Shell World Node) → Keeps s (cmd_lspci services s)
  unfolding cmd_lspci list_devices
  cmd_lspci-kept s =
      elim s.devices
        as (λ ds. Keeps s (elim ds [
          | [] ↦ say services s (codes "  No PCI devices enumerated\n") dim
          | d ∷ ds ↦
              list_devices services (say services s (codes "  PCI Devices:\n") accent) (d ∷ ds)
        ])) [ [] ↦ keeps refl | d ∷ ds ↦ onto refl (list_devices-kept (d ∷ ds) _) ]

  say_hex-kept : (bytes : List ℕ) (s : Shell World Node) → Keeps s (say_hex services s bytes)
  unfolding say_hex
  say_hex-kept [] s = keeps refl
  say_hex-kept (b ∷ bs) s = onto refl (say_hex-kept bs _)

  sector_read-kept :
      (s : Shell World Node) (r : List ℕ ⊎ List ℕ) → Keeps s (sector_read services s r)
  unfolding sector_read
  sector_read-kept s (inl message) = keeps refl
  sector_read-kept s (inr buf) = after refl (
      onto {t = sector_head services s buf} refl
        (say_hex-kept (take 16 buf) (sector_head services s buf)))

  pub cmd_disk-kept : (s : Shell World Node) → Keeps s (cmd_disk services s)
  unfolding cmd_disk
  cmd_disk-kept s =
      if_both (Keeps s) (services.is_ready s.world) _ _
        (onto {t = after_read} refl (sector_read-kept after_read (services.read_sector s.world).0))
        (keeps refl)
    where
      after_read : Shell World Node
      after_read = record s { world = (services.read_sector s.world).1 }

  pub run_ls-kept : (s : Shell World Node) (args : List (List ℕ)) → Keeps s (run_ls services s args)
  unfolding run_ls
  run_ls-kept s [] = cmd_ls-kept s (cwd s)
  run_ls-kept s (raw ∷ words) = cmd_ls-kept s (resolve s raw)

  pub run_cat-kept :
      (s : Shell World Node) (args : List (List ℕ)) → Keeps s (run_cat services s args)
  unfolding run_cat
  run_cat-kept s [] = keeps refl
  run_cat-kept s (raw ∷ words) = cmd_cat-kept s (resolve s raw)

  pub run_write-kept :
      (s : Shell World Node) (args : List (List ℕ)) → Keeps s (run_write services s args)
  unfolding run_write
  run_write-kept s [] = keeps refl
  run_write-kept s (raw ∷ words) =
      if_both (Keeps s) (length (join_words words) == 0) _ _ (keeps refl)
        (cmd_write-kept s (resolve s raw) (join_words words))

  pub run_exec-kept :
      (s : Shell World Node) (args : List (List ℕ)) → Keeps s (run_exec services s args)
  unfolding run_exec
  run_exec-kept s [] = keeps refl
  run_exec-kept s (raw ∷ words) =
      if_both (Keeps s) (services.spawn_process (resolve s raw) s.world).0 _ _ (keeps refl)
        (keeps refl)
