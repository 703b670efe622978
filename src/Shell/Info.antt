-- ===== src/Shell/Info.antt =====
-- ross-kernel/src/shell.rs: the commands that print what the kernel knows.
use ross_os.Base.{
  ℕ, ◌+◌, ◌-◌, ◌*◌, ◌/◌, ◌%◌, List, [], ◌∷◌, ◌++◌, ◌==◌, if◌then◌else◌, length, get_or, take,
  replicate, ◌⊎◌, inl, inr,
}
use ross_os.Base.Text.{codes}
use ross_os.Pci.{PciDevice, class_name}
use ross_os.Pmm.{free_mib, total_mib}
use ross_os.Writer.{fg}
use ross_os.Shell.{Shell, Services, dim, accent, red, cwd, say, say_char, print_num, banner}

abbrev pub commands : List (List ℕ × List ℕ)
commands =
    (codes "help", codes "Show this help message")
    ∷ (codes "clear", codes "Clear the terminal area")
    ∷ (codes "pwd", codes "Show current directory")
    ∷ (codes "cd", codes "Change directory: cd <path>")
    ∷ (codes "ls", codes "List directory (default: cwd)")
    ∷ (codes "lspci", codes "List enumerated PCI devices")
    ∷ (codes "disk", codes "Read sector 0 and show MBR signature")
    ∷ (codes "cat", codes "Print a file (relative paths use cwd)")
    ∷ (codes "write", codes "Write to a file: write <path> <content>")
    ∷ (codes "exec", codes "Execute an ELF binary")
    ∷ (codes "memory", codes "Show physical memory statistics")
    ∷ (codes "uptime", codes "Show system uptime")
    ∷ (codes "version", codes "Show ROSS version info")
    ∷ (codes "reboot", codes "Restart the system")
    ∷ []

module _ {World Node : Type 0} (services : Services World Node) where
  unfoldable pub list_commands : Shell World Node → List (List ℕ × List ℕ) → Shell World Node
  list_commands s [] = s
  list_commands s ((name, desc) ∷ rest) =
      let named = say services (say services s (codes "    ") fg) name fg in
      let padded = say services named (replicate (10 - length name) b' ') fg in
      let told = say services (say services padded (codes "- ") dim) desc dim in
      list_commands (say_char services told b'\n' fg) rest

  unfoldable pub cmd_help : Shell World Node → Shell World Node
  unfolding list_commands
  cmd_help s =
      let placed = say services (say services s (codes "  cwd: ") dim) (cwd s) accent in
      list_commands
        (say services (say_char services placed b'\n' fg) (codes "  Available commands:\n") accent)
        commands

  abbrev pub cmd_clear : Shell World Node → Shell World Node
  cmd_clear s = banner services s

  unfoldable pub say_count : Shell World Node → List ℕ → ℕ → (color : ℕ) → Shell World Node
  say_count s label n color = print_num services (say services s label color) n

  -- One line of a count of mebibytes.
  unfoldable pub say_mib : Shell World Node → List ℕ → ℕ → (color : ℕ) → Shell World Node
  unfolding say_count
  say_mib s label n color = say services (say_count s label n color) (codes " MiB\n") color

  unfoldable pub cmd_memory : Shell World Node → Shell World Node
  unfolding say_mib
  cmd_memory s =
      let free = free_mib s.pmm in
      let total = total_mib s.pmm in
      let s1 = say services s (codes "  Physical Memory\n") accent in
      let s2 = say_mib s1 (codes "    Total  : ") total fg in
      let s3 = say_mib s2 (codes "    Used   : ") (total - free) fg in
      say_mib s3 (codes "    Free   : ") free accent

  unfoldable pub cmd_uptime : Shell World Node → Shell World Node
  unfolding say_count
  cmd_uptime s =
      let seconds = s.ticks / 100 in
      let s1 = say_count s (codes "  Uptime: ") (seconds / 60) fg in
      let s2 = say_count s1 (codes "m ") (seconds % 60) fg in
      let s3 = say_count s2 (codes "s  (") s.ticks dim in
      say services s3 (codes " ticks @ 100 Hz)\n") dim

  abbrev pub cmd_version : Shell World Node → Shell World Node
  cmd_version s =
      say services (say services s (codes "  R.O.S.S.  Rapid Operating System Shell\n") accent)
        (codes "  Phase 6  |  x86_64  |  Bare Metal\n") dim

  abbrev pub device_line : PciDevice → List ℕ
  device_line d =
      codes "    "
      ++ (services.hex2 d.bus
          ++ (codes ":"
              ++ (services.hex2 d.device
                  ++ (codes "."
                      ++ (services.decimal d.function
                          ++ (codes "  "
                              ++ (services.hex4 d.vendor_id
                                  ++ (codes ":"
                                      ++ (services.hex4 d.device_id
                                          ++ (codes "  "
                                              ++ (class_name d.class d.subclass
                                                  ++ (b'\n' ∷ []))))))))))))

  unfoldable pub list_devices : Shell World Node → List PciDevice → Shell World Node
  unfolding class_name
  list_devices s [] = s
  list_devices s (d ∷ ds) = list_devices (say services s (device_line d) fg) ds

  unfoldable pub cmd_lspci : Shell World Node → Shell World Node
  unfolding list_devices
  cmd_lspci s = elim s.devices [
    | [] ↦ say services s (codes "  No PCI devices enumerated\n") dim
    | d ∷ ds ↦ list_devices (say services s (codes "  PCI Devices:\n") accent) (d ∷ ds)
  ]

  unfoldable pub say_hex : Shell World Node → List ℕ → Shell World Node
  say_hex s [] = s
  say_hex s (b ∷ bs) = say_hex (say services s (services.hex2 b ++ (b' ' ∷ [])) fg) bs

  -- What is printed before the first bytes of the sector.
  abbrev pub sector_head : Shell World Node → List ℕ → Shell World Node
  sector_head s buf =
      let sig = get_or buf 510 0 + 256 * get_or buf 511 0 in
      let verdict = if sig == 0xAA55 then codes "(valid MBR)" else codes "(empty/not MBR)" in
      say services
        (say services s
          (codes "  Sector 0 read OK  sig=0x"
            ++ (services.hex4 sig ++ (b' ' ∷ (verdict ++ (b'\n' ∷ [])))))
          fg)
        (codes "  First 16 bytes: ") dim

  unfoldable pub sector_read : Shell World Node → List ℕ ⊎ List ℕ → Shell World Node
  unfolding say_hex
  sector_read s (inr buf) = say_char services (say_hex (sector_head s buf) (take 16 buf)) b'\n' fg
  sector_read s (inl message) =
      say_char services (say services (say services s (codes "  AHCI error: ") red) message red)
        b'\n' fg

  unfoldable pub cmd_disk : Shell World Node → Shell World Node
  unfolding sector_read
  cmd_disk s =
      let (r, world) = services.read_sector s.world in
      if services.is_ready s.world
      then sector_read (record s { world = world }) r
      else say services s (codes "  AHCI: no SATA drive attached\n") red
