-- ===== src/Ahci.antt =====
-- ross-kernel/src/ahci.rs: the commands for sectors, from the guards to the poll of the port's registers.
-- `Hba` stands for the controller with the drive and for the memory that it shares with the driver.
pub mod Drive
pub mod Working
use ross_os.Base.{
  ℕ, zero, suc, ◌+◌, ◌-◌, ◌*◌, ◌/◌, ◌%◌, ◌^◌, List, [], ◌∷◌, ◌++◌, Option, none, some, Bool, true,
  false, not, ◌&&◌, ◌||◌, ◌==◌, ltb, if◌then◌else◌, length, take, replicate,
}
use ross_os.Base.Bits.{has_bit}
use ross_os.Disk.{Result, Answer, Cmd, DiskOps, ok, err, panic, endless, pure, and_then}

pub record PortState : Type 0 where
  pub port : ℕ
  pub clb_phys : ℕ
  pub ct_phys : ℕ
  pub dma_phys : ℕ

-- What a command writes into the command table and the command header: the FIS, the one entry of the
-- PRDT, and the flags.
pub record Command : Type 0 where
  pub cfis : List ℕ
  pub dba : ℕ
  pub dbau : ℕ
  pub dbc : ℕ
  pub flags : ℕ

-- The port's registers, the memory of its command list, and its DMA buffer.
pub record Hba (H : Type 0) : Type 0 where
  pub port_read : (port off : ℕ) → H → ℕ × H
  pub port_write : (port off val : ℕ) → H → H
  pub put_command : PortState → Command → H → H
  pub dma_read : PortState → (len : ℕ) → H → List ℕ
  pub dma_write : PortState → List ℕ → H → H

-- `PORT`, and the rest.
pub record Ahci (H : Type 0) : Type 0 where
  pub port_state : Option PortState
  pub hba : H

abbrev pub px_is : ℕ
px_is = 0x10

abbrev pub px_tfd : ℕ
px_tfd = 0x20

abbrev pub px_ci : ℕ
px_ci = 0x38

abbrev pub ata_cmd_read_dma_ext : ℕ
ata_cmd_read_dma_ext = 0x25

abbrev pub ata_cmd_write_dma_ext : ℕ
ata_cmd_write_dma_ext = 0x35

-- The H2D register FIS.
abbrev pub register_fis : (command lba count : ℕ) → List ℕ
register_fis command lba count =
    0x27
    ∷ 2 ^ 7
    ∷ command
    ∷ 0
    ∷ lba % 256
    ∷ lba / 2 ^ 8 % 256
    ∷ lba / 2 ^ 16 % 256
    ∷ 2 ^ 6
    ∷ lba / 2 ^ 24 % 256
    ∷ lba / 2 ^ 32 % 256
    ∷ lba / 2 ^ 40 % 256
    ∷ 0
    ∷ count % 256
    ∷ count / 2 ^ 8 % 256
    ∷ replicate 50 0

abbrev pub sector_command : PortState → (command flags lba count : ℕ) → Command
sector_command state command flags lba count = record {
  cfis = register_fis command lba count;
  dba = state.dma_phys % 2 ^ 32;
  dbau = state.dma_phys / 2 ^ 32;
  dbc = count * 512 - 1;
  flags = flags;
}

-- The guards that answer an error: more than eight sectors, or a buffer that is too small.
abbrev pub too_much : (count len : ℕ) → Bool
too_much count len = ltb 8 count || ltb len (count * 512)

module _ {H : Type 0} (dev : Hba H) where
  -- Until neither BSY nor DRQ is set, or the turns are over.
  unfoldable pub wait_idle : (turns port : ℕ) → H → H
  wait_idle zero port h = h
  wait_idle (suc turns) port h =
      let (tfd, h') = dev.port_read port px_tfd h in
      elim (has_bit tfd 7 || has_bit tfd 3) [ false ↦ h' | true ↦ wait_idle turns port h' ]

  -- Until the command is done; a task file error and the end of the turns are errors.
  unfoldable pub poll : (turns port : ℕ) → Cmd H (Unit {0})
  poll zero port h = (err, h)
  poll (suc turns) port h =
      let (is, h1) = dev.port_read port px_is h in
      let (ci, h2) = dev.port_read port px_ci h1 in
      elim (has_bit is 30) [
        | true ↦ (err, h1)
        | false ↦ elim (has_bit ci 0) [ false ↦ (ok tt, h2) | true ↦ poll turns port h2 ]
      ]

  unfoldable pub issue : PortState → Command → Cmd H (Unit {0})
  unfolding wait_idle poll
  issue state command h =
      let placed = dev.put_command state command h in
      let idle = wait_idle 1000000 state.port placed in
      let cleared = dev.port_write state.port px_is 0xFFFF_FFFF idle in
      and_then (poll 10000000 state.port (dev.port_write state.port px_ci 1 cleared)) λ _ done.
        let (tfd, h') = dev.port_read state.port px_tfd done in
        if has_bit tfd 0 then (err, h') else (ok tt, h')

  abbrev pub back : {A : Type 0} → Ahci H → Answer H A → Answer (Ahci H) A
  back a (r, h) = (r, record a { hba = h })

  unfoldable pub read_port : Option PortState → (lba count : ℕ) → Cmd (Ahci H) (List ℕ)
  unfolding issue
  read_port none lba count a = (err, a)
  read_port (some state) lba count a = back a (
      and_then (issue state (sector_command state ata_cmd_read_dma_ext 5 lba count) a.hba)
        λ _ h. (ok (dev.dma_read state (count * 512) h), h))

  unfoldable pub write_port : Option PortState → (lba count : ℕ) → List ℕ → Cmd (Ahci H) (Unit {0})
  unfolding issue
  write_port none lba count buf a = (err, a)
  write_port (some state) lba count buf a = back a (
      issue state (sector_command state ata_cmd_write_dma_ext (5 + 2 ^ 6) lba count)
        (dev.dma_write state (take (count * 512) buf) a.hba))

  unfoldable pub read_sectors : (lba count len : ℕ) → Cmd (Ahci H) (List ℕ)
  unfolding read_port
  read_sectors lba count len a =
      if count == 0
      then (ok [], a)
      else if too_much count len
      then (err, a)
      else read_port a.port_state lba count a

  unfoldable pub write_sectors : (lba count : ℕ) → List ℕ → Cmd (Ahci H) (Unit {0})
  unfolding write_port
  write_sectors lba count buf a =
      if count == 0
      then (ok tt, a)
      else if too_much count (length buf)
      then (err, a)
      else write_port a.port_state lba count buf a

  -- `PORT` does not change once it is set: the operations with the port `state`.
  abbrev pub on_port : {A : Type 0} → PortState → Cmd (Ahci H) A → Cmd H A
  on_port state m h = let (r, a) = m (record { port_state = some state; hba = h }) in (r, a.hba)

  unfoldable pub ready_disk : PortState → DiskOps H
  unfolding read_sectors write_sectors
  ready_disk state = record {
    read_sectors = λ lba count len. on_port state (read_sectors lba count len);
    write_sectors = λ lba count buf. on_port state (write_sectors lba count buf);
  }
