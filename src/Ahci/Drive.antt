-- ===== src/Ahci/Drive.antt =====
-- What a controller with a drive does, by the accesses to its registers and to the memory that it shares
-- with the driver.
use ross_os.Base.{ℕ, suc, ◌+◌, ◌*◌, ◌^◌, ◌≤◌, ◌<◌, ◌≡◌, List, length, get_or, true, false}
use ross_os.Base.Bits.{has_bit}
use ross_os.Base.Bytes.{load_bytes, store_bytes}
use ross_os.Ahci.{PortState, Command, Hba, px_is, px_tfd, px_ci}

-- The sector and the number of sectors that a FIS names.
abbrev pub fis_lba : List ℕ → ℕ
fis_lba fis =
    get_or fis 4 0
    + 2 ^ 8 * get_or fis 5 0
    + 2 ^ 16 * get_or fis 6 0
    + 2 ^ 24 * get_or fis 8 0
    + 2 ^ 32 * get_or fis 9 0
    + 2 ^ 40 * get_or fis 10 0

abbrev pub fis_count : List ℕ → ℕ
fis_count fis = get_or fis 12 0 + 2 ^ 8 * get_or fis 13 0

-- READ DMA EXT and WRITE DMA EXT, with the W flag of the command header.
pub data Transfer : Type 0 where
  reading writing : Transfer

abbrev pub command_byte : Transfer → ℕ
command_byte reading = 0x25
command_byte writing = 0x35

abbrev pub header_flags : Transfer → ℕ
header_flags reading = 5
header_flags writing = 69

-- A command that a drive of `capacity` sectors carries out: a register FIS from host to device of five
-- dwords with the C bit, in LBA mode, for sectors that lie on the drive; the W flag as the transfer
-- has it; and one entry of the PRDT for the DMA buffer, of the size of the sectors.
pub record IsCommand (state : PortState) (capacity : ℕ) (kind : Transfer) (c : Command)
    : Type 0 where
  pub fis_type : get_or c.cfis 0 0 ≡ 0x27
  pub is_command : has_bit (get_or c.cfis 1 0) 7 ≡ true
  pub lba_mode : has_bit (get_or c.cfis 7 0) 6 ≡ true
  pub is_kind : get_or c.cfis 2 0 ≡ command_byte kind
  pub direction : c.flags ≡ header_flags kind
  pub address : c.dba + 2 ^ 32 * c.dbau ≡ state.dma_phys
  pub size : c.dbc + 1 ≡ fis_count c.cfis * 512
  pub some : 1 ≤ fis_count c.cfis
  pub fits_buffer : fis_count c.cfis ≤ 8
  pub on_drive : fis_lba c.cfis + fis_count c.cfis ≤ capacity

module _ {H : Type 0} (dev : Hba H) (byte : H → ℕ → ℕ) (state : PortState) where
  -- Neither the content of the drive nor the DMA buffer of the port has changed.
  pub record Same (h h' : H) : Type 0 where
    pub content : byte h' ≡ byte h
    pub buffer : (len : ℕ) → dev.dma_read state len h' ≡ dev.dma_read state len h

  -- What the command has done to the two.
  abbrev pub Done : Transfer → Command → H → H → Type 0
  Done reading c h h' =
      (byte h' ≡ byte h)
      × (dev.dma_read state (c.dbc + 1) h'
          ≡ load_bytes (byte h) (fis_lba c.cfis * 512) (fis_count c.cfis * 512))
  Done writing c h h' =
      byte h' ≡ store_bytes (byte h) (fis_lba c.cfis * 512) (dev.dma_read state (c.dbc + 1) h)

  -- The controller's side of a command. `Loaded c` holds when the command is in slot 0 of the port's
  -- list and not started, `Running c n` when it is started and its bit in PX_CI is still set for `n`
  -- reads, of which there are fewer than ten million, and `Ended` when it is done. A register that
  -- is read shows no task file error, and a running command does its work when its bit is cleared.
  pub record IsDrive (capacity : ℕ) : Type 1 where
    pub Loaded : Command → H → Type 0
    pub Running : Command → ℕ → H → Type 0
    pub Ended : H → Type 0
    pub put_buffer :
        (bytes : List ℕ) (h : H)
        → (byte (dev.dma_write state bytes h) ≡ byte h)
          × (dev.dma_read state (length bytes) (dev.dma_write state bytes h) ≡ bytes)
    pub put : (c : Command) (h : H) → Loaded c (dev.put_command state c h)
    pub put_same : (c : Command) (h : H) → Same h (dev.put_command state c h)
    pub status :
        (c : Command) (h : H)
        → Loaded c h
        → Loaded c (dev.port_read state.port px_tfd h).1
          × Same h (dev.port_read state.port px_tfd h).1
    pub clear :
        (c : Command) (h : H)
        → Loaded c h
        → Loaded c (dev.port_write state.port px_is 0xFFFF_FFFF h)
          × Same h (dev.port_write state.port px_is 0xFFFF_FFFF h)
    pub start :
        (kind : Transfer) (c : Command) (h : H)
        → IsCommand state capacity kind c
        → Loaded c h
        → (n : ℕ) × (n < 10_000_000)
          × Running c n (dev.port_write state.port px_ci 1 h)
          × Same h (dev.port_write state.port px_ci 1 h)
    pub interrupt :
        (c : Command) (n : ℕ) (h : H)
        → Running c n h
        → (has_bit (dev.port_read state.port px_is h).0 30 ≡ false)
          × Running c n (dev.port_read state.port px_is h).1
          × Same h (dev.port_read state.port px_is h).1
    pub busy :
        (c : Command) (n : ℕ) (h : H)
        → Running c (suc n) h
        → (has_bit (dev.port_read state.port px_ci h).0 0 ≡ true)
          × Running c n (dev.port_read state.port px_ci h).1
          × Same h (dev.port_read state.port px_ci h).1
    pub complete :
        (kind : Transfer) (c : Command) (h : H)
        → IsCommand state capacity kind c
        → Running c 0 h
        → (has_bit (dev.port_read state.port px_ci h).0 0 ≡ false)
          × Ended (dev.port_read state.port px_ci h).1
          × Done kind c h (dev.port_read state.port px_ci h).1
    pub no_error :
        (h : H)
        → Ended h
        → (has_bit (dev.port_read state.port px_tfd h).0 0 ≡ false)
          × Same h (dev.port_read state.port px_tfd h).1
