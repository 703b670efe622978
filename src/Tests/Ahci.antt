-- ===== src/Tests/Ahci.antt =====
-- A drive that carries a command out when its bit in PX_CI is read for the third time.
use ross_os.Base.{
  ℕ, zero, suc, ◌+◌, ◌*◌, ◌≡◌, List, ◌==◌, if◌then◌else◌, get_or, take, Option, some, none,
}
use ross_os.Base.Bytes.{load_bytes, store_bytes}
use ross_os.Ahci.{PortState, Command, Hba}
use ross_os.Ahci.Drive.{fis_lba, fis_count}

record Machine : Type 0 where
  bytes : ℕ → ℕ
  dma : List ℕ
  slot : Option Command
  left : ℕ

abbrev carried_out : Option Command → Machine → Machine
carried_out none h = h
carried_out (some c) h =
    if get_or c.cfis 2 0 == 0x25
    then record h { dma = load_bytes h.bytes (fis_lba c.cfis * 512) (fis_count c.cfis * 512) }
    else record h { bytes = store_bytes h.bytes (fis_lba c.cfis * 512) (take (c.dbc + 1) h.dma) }

abbrev ci_read : ℕ → Machine → ℕ × Machine
ci_read zero h = (0, carried_out h.slot h)
ci_read (suc n) h = (1, record h { left = n })

abbrev machine : Hba Machine
machine = record {
  port_read = λ port off h. if off == 0x38 then ci_read h.left h else (0, h);
  port_write = λ port off val h. if off == 0x38 then record h { left = 2 } else h;
  put_command = λ state c h. record h { slot = some c };
  dma_read = λ state len h. take len h.dma;
  dma_write = λ state bytes h. record h { dma = bytes };
}

abbrev first_port : PortState
first_port = record { port = 0; clb_phys = 0x1000; ct_phys = 0x2000; dma_phys = 0x3000 }

abbrev InSlot : Command → ℕ → Machine → Type 0
InSlot c n h = (h.slot ≡ some c) × (h.left ≡ n)
