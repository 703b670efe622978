-- ===== src/Acpi.antt =====
-- ross-kernel/src/acpi.rs: the search for the ACPI tables, and the list of processors in the MADT.
-- `m` is the physical memory by bytes; the structs are packed, so their fields are at fixed offsets.
pub mod Madt
use ross_os.Base.{
  ℕ, zero, suc, ◌+◌, ◌-◌, ◌*◌, ◌/◌, ◌%◌, ◌^◌, List, [], ◌∷◌, ◌++◌, Option, none, some, Bool, true,
  false, ◌&&◌, ◌||◌, ◌==◌, ltb, leb, if◌then◌else◌,
}
use ross_os.Base.Bytes.{load_bytes, from_le}
use ross_os.Base.Text.{codes, same_bytes}
use ross_os.Pmm.{MemoryKind, MemoryRegion}

-- The little-endian number of `n` bytes at `addr`.
abbrev pub number_at : (ℕ → ℕ) → (addr n : ℕ) → ℕ
number_at m addr n = from_le (load_bytes m addr n)

abbrev pub header_size : ℕ
header_size = 36

abbrev pub madt_size : ℕ
madt_size = 44

pub record AcpiInfo : Type 0 where
  pub lapic_base : ℕ
  pub ap_ids : List ℕ
  pub bsp_id : ℕ

abbrev pub is_reserved : MemoryKind → Bool
is_reserved MemoryKind.reserved = true
is_reserved kind = false

module _ (m : ℕ → ℕ) where
  -- From the address `addr` on, in steps of 16.
  unfoldable pub scan_from : (turns addr end : ℕ) → Option ℕ
  unfolding load_bytes same_bytes
  scan_from zero addr end = none
  scan_from (suc turns) addr end =
      let rest = scan_from turns (addr + 16) end in
      if leb (addr + 8) end
      then if same_bytes (load_bytes m addr 8) (codes "RSD PTR ") then some addr else rest
      else none

  unfoldable pub scan_range : (start end : ℕ) → Option ℕ
  unfolding scan_from
  scan_range start end = scan_from (end / 16 + 1 - start / 16) (start / 16 * 16) end

  abbrev pub or_else : Option ℕ → Option ℕ → Option ℕ
  or_else (some a) rest = some a
  or_else none rest = rest

  abbrev pub is_scanned : MemoryRegion → Bool
  is_scanned r = is_reserved r.kind && (ltb r.base 0xD000_0000 && leb r.size (8 * 1024 * 1024))

  unfoldable pub scan_regions : List MemoryRegion → Option ℕ
  unfolding scan_range
  scan_regions [] = none
  scan_regions (r ∷ rs) =
      let rest = scan_regions rs in
      if is_scanned r then or_else (scan_range r.base (r.base + r.size)) rest else rest

  -- A map that is null is an empty one.
  unfoldable pub find_rsdp : List MemoryRegion → Option ℕ
  unfolding scan_range scan_regions
  find_rsdp map = or_else (scan_range 0xE_0000 0x10_0000) (scan_regions map)

  -- The first of `n` addresses of `size` bytes each, from `at` on, at which a signature lies.
  unfoldable pub find_entry : (size n at : ℕ) → List ℕ → Option ℕ
  unfolding load_bytes from_le same_bytes
  find_entry size zero at sig = none
  find_entry size (suc n) at sig =
      let entry = number_at m at size in
      let rest = find_entry size n (at + size) sig in
      if same_bytes (load_bytes m entry 4) sig then some entry else rest

  abbrev pub table_length : ℕ → ℕ
  table_length table = number_at m (table + 4) 4

  abbrev pub find_table_xsdt : ℕ → List ℕ → Option ℕ
  find_table_xsdt xsdt sig =
      find_entry 8 ((table_length xsdt - header_size) / 8) (xsdt + header_size) sig

  abbrev pub find_table_rsdt : ℕ → List ℕ → Option ℕ
  find_table_rsdt rsdt sig =
      find_entry 4 ((table_length rsdt - header_size) / 4) (rsdt + header_size) sig

  -- What the structure at `p` adds: the processor's id, if it describes an enabled one.
  abbrev pub apic_id_at : (p ic_len : ℕ) → List ℕ
  apic_id_at p ic_len =
      if (m p == 0) && leb 8 ic_len
      then if number_at m (p + 4) 4 % 2 == 0 then [] else m (p + 3) ∷ []
      else []

  -- The structures of the table `madt` from offset `off` on.
  unfoldable pub structures : (turns madt off total : ℕ) → List ℕ
  unfolding load_bytes from_le
  structures zero madt off total = []
  structures (suc turns) madt off total =
      let ic_len = m (madt + off + 1) in
      let rest = structures turns madt (off + ic_len) total in
      if ltb total (off + 2)
      then []
      else if ltb ic_len 2
      then []
      else apic_id_at (madt + off) ic_len ++ rest

  -- A turn goes on by 2 bytes at least, so that the table's length bounds their number.
  unfoldable pub parse_madt : ℕ → ℕ × List ℕ
  unfolding structures load_bytes from_le
  parse_madt madt =
      (number_at m (madt + 36) 4, structures (table_length madt) madt madt_size (table_length madt))

  unfoldable pub find_madt : ℕ → Option ℕ
  unfolding find_entry load_bytes from_le
  find_madt rsdp =
      if leb 2 (m (rsdp + 15))
      then find_table_xsdt (number_at m (rsdp + 24) 8) (codes "APIC")
      else find_table_rsdt (number_at m (rsdp + 16) 4) (codes "APIC")

  unfoldable pub init : List MemoryRegion → Option AcpiInfo
  unfolding find_rsdp find_madt parse_madt load_bytes from_le
  init map = elim (find_rsdp map) [
    | none ↦ none
    | some rsdp ↦ elim (find_madt rsdp) [
      | none ↦ none
      | some madt ↦
          let (lapic_base, apic_ids) = parse_madt madt in
          some (record {
            lapic_base = lapic_base;
            ap_ids = apic_ids;
            bsp_id = number_at m (lapic_base + 0x20) 4 / 2 ^ 24;
          })
    ]
  ]
