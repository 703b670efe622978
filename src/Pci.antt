-- ===== src/Pci.antt =====
-- ross-kernel/src/pci.rs: configuration reads, the scan of the buses, and the search by class. `config`
-- stands for the two ports: the 32 bits that are read back for an address.
use ross_os.Base.{
  ℕ, zero, suc, ◌+◌, ◌*◌, ◌/◌, ◌%◌, ◌^◌, List, [], ◌∷◌, ◌++◌, Option, none, some, Bool, ◌&&◌, ◌==◌,
  if◌then◌else◌,
}
use ross_os.Base.Bits.{has_bit}
use ross_os.Base.Text.{codes}

pub record PciDevice : Type 0 where
  pub bus : ℕ
  pub device : ℕ
  pub function : ℕ
  pub vendor_id : ℕ
  pub device_id : ℕ
  pub class : ℕ
  pub subclass : ℕ
  pub prog_if : ℕ
  pub header_type : ℕ

-- The fields do not overlap for a device below 32 and a function below 8, so that the sum is the `|`.
unfoldable pub address : (bus device function offset : ℕ) → ℕ
address bus device function offset =
    2 ^ 31 + bus * 2 ^ 16 + device * 2 ^ 11 + function * 2 ^ 8 + offset % 256 / 4 * 4

abbrev pub class_is : (class subclass c s : ℕ) → Bool
class_is class subclass c s = (class == c) && (subclass == s)

unfoldable pub class_name : (class subclass : ℕ) → List ℕ
class_name class subclass =
    let is = class_is class subclass in
    if class == 0x00
    then codes "Unclassified"
    else if is 0x01 0x00
    then codes "SCSI Controller"
    else if is 0x01 0x01
    then codes "IDE Controller"
    else if is 0x01 0x06
    then codes "SATA Controller (AHCI)"
    else if is 0x01 0x08
    then codes "NVMe Controller"
    else if is 0x02 0x00
    then codes "Ethernet Controller"
    else if is 0x03 0x00
    then codes "VGA Controller"
    else if class == 0x04
    then codes "Multimedia Controller"
    else if is 0x06 0x00
    then codes "Host Bridge"
    else if is 0x06 0x01
    then codes "ISA Bridge"
    else if is 0x06 0x04
    then codes "PCI-to-PCI Bridge"
    else if is 0x0C 0x03
    then codes "USB Controller"
    else codes "Unknown"

-- The first device of a class in the registry.
unfoldable pub find_by_class : List PciDevice → (class subclass : ℕ) → Option PciDevice
find_by_class [] class subclass = none
find_by_class (d ∷ ds) class subclass =
    let rest = find_by_class ds class subclass in
    if (d.class == class) && (d.subclass == subclass) then some d else rest

module _ (config : ℕ → ℕ) where
  unfoldable pub read_config_dword : (bus device function offset : ℕ) → ℕ
  unfolding address
  read_config_dword bus device function offset = config (address bus device function offset)

  abbrev pub read_config_word : (bus device function offset : ℕ) → ℕ
  read_config_word bus device function offset =
      read_config_dword bus device function (offset / 4 * 4) / 2 ^ (offset / 2 % 2 * 16) % 2 ^ 16

  abbrev pub read_config_byte : (bus device function offset : ℕ) → ℕ
  read_config_byte bus device function offset =
      read_config_dword bus device function (offset / 4 * 4) / 2 ^ (offset % 4 * 8) % 2 ^ 8

  unfoldable pub probe : (bus device function : ℕ) → Option PciDevice
  unfolding read_config_dword
  probe bus device function =
      let vendor = read_config_word bus device function 0x00 in
      if vendor == 0xFFFF
      then none
      else some (record {
        bus = bus;
        device = device;
        function = function;
        vendor_id = vendor;
        device_id = read_config_word bus device function 0x02;
        prog_if = read_config_byte bus device function 0x09;
        subclass = read_config_byte bus device function 0x0A;
        class = read_config_byte bus device function 0x0B;
        header_type = read_config_byte bus device function 0x0E;
      })

  abbrev pub found_one : Option PciDevice → List PciDevice
  found_one none = []
  found_one (some d) = d ∷ []

  -- The functions from `f` on, `n` of them.
  unfoldable pub other_functions : (n f bus device : ℕ) → List PciDevice
  unfolding probe
  other_functions zero f bus device = []
  other_functions (suc n) f bus device =
      found_one (probe bus device f) ++ other_functions n (f + 1) bus device

  device_functions : (bus device : ℕ) → Option PciDevice → List PciDevice
  unfolding other_functions
  device_functions bus device none = []
  device_functions bus device (some d0) =
      if has_bit d0.header_type 7 then d0 ∷ other_functions 7 1 bus device else d0 ∷ []

  unfoldable pub scan_devices : (n device bus : ℕ) → List PciDevice
  unfolding device_functions probe
  scan_devices zero device bus = []
  scan_devices (suc n) device bus =
      device_functions bus device (probe bus device 0) ++ scan_devices n (device + 1) bus

  unfoldable pub scan_buses : (n bus : ℕ) → List PciDevice
  unfolding scan_devices
  scan_buses zero bus = []
  scan_buses (suc n) bus = scan_devices 32 0 bus ++ scan_buses n (bus + 1)

  abbrev pub enumerate : List PciDevice
  enumerate = scan_buses 256 0
