-- ===== src/Pmm.antt =====
-- ross-kernel/src/pmm.rs: the physical page allocator, a bitmap of 4 KB pages (1 = allocated).
pub mod Bitmap
pub mod Alloc
pub mod Calls
pub mod Regions
use ross_os.Base.{
  ℕ, zero, suc, ◌+◌, ◌-◌, ◌*◌, ◌/◌, ◌%◌, List, [], ◌∷◌, Option, none, some, Bool, true, false, min,
  ltb, leb, ◌==◌, if◌then◌else◌, get_or, set, replicate,
}
use ross_os.Base.Bits.{has_bit, set_bit, clear_bit}

abbrev pub page_size : ℕ
page_size = 4096

abbrev pub bitmap_bytes : ℕ
bitmap_bytes = 32 * 1024

abbrev pub max_pages : ℕ
max_pages = bitmap_bytes * 8

pub record PmmState : Type 0 where
  pub bitmap : List ℕ
  pub free_count : ℕ
  pub total_count : ℕ

-- Everything is allocated until `init` runs.
unfoldable pub new_state : PmmState
new_state = record { bitmap = replicate bitmap_bytes 0xFF; free_count = 0; total_count = 0 }

pub data MemoryKind : Type 0 where
  usable used reserved : MemoryKind

pub record MemoryRegion : Type 0 where
  pub base : ℕ
  pub size : ℕ
  pub kind : MemoryKind

-- One round of the loop of `init`: page `i` becomes free if it was not.
pub release : PmmState → ℕ → PmmState
release s i =
    let byte = get_or s.bitmap (i / 8) 0xFF in
    if has_bit byte (i % 8)
    then record {
      bitmap = set s.bitmap (i / 8) (clear_bit byte (i % 8));
      free_count = s.free_count + 1;
      total_count = s.total_count + 1;
    }
    else s

-- `for i in start..start + n`.
pub release_range : ℕ → ℕ → PmmState → PmmState
release_range zero start s = s
release_range (suc n) start s = release_range n (start + 1) (release s start)

-- The pages `start..(start + pages).min(MAX_PAGES)` of a usable region.
pub add_region : PmmState → MemoryRegion → MemoryKind → PmmState
add_region s r MemoryKind.usable =
    let start = r.base / page_size in
    release_range (min (start + r.size / page_size) max_pages - start) start s
add_region s r _ = s

-- A null map is the empty list.
unfoldable pub init : List MemoryRegion → PmmState → PmmState
unfolding release release_range add_region
init [] s = s
init (r ∷ rs) s = init rs (add_region s r r.kind)

-- The first clear bit among `n` from `bit` on.
find_bit : ℕ → ℕ → ℕ → Option ℕ
find_bit zero bit byte = none
find_bit (suc n) bit byte =
    let rest = find_bit n (bit + 1) byte in if has_bit byte bit then rest else some bit

-- The first page with a clear bit among the bytes from `idx` on; full bytes are skipped.
pub find_page : List ℕ → ℕ → Option ℕ
find_page [] idx = none
find_page (byte ∷ bytes) idx =
    let rest = find_page bytes (idx + 1) in
    if byte == 0xFF
    then rest
    else elim (find_bit 8 0 byte) [ some bit ↦ some (idx * 8 + bit) | none ↦ rest ]

take_page : PmmState → Option ℕ → Option ℕ × PmmState
take_page s none = (none, s)
take_page s (some page) = (
  some (page * page_size),
  record s {
    bitmap = set s.bitmap (page / 8) (set_bit (get_or s.bitmap (page / 8) 0xFF) (page % 8));
    free_count = s.free_count - 1;
  },
)

-- The subtraction from `free_count` saturates.
unfoldable pub alloc_page : PmmState → Option ℕ × PmmState
unfolding find_bit find_page take_page
alloc_page s = take_page s (find_page s.bitmap 0)

unfoldable pub free_page : PmmState → ℕ → PmmState
free_page s addr =
    let page = addr / page_size in
    let byte = get_or s.bitmap (page / 8) 0xFF in
    if leb max_pages page
    then s
    else if has_bit byte (page % 8)
    then record s {
      bitmap = set s.bitmap (page / 8) (clear_bit byte (page % 8));
      free_count = s.free_count + 1;
    }
    else s

unfoldable pub free_mib : PmmState → ℕ
free_mib s = s.free_count * page_size / (1024 * 1024)

unfoldable pub total_mib : PmmState → ℕ
total_mib s = s.total_count * page_size / (1024 * 1024)
