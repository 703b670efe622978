-- ===== src/Ramfs.antt =====
-- ross-kernel/src/ramfs.rs: the files of a tar archive as a file system. `is_utf8` stands for the test
-- of core::str::from_utf8, and `trim` for str::trim.
pub mod Scan
use ross_os.Base.{
  ℕ, zero, suc, ◌+◌, ◌-◌, ◌*◌, ◌/◌, List, [], ◌∷◌, ◌++◌, Option, none, some, Bool, true, false,
  ◌&&◌, ◌||◌, min, length, take, drop, map, ltb, leb, ◌==◌, if◌then◌else◌,
}
use ross_os.Base.Text.{same_bytes}
use ross_os.Disk.{Result, ok, err, panic, endless}
use ross_os.Vfs.{NodeOps, Stat, NodeType}

pub record TarFile : Type 0 where
  pub name : List ℕ
  pub bytes : List ℕ

-- `files` of `TarFileSystem`.
abbrev pub TarFileSystem : Type 0
TarFileSystem = List TarFile

-- The bytes of a header's field.
abbrev pub field : (start len : ℕ) → List ℕ → List ℕ
field start len header = take len (drop start header)

-- "ustar".
abbrev pub ustar : List ℕ
ustar = b'u' ∷ b's' ∷ b't' ∷ b'a' ∷ b'r' ∷ []

-- `trim_matches('\0')`, at the start and at the end.
unfoldable pub trim_zeros_start : List ℕ → List ℕ
trim_zeros_start [] = []
trim_zeros_start (b ∷ bs) = let rest = trim_zeros_start bs in if b == 0 then rest else b ∷ bs

abbrev pub or_zero : ℕ → List ℕ → List ℕ
or_zero b [] = if b == 0 then [] else b ∷ []
or_zero b (c ∷ cs) = b ∷ c ∷ cs

unfoldable pub trim_zeros_end : List ℕ → List ℕ
trim_zeros_end [] = []
trim_zeros_end (b ∷ bs) = or_zero b (trim_zeros_end bs)

abbrev pub trim_zeros : List ℕ → List ℕ
trim_zeros bs = trim_zeros_end (trim_zeros_start bs)

-- `starts_with("./")`, and the name without it.
abbrev pub without_dot : List ℕ → List ℕ
without_dot (a ∷ b ∷ rest) = if (a == b'.') && (b == b'/') then rest else a ∷ b ∷ rest
without_dot name = name

-- The digits behind `value`; `none` for any other byte.
unfoldable pub octal : ℕ → List ℕ → Option ℕ
octal value [] = some value
octal value (d ∷ ds) =
    let rest = octal (value * 8 + (d - b'0')) ds in if leb b'0' d && leb d b'7' then rest else none

-- `usize::from_str_radix(text, 8)`: a sign may precede the digits, of which there is at least one. The
-- field has 12 bytes, so that the value fits.
unfoldable pub from_octal : List ℕ → Option ℕ
from_octal [] = none
from_octal (c ∷ []) = if c == b'+' then none else octal 0 (c ∷ [])
from_octal (c ∷ d ∷ ds) = if c == b'+' then octal 0 (d ∷ ds) else octal 0 (c ∷ d ∷ ds)

abbrev pub or_none : Option ℕ → ℕ
or_none none = 0
or_none (some n) = n

module _ (is_utf8 : List ℕ → Bool) (trim : List ℕ → List ℕ) where
  abbrev pub file_name : List ℕ → List ℕ
  file_name header =
      without_dot (trim_zeros (if is_utf8 (field 0 100 header) then field 0 100 header else []))

  abbrev pub file_size : List ℕ → ℕ
  file_size header =
      let text = if is_utf8 (field 124 12 header) then field 124 12 header else b'0' ∷ [] in
      or_none (from_octal (trim (trim_zeros text)))

  -- `size` rounded up to 512-byte blocks, and the header's block.
  abbrev pub entry_len : ℕ → ℕ
  entry_len size = 512 + (size + 511) / 512 * 512

  abbrev pub keep_file : TarFile → Result (List TarFile) → Result (List TarFile)
  keep_file f (ok files) = ok (f ∷ files)
  keep_file f err = err
  keep_file f panic = panic
  keep_file f endless = endless

  -- The loop of `TarFileSystem::new` on the data from `offset` on, in at most so many tests of its
  -- condition; `endless` when they do not suffice. `panic` is the one of a slice that goes beyond the
  -- archive.
  unfoldable pub scan : ℕ → List ℕ → Result (List TarFile)
  scan zero bytes = endless
  scan (suc turns) bytes =
      let name = file_name bytes in
      let size = file_size bytes in
      let rest = scan turns (drop (entry_len size) bytes) in
      if ltb (length bytes) 512
      then ok []
      else if same_bytes (field 257 5 bytes) ustar
      then (if same_bytes name [] || same_bytes name (b'.' ∷ [])
          then rest
          else if ltb (length bytes) (512 + size)
          then panic
          else keep_file (record { name = name; bytes = field 512 size bytes }) rest)
      else ok []

  -- Each turn leaves 512 bytes fewer at least, so that one more than there are bytes is enough.
  unfoldable pub new : List ℕ → Result TarFileSystem
  new bytes = scan (suc (length bytes)) bytes

-- `TarFile::read`.
unfoldable pub file_read : List ℕ → (offset len : ℕ) → List ℕ
file_read bytes offset len =
    if leb (length bytes) offset
    then []
    else take (min (length bytes - offset) len) (drop offset bytes)

pub data TarNode : Type 0 where
  root : TarNode
  file : TarFile → TarNode

-- The first file of that name.
unfoldable pub find_file : List TarFile → List ℕ → Option TarNode
find_file [] name = none
find_file (f ∷ files) name =
    let rest = find_file files name in if same_bytes f.name name then some (file f) else rest

-- Both implementations of `VfsNode`, which keep its defaults for `write` and `create`.
unfoldable pub tar_ops : NodeOps TarFileSystem TarNode
tar_ops = record {
  attribute = λ fs node. elim node [
    | root ↦ record { size = 0; node_type = NodeType.directory }
    | file f ↦ record { size = length f.bytes; node_type = NodeType.file }
  ];
  read = λ fs node offset len. elim node [
    | root ↦ none
    | file f ↦ some (file_read f.bytes offset len)
  ];
  readdir = λ fs node. elim node [ root ↦ some (map (λ f. f.name) fs) | file f ↦ none ];
  finddir = λ fs node name. elim node [ root ↦ find_file fs name | file f ↦ none ];
  write = λ fs node offset bytes. (none, fs);
  create = λ fs node name. (none, fs);
}
