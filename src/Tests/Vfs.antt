-- ===== src/Tests/Vfs.antt =====
-- Paths at concrete inputs, on a file system whose nodes are numbers.
use ross_os.Base.{ℕ, ◌+◌, ◌≡◌, refl, [], ◌∷◌, ◌++◌, none, some, length, if◌then◌else◌, ◌==◌}
use ross_os.Vfs.{
  NodeOps, VfsRoot, NodeType, slash, split, nonempty, trim_slashes, strip_prefix, mnt_disk,
  open_path, find, components,
}
use ross_os.Vfs.Lookup.{open_path-join}

-- The child `name` of node `n` is `n + length name`, but 9 has no children; a read of a node gives its
-- number.
abbrev pub toy : NodeOps Unit ℕ
toy = record {
  attribute = λ w n. record { size = n; node_type = NodeType.file };
  read = λ w n off len. if len == 0 then some [] else some (n ∷ []);
  readdir = λ w n. some [];
  finddir = λ w n name. if n == 9 then none else some (n + length name);
  write = λ w n off bytes. (none, w);
  create = λ w n name. (none, w);
}

abbrev pub mounts : VfsRoot ℕ
mounts = record { root_node = some 100; disk_root = some 200 }

open_path-join_example :
    open_path toy tt mounts (b'/' ∷ b'b' ∷ b'i' ∷ b'n' ∷ b'/' ∷ b'/' ∷ b's' ∷ b'h' ∷ [])
    ≡ find toy tt
        (open_path toy tt mounts (b'/' ∷ b'b' ∷ b'i' ∷ b'n' ∷ []))
        (components (b'/' ∷ b's' ∷ b'h' ∷ []))
unfolding trim_slashes strip_prefix
open_path-join_example =
    open_path-join toy tt mounts (b'/' ∷ b'b' ∷ b'i' ∷ b'n' ∷ []) (b'/' ∷ b's' ∷ b'h' ∷ []) refl
      refl

-- `/mnt/disk/a` is `a` on the disk.
on_the_disk :
    open_path toy tt mounts (slash ∷ mnt_disk ++ (slash ∷ b'a' ∷ []))
    ≡ find toy tt (some 200) ((b'a' ∷ []) ∷ [])
unfolding open_path trim_slashes strip_prefix split nonempty find
on_the_disk = refl

-- `mnt/diskette` is `ette` on the disk, not a node of the root file system.
diskette :
    open_path toy tt mounts (mnt_disk ++ (b'e' ∷ b't' ∷ b't' ∷ b'e' ∷ []))
    ≡ find toy tt (some 200) ((b'e' ∷ b't' ∷ b't' ∷ b'e' ∷ []) ∷ [])
unfolding open_path trim_slashes strip_prefix split nonempty find
diskette = refl
