-- ===== src/Fd.antt =====
-- ross-kernel/src/fd.rs: the file descriptor table of a task. `Node` is the type of VFS nodes.
pub mod Laws
use ross_os.Base.{
  ℕ, ◌+◌, ◌-◌, List, [], ◌∷◌, Option, none, some, Bool, true, false, ◌&&◌, set, slot_at, find_free,
  replicate, ltb, if◌then◌else◌,
}

abbrev pub fd_max : ℕ
fd_max = 64

pub data FdEntry (Node : Type 0) : Type 0 where
  stdin : FdEntry Node
  stdout : FdEntry Node
  stderr : FdEntry Node
  pipe : ℕ → FdEntry Node
  vfs_file : Node → ℕ → FdEntry Node

-- `slots`.
abbrev pub FdTable : Type 0 → Type 0
FdTable Node = List (Option (FdEntry Node))

abbrev pub is_some {ℓ} : {A : Type ℓ} → Option A → Bool
is_some none = false
is_some (some a) = true

module _ {Node : Type 0} where
  abbrev pub new_table : FdTable Node
  new_table = replicate fd_max none

  unfoldable pub with_stdio : FdTable Node
  with_stdio = set (set (set new_table 0 (some stdin)) 1 (some stdout)) 2 (some stderr)

  alloc_at : FdTable Node → FdEntry Node → Option ℕ → Option ℕ × FdTable Node
  alloc_at t entry none = (none, t)
  alloc_at t entry (some i) = (some i, set t i (some entry))

  -- The first free descriptor from 3 on.
  unfoldable pub alloc : FdTable Node → FdEntry Node → Option ℕ × FdTable Node
  unfolding alloc_at
  alloc t entry = alloc_at t entry (find_free (fd_max - 3) 3 t)

  abbrev pub get : FdTable Node → ℕ → Option (FdEntry Node)
  get t fd = slot_at t fd

  unfoldable pub close : FdTable Node → ℕ → Bool × FdTable Node
  close t fd = if ltb fd fd_max && is_some (slot_at t fd) then (true, set t fd none) else (false, t)

  moved_at : FdTable Node → (fd n : ℕ) → Option (FdEntry Node) → FdTable Node
  moved_at t fd n none = t
  moved_at t fd n (some (vfs_file node off)) = set t fd (some (vfs_file node (off + n)))
  moved_at t fd n (some _) = t

  -- `*off += n` through `get_mut`, which only a file has.
  unfoldable pub move_offset : FdTable Node → ℕ → ℕ → FdTable Node
  unfolding moved_at
  move_offset t fd n = moved_at t fd n (slot_at t fd)
