-- ===== src/Vfs.antt =====
-- ross-kernel/src/vfs.rs: paths, the two mounts, and the trait that file systems implement.
-- A path or a name is the list of its bytes.
pub mod Lookup
use ross_os.Base.{
  ℕ, List, [], ◌∷◌, ◌++◌, Option, none, some, Bool, true, false, not, ◌&&◌, ◌==◌, if◌then◌else◌,
}

pub data NodeType : Type 0 where
  file directory : NodeType

pub record Stat : Type 0 where
  pub size : ℕ
  pub node_type : NodeType

-- `VfsNode`, over the state `World` of whatever the nodes stand on: a node whose methods return, as the
-- trait has them. A read gives the bytes that it puts at the front of a buffer of the given length;
-- `none` is `Err(())`. Methods that panic or never return, such as those of Fat32 on a damaged
-- volume, are outside this record.
pub record NodeOps (World Node : Type 0) : Type 0 where
  pub attribute : World → Node → Stat
  pub read : World → Node → (offset len : ℕ) → Option (List ℕ)
  pub readdir : World → Node → Option (List (List ℕ))
  pub finddir : World → Node → List ℕ → Option Node
  pub write : World → Node → ℕ → List ℕ → Option ℕ × World
  pub create : World → Node → List ℕ → Option Node × World

pub record VfsRoot (Node : Type 0) : Type 0 where
  pub root_node : Option Node
  pub disk_root : Option Node

abbrev pub slash : ℕ
slash = b'/'

-- `trim_start_matches('/')`.
unfoldable pub trim_slashes : List ℕ → List ℕ
trim_slashes [] = []
trim_slashes (c ∷ cs) = let rest = trim_slashes cs in if c == slash then rest else c ∷ cs

-- Puts `c` in front of the first piece.
abbrev pub prepend : ℕ → List (List ℕ) → List (List ℕ)
prepend c [] = (c ∷ []) ∷ []
prepend c (piece ∷ pieces) = (c ∷ piece) ∷ pieces

-- `split('/')`.
unfoldable pub split : List ℕ → List (List ℕ)
split [] = [] ∷ []
split (c ∷ cs) = let rest = split cs in if c == slash then [] ∷ rest else prepend c rest

-- `filter(|s| !s.is_empty())`.
unfoldable pub nonempty : List (List ℕ) → List (List ℕ)
nonempty [] = []
nonempty ([] ∷ pieces) = nonempty pieces
nonempty ((c ∷ cs) ∷ pieces) = (c ∷ cs) ∷ nonempty pieces

abbrev pub components : List ℕ → List (List ℕ)
components path = nonempty (split path)

-- `strip_prefix`.
unfoldable pub strip_prefix : List ℕ → List ℕ → Option (List ℕ)
strip_prefix [] path = some path
strip_prefix (p ∷ ps) [] = none
strip_prefix (p ∷ ps) (c ∷ cs) = let rest = strip_prefix ps cs in if p == c then rest else none

abbrev pub mnt_disk : List ℕ
mnt_disk = b'm' ∷ b'n' ∷ b't' ∷ b'/' ∷ b'd' ∷ b'i' ∷ b's' ∷ b'k' ∷ []

-- The text before and behind the last slash, if there is one (`rfind('/')`).
unfoldable pub split_last : List ℕ → Option (List ℕ × List ℕ)
split_last [] = none
split_last (c ∷ cs) = elim (split_last cs) [
  | some (parent, name) ↦ some (c ∷ parent, name)
  | none ↦ if c == slash then some ([], cs) else none
]

unfoldable pub init : {Node : Type 0} → VfsRoot Node → Node → VfsRoot Node
init vfs root = record vfs { root_node = some root }

unfoldable pub mount_disk : {Node : Type 0} → VfsRoot Node → Node → VfsRoot Node
mount_disk vfs root = record vfs { disk_root = some root }

module _ {World Node : Type 0} where
  -- `finddir` for each component in turn; the first failure ends the walk.
  unfoldable pub find : NodeOps World Node → World → Option Node → List (List ℕ) → Option Node
  find ops w none names = none
  find ops w (some node) [] = some node
  find ops w (some node) (name ∷ names) = find ops w (ops.finddir w node name) names

  open_trimmed : NodeOps World Node → World → VfsRoot Node → List ℕ → Option (List ℕ) → Option Node
  open_trimmed ops w vfs trimmed (some rest) =
      find ops w vfs.disk_root (components (trim_slashes rest))
  open_trimmed ops w vfs trimmed none = find ops w vfs.root_node (components trimmed)

  unfoldable pub open_path : NodeOps World Node → World → VfsRoot Node → List ℕ → Option Node
  unfolding open_trimmed
  open_path ops w vfs path =
      let trimmed = trim_slashes path in
      open_trimmed ops w vfs trimmed (strip_prefix mnt_disk trimmed)

  create_in : NodeOps World Node → World → Option Node → List ℕ → Option Node × World
  create_in ops w none name = (none, w)
  create_in ops w (some parent) name = ops.create w parent name

  -- The parent is opened by its path, or is the root where the path names none.
  unfoldable pub create : NodeOps World Node → World → VfsRoot Node → List ℕ → Option Node × World
  unfolding create_in
  create ops w vfs path = elim (split_last (trim_slashes path)) [
    | none ↦ create_in ops w (open_path ops w vfs (slash ∷ [])) (trim_slashes path)
    | some ([], name) ↦ create_in ops w (open_path ops w vfs (slash ∷ [])) name
    | some (c ∷ parent, name) ↦ create_in ops w (open_path ops w vfs (c ∷ parent)) name
  ]
