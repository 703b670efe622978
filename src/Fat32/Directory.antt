-- ===== src/Fat32/Directory.antt =====
-- ross-kernel/src/fat32.rs: directories. The walk along a directory's chain has no bound in the source;
-- here it takes `turns`, and is `endless` when they do not suffice.
use ross_os.Base.{
  ℕ, zero, suc, ◌+◌, ◌/◌, List, [], ◌∷◌, ◌++◌, Option, none, some, Bool, true, false, ◌||◌, ◌==◌,
  leb, if◌then◌else◌, get_or, take, drop, replicate,
}
use ross_os.Base.Bits.{has_bit}
use ross_os.Base.Bytes.{overwrite}
use ross_os.Disk.{Cmd, DiskOps, ok, err, endless, pure, fails, and_then, ◌>>=◌, ◌>>◌}
use ross_os.Vfs.{Stat, NodeType}
use ross_os.Fat32.{Fat32Fs, in_chain, cluster_size_bytes, read_cluster, write_cluster, next_cluster}
use ross_os.Fat32.Chains.{alloc_cluster}
use ross_os.Fat32.Names.{decode_8_3, name_matches, first_cluster_of, entry_size, to_8_3}

-- A node but for its file system, which all share.
pub record Fat32Node : Type 0 where
  pub first_cluster : ℕ
  pub size : ℕ
  pub is_dir : Bool
  pub parent_cluster : ℕ
  pub dir_entry_offset : ℕ

-- `Fat32Node::dir` and `Fat32Node::file`.
abbrev pub dir_node : (first parent off : ℕ) → Fat32Node
dir_node first parent off = record {
  first_cluster = first;
  size = 0;
  is_dir = true;
  parent_cluster = parent;
  dir_entry_offset = off;
}

abbrev pub file_node : (first size parent off : ℕ) → Fat32Node
file_node first size parent off = record {
  first_cluster = first;
  size = size;
  is_dir = false;
  parent_cluster = parent;
  dir_entry_offset = off;
}

-- `Fat32Fs::root`.
abbrev pub root : Fat32Fs → Fat32Node
root fs = dir_node fs.bpb.root_cluster 0 0

abbrev pub attribute : Fat32Node → Stat
attribute node = record {
  size = node.size;
  node_type = if node.is_dir then NodeType.directory else NodeType.file;
}

-- How the walk through one cluster ends: the whole walk is over, or the next cluster follows. `A` is
-- the state of the caller's closure.
pub data Walk (A T : Type 0) : Type 0 where
  stop : Option T → A → Walk A T
  more : A → Walk A T

-- The 32 bytes of the entry at `off`.
abbrev pub entry_at : List ℕ → ℕ → List ℕ
entry_at buf off = take 32 (drop off buf)

-- Deleted entries, long names and volume labels are passed over.
abbrev pub is_skipped : List ℕ → Bool
is_skipped entry =
    (get_or entry 0 0 == 0xE5) || (get_or entry 0x0B 0 == 0x0F) || has_bit (get_or entry 0x0B 0) 3

abbrev pub is_free : ℕ → Bool
is_free b = (b == 0x00) || (b == 0xE5)

abbrev pub found_or : {A T : Type 0} → Option T × A → (A → Walk A T) → Walk A T
found_or (some v, a) rest = stop (some v) a
found_or (none, a) rest = rest a

module _ {A T : Type 0} (f : A → List ℕ → (cluster off : ℕ) → Option T × A) where
  -- The `n` entries from offset `off` on.
  unfoldable pub walk_entries : (n off : ℕ) (buf : List ℕ) (cluster : ℕ) → A → Walk A T
  walk_entries zero off buf cluster a = more a
  walk_entries (suc n) off buf cluster a =
      let entry = entry_at buf off in
      let skip = walk_entries n (off + 32) buf cluster a in
      let look = found_or (f a entry cluster off) (walk_entries n (off + 32) buf cluster) in
      if get_or entry 0 0 == 0x00 then stop none a else if is_skipped entry then skip else look

  unfoldable pub walk_chain :
      {D : Type 0} → DiskOps D → Fat32Fs → (turns cluster : ℕ) → A → Cmd D (Option T × A)
  walk_chain disk fs zero cluster a = λ d. (endless, d)
  walk_chain disk fs (suc turns) cluster a = λ d. elim (in_chain cluster) [
    | false ↦ (ok (none, a), d)
    | true ↦ and_then (read_cluster disk fs cluster d) λ buf d'.
        elim (walk_entries (cluster_size_bytes fs / 32) 0 buf cluster a) [
          | stop r a' ↦ (ok (r, a'), d')
          | more a' ↦
              and_then (next_cluster disk fs cluster d') λ next. walk_chain disk fs turns next a'
        ]
  ]

-- The offset of the first free one of the `n` entries from `off` on.
unfoldable pub free_entry : (n off : ℕ) → List ℕ → Option ℕ
free_entry zero off buf = none
free_entry (suc n) off buf =
    let rest = free_entry n (off + 32) buf in if is_free (get_or buf off 0) then some off else rest

-- What `create` writes into the cluster of the slot: the new entry, and an end mark behind it.
unfoldable pub with_entry : (cb : ℕ) → List ℕ → (slot : ℕ) → List ℕ → List ℕ
unfolding overwrite
with_entry cb buf slot name83 =
    let cleared = overwrite buf slot (replicate 32 0) in
    let named = overwrite cleared slot name83 in
    let entered = overwrite named (slot + 0x0B) (0x20 ∷ []) in
    if leb (slot + 64) cb then overwrite entered (slot + 32) (0x00 ∷ []) else entered

-- The closure of `finddir`: what a matching entry says, and where it lies.
unfoldable pub found_node :
    List ℕ → Unit {0} → List ℕ → (cluster off : ℕ) → Option Fat32Node × Unit {0}
unfolding name_matches first_cluster_of entry_size
found_node name u entry cluster off =
    if name_matches entry name
    then (
      some (
          if has_bit (get_or entry 0x0B 0) 4
          then dir_node (first_cluster_of entry) cluster off
          else file_node (first_cluster_of entry) (entry_size entry) cluster off),
      u,
    )
    else (none, u)

-- The closure of `readdir`.
unfoldable pub noted_name :
    List (List ℕ) → List ℕ → (cluster off : ℕ) → Option (Unit {0}) × List (List ℕ)
unfolding decode_8_3
noted_name names entry cluster off = (none, names ++ (decode_8_3 entry ∷ []))

module _ {D : Type 0} (disk : DiskOps D) (fs : Fat32Fs) (turns : ℕ) where
  -- The loop of `find_free_slot`; behind the last cluster of the chain, a new one is linked.
  unfoldable pub slot_loop : (turns cluster last : ℕ) → Cmd D (ℕ × ℕ)
  slot_loop zero cluster last = λ d. (endless, d)
  slot_loop (suc t) cluster last = λ d. elim (in_chain cluster) [
    | false ↦ and_then (alloc_cluster disk fs (some last) d) λ c. pure (c, 0)
    | true ↦ and_then (read_cluster disk fs cluster d) λ buf d'.
        elim (free_entry (cluster_size_bytes fs / 32) 0 buf) [
          | some off ↦ (ok (cluster, off), d')
          | none ↦ and_then (next_cluster disk fs cluster d') λ next. slot_loop t next cluster
        ]
  ]

  abbrev pub find_free_slot : Fat32Node → Cmd D (ℕ × ℕ)
  find_free_slot node = slot_loop turns node.first_cluster node.first_cluster

  found_in : Option Fat32Node × Unit {0} → Cmd D Fat32Node
  found_in (none, u) = fails
  found_in (some node, u) = pure node

  unfoldable pub finddir : Fat32Node → List ℕ → Cmd D Fat32Node
  unfolding found_in
  finddir node name d =
      if node.is_dir
      then and_then (walk_chain (found_node name) disk fs turns node.first_cluster tt d) found_in
      else (err, d)

  unfoldable pub readdir : Fat32Node → Cmd D (List (List ℕ))
  readdir node d =
      if node.is_dir
      then and_then (walk_chain noted_name disk fs turns node.first_cluster [] d) (λ r. pure r.1)
      else (err, d)

  enter : List ℕ → ℕ × ℕ → Cmd D Fat32Node
  enter name83 (cluster, off) = do
    buf ← read_cluster disk fs cluster
    write_cluster disk fs cluster (with_entry (cluster_size_bytes fs) buf off name83)
    pure (file_node 0 0 cluster off)

  create_unless : Fat32Node → List ℕ → Option Fat32Node × Unit {0} → Cmd D Fat32Node
  unfolding enter
  create_unless node name83 (some old, u) = fails
  create_unless node name83 (none, u) = do slot ← find_free_slot node; enter name83 slot

  create_as : Fat32Node → List ℕ → Option (List ℕ) → Cmd D Fat32Node
  unfolding create_unless
  create_as node name none = fails
  create_as node name (some name83) = do
    dup ← walk_chain (found_node name) disk fs turns node.first_cluster tt
    create_unless node name83 dup

  -- The search for a duplicate walks and matches as `finddir` does.
  unfoldable pub create : Fat32Node → List ℕ → Cmd D Fat32Node
  unfolding create_as
  create node name d = if node.is_dir then create_as node name (to_8_3 name) d else (err, d)
