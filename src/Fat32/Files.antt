-- ===== src/Fat32/Files.antt =====
-- ross-kernel/src/fat32.rs: reading and writing a file. The cells of a node that `write` changes are
-- part of the state, since they keep their values where it fails.
use ross_os.Base.{
  ℕ, zero, suc, ◌+◌, ◌-◌, ◌/◌, ◌%◌, ◌^◌, List, [], none, some, true, false, ◌==◌, ◌||◌, ltb, leb,
  if◌then◌else◌, min, max, length, take, drop,
}
use ross_os.Base.Bytes.{overwrite, to_le}
use ross_os.Disk.{Cmd, DiskOps, ok, err, panic, endless, pure, and_then, ◌>>=◌}
use ross_os.Fat32.{
  Fat32Fs, end_of_chain, cluster_size_bytes, read_cluster, write_cluster, next_cluster,
}
use ross_os.Fat32.Chains.{alloc_cluster, read_chain_into}
use ross_os.Fat32.Directory.{Fat32Node}

pub record Open (D : Type 0) : Type 0 where
  pub disk : D
  pub node : Fat32Node

-- An operation on the disk alone.
abbrev pub lift : {D A : Type 0} → Cmd D A → Cmd (Open D) A
lift m o = let (r, d) = m o.disk in (r, record o { disk = d })

-- The bytes of the chain that a read is given.
abbrev pub slice : (offset end : ℕ) → List ℕ → List ℕ
slice offset end chain = if leb end offset then [] else drop offset (take end chain)

module _ {D : Type 0} (disk : DiskOps D) (fs : Fat32Fs) where
  unfoldable pub read : Fat32Node → (offset len : ℕ) → Cmd D (List ℕ)
  read node offset len d =
      let end = offset + min len (node.size - offset) in
      if node.is_dir
      then (err, d)
      else if leb node.size offset
      then (ok [], d)
      else and_then (read_chain_into disk fs node.first_cluster end d)
          λ chain. pure (slice offset (min (length chain) end) chain)

  -- Writes `bytes` at `offset` of a cluster that holds a directory entry; a slice that goes beyond
  -- the cluster panics.
  unfoldable pub patch_cluster : (cluster offset : ℕ) → List ℕ → Cmd D (Unit {0})
  unfolding overwrite
  patch_cluster cluster offset bytes = do
    buf ← read_cluster disk fs cluster
    λ d.
        if leb (offset + length bytes) (cluster_size_bytes fs)
        then write_cluster disk fs cluster (overwrite buf offset bytes) d
        else (panic, d)

  unfoldable pub update_size_on_disk : Fat32Node → ℕ → Cmd D (Unit {0})
  unfolding to_le
  update_size_on_disk node new_size d =
      if node.parent_cluster == 0
      then (ok tt, d)
      else patch_cluster node.parent_cluster (node.dir_entry_offset + 0x1C) (to_le 4 new_size) d

  -- The first cluster in the entry: its upper and its lower half.
  unfoldable pub update_first_on_disk : Fat32Node → ℕ → Cmd D (Unit {0})
  unfolding to_le overwrite
  update_first_on_disk node c d =
      let o = node.dir_entry_offset in
      if node.parent_cluster == 0
      then (ok tt, d)
      else and_then (read_cluster disk fs node.parent_cluster d) λ buf d'.
        if leb (o + 0x1C) (cluster_size_bytes fs)
        then write_cluster disk fs node.parent_cluster
            (overwrite (overwrite buf (o + 0x14) (to_le 2 (c / 2 ^ 16))) (o + 0x1A) (to_le 2 c)) d'
        else (panic, d')

  unfoldable pub ensure_first : Cmd (Open D) (Unit {0})
  ensure_first o =
      if ltb o.node.first_cluster 2
      then and_then (lift (alloc_cluster disk fs none) o) (λ c o'.
        lift (update_first_on_disk o'.node c)
          (record o' { node = record (o'.node) { first_cluster = c } }))
      else (ok tt, o)

  -- The cluster behind `cluster`, allocated where the chain ends.
  unfoldable pub next_or_new : (cluster : ℕ) → Cmd D ℕ
  next_or_new cluster d = and_then (next_cluster disk fs cluster d) λ next d'.
      if leb end_of_chain next then alloc_cluster disk fs (some cluster) d' else (ok next, d')

  unfoldable pub skip_clusters : (n cluster : ℕ) → Cmd D ℕ
  skip_clusters zero cluster = pure cluster
  skip_clusters (suc n) cluster = λ d. and_then (next_or_new cluster d) (skip_clusters n)

  -- The write loop on the bytes that are left; each turn writes one of them at least.
  unfoldable pub write_loop : (turns cluster buf_off : ℕ) → List ℕ → Cmd D (Unit {0})
  unfolding overwrite
  write_loop zero cluster buf_off bytes = λ d. (endless, d)
  write_loop (suc turns) cluster buf_off bytes = λ d.
      let n = min (length bytes) (cluster_size_bytes fs - buf_off) in
      elim (length bytes == 0) [
        | true ↦ (ok tt, d)
        | false ↦ and_then (read_cluster disk fs cluster d) λ buf d'.
            and_then (write_cluster disk fs cluster (overwrite buf buf_off (take n bytes)) d')
              λ _ d''. elim (leb (length bytes) n) [
                | true ↦ (ok tt, d'')
                | false ↦
                    and_then (next_or_new cluster d'')
                      λ next. write_loop turns next 0 (drop n bytes)
              ]
      ]

  -- `old_size` is what the cell held when the call began.
  unfoldable pub grow : (old_size new_size : ℕ) → Cmd (Open D) (Unit {0})
  grow old_size new_size o =
      if ltb old_size new_size
      then lift (update_size_on_disk o.node (new_size % 2 ^ 32))
          (record o { node = record (o.node) { size = new_size % 2 ^ 32 } })
      else (ok tt, o)

  -- From the cluster of the offset on, along the chain that starts with `first`.
  unfoldable pub write_at : (offset first : ℕ) → List ℕ → Cmd D (Unit {0})
  write_at offset first bytes = do
    cluster ← skip_clusters (offset / cluster_size_bytes fs) first
    write_loop (length bytes) cluster (offset % cluster_size_bytes fs) bytes

  unfoldable pub write_from : (offset : ℕ) → List ℕ → Cmd (Open D) (Unit {0})
  unfolding write_at
  write_from offset bytes o = lift (write_at offset o.node.first_cluster bytes) o

  -- The number of bytes written is that of all of them.
  unfoldable pub write : (offset : ℕ) → List ℕ → Cmd (Open D) ℕ
  unfolding write_from
  write offset bytes o =
      if o.node.is_dir || (length bytes == 0)
      then (err, o)
      else and_then (ensure_first o) λ _ o'. and_then (write_from offset bytes o') λ _ o''.
        and_then (grow o.node.size (max (offset + length bytes) o.node.size) o'')
          λ _. pure (length bytes)
