-- ===== src/Fat32.antt =====
-- ross-kernel/src/fat32.rs: the boot sector, clusters, and the table of cluster chains.
pub mod Chains
pub mod Names
pub mod Clusters
pub mod Table
pub mod Alloc
pub mod Write
pub mod Store
pub mod InPlace
pub mod Rewrite
pub mod Free
pub mod Content
pub mod Link
pub mod Directory
pub mod Files
use ross_os.Base.{
  ℕ, zero, suc, ◌+◌, ◌-◌, ◌*◌, ◌/◌, ◌%◌, ◌^◌, List, [], ◌∷◌, ◌++◌, Option, none, some, Bool, true,
  false, not, ◌&&◌, ◌||◌, ◌==◌, ltb, leb, if◌then◌else◌, min, length, get_or, take, drop, replicate,
}
use ross_os.Base.Bytes.{overwrite, from_le, to_le}
use ross_os.Disk.{Result, Cmd, DiskOps, ok, err, panic, endless, pure, fails, and_then, ◌>>=◌, ◌>>◌}

pub record BiosParameterBlock : Type 0 where
  pub bytes_per_sector : ℕ
  pub sectors_per_cluster : ℕ
  pub reserved_sectors : ℕ
  pub num_fats : ℕ
  pub fat_size_sectors : ℕ
  pub root_cluster : ℕ

-- The little-endian number of `n` bytes at offset `i`.
abbrev pub le_at : (n i : ℕ) → List ℕ → ℕ
le_at n i bytes = from_le (take n (drop i bytes))

-- `is_power_of_two` of a byte.
abbrev pub is_power_of_two : ℕ → Bool
is_power_of_two n =
    (n == 1)
    || (n == 2)
    || (n == 4)
    || (n == 8)
    || (n == 16)
    || (n == 32)
    || (n == 64)
    || (n == 128)

unfoldable pub parse_bpb : List ℕ → Option BiosParameterBlock
unfolding from_le
parse_bpb sector =
    let spc = get_or sector 0x0D 0 in
    if not (get_or sector 510 0 == 0x55) || not (get_or sector 511 0 == 0xAA)
    then none
    else if not (le_at 2 0x16 sector == 0)
    then none
    else if not (le_at 2 0x0B sector == 512)
    then none
    else if (spc == 0) || not (is_power_of_two spc)
    then none
    else some (record {
      bytes_per_sector = le_at 2 0x0B sector;
      sectors_per_cluster = spc;
      reserved_sectors = le_at 2 0x0E sector;
      num_fats = get_or sector 0x10 0;
      fat_size_sectors = le_at 4 0x24 sector;
      root_cluster = le_at 4 0x2C sector;
    })

pub record Fat32Fs : Type 0 where
  pub bpb : BiosParameterBlock
  pub fat_start_sector : ℕ
  pub data_start_sector : ℕ

-- 28 bits.
abbrev pub entry_mod : ℕ
entry_mod = 2 ^ 28

abbrev pub end_of_chain : ℕ
end_of_chain = 0x0FFF_FFF8

abbrev pub in_chain : ℕ → Bool
in_chain cluster = leb 2 cluster && ltb cluster end_of_chain

abbrev pub cluster_size_bytes : Fat32Fs → ℕ
cluster_size_bytes fs = fs.bpb.sectors_per_cluster * 512

abbrev pub cluster_to_sector : Fat32Fs → ℕ → ℕ
cluster_to_sector fs cluster = fs.data_start_sector + (cluster - 2) * fs.bpb.sectors_per_cluster

-- The sector and the offset in it of the entry of a cluster.
abbrev pub entry_sector : ℕ → ℕ
entry_sector cluster = cluster * 4 / 512

abbrev pub entry_pos : ℕ → ℕ
entry_pos cluster = cluster * 4 % 512

-- The upper four bits of an entry are kept: `(existing & 0xF000_0000) | (value & 0x0FFF_FFFF)`.
abbrev pub merged : (existing value : ℕ) → ℕ
merged existing value = existing / entry_mod % 16 * entry_mod + value % entry_mod

module _ {D : Type 0} (disk : DiskOps D) where
  mounted : Option BiosParameterBlock → Cmd D Fat32Fs
  mounted none = fails
  mounted (some bpb) = pure (record {
    bpb = bpb;
    fat_start_sector = bpb.reserved_sectors;
    data_start_sector = bpb.reserved_sectors + bpb.num_fats * bpb.fat_size_sectors;
  })

  unfoldable pub mount : Cmd D Fat32Fs
  unfolding mounted
  mount = do sector ← disk.read_sectors 0 1 512; mounted (parse_bpb sector)

  -- The loop of `read_cluster`, with `rem` sectors to go into the `len` bytes that the buffer has
  -- left. Each turn takes a sector at least.
  unfoldable pub read_chunks : (turns rem sec len : ℕ) → Cmd D (List ℕ)
  read_chunks zero rem sec len = pure []
  read_chunks (suc turns) rem sec len = λ d. elim (rem == 0) [
    | true ↦ (ok [], d)
    | false ↦ and_then (disk.read_sectors sec (min rem 8) len d) λ bytes d'.
        and_then (read_chunks turns (rem - min rem 8) (sec + min rem 8) (len - min rem 8 * 512) d')
          λ rest. pure (bytes ++ rest)
  ]

  unfoldable pub write_chunks : (turns rem sec : ℕ) → List ℕ → Cmd D (Unit {0})
  write_chunks zero rem sec buf = pure tt
  write_chunks (suc turns) rem sec buf = λ d. elim (rem == 0) [
    | true ↦ (ok tt, d)
    | false ↦ and_then (disk.write_sectors sec (min rem 8) buf d) λ _ d'.
        write_chunks turns (rem - min rem 8) (sec + min rem 8) (drop (min rem 8 * 512) buf) d'
  ]

  -- On a buffer of one cluster. The subtraction `cluster - 2` panics below 2.
  unfoldable pub read_cluster : Fat32Fs → ℕ → Cmd D (List ℕ)
  read_cluster fs cluster d =
      let spc = fs.bpb.sectors_per_cluster in
      if ltb cluster 2
      then (panic, d)
      else read_chunks spc spc (cluster_to_sector fs cluster) (cluster_size_bytes fs) d

  unfoldable pub write_cluster : Fat32Fs → ℕ → List ℕ → Cmd D (Unit {0})
  write_cluster fs cluster buf d =
      let spc = fs.bpb.sectors_per_cluster in
      if ltb cluster 2
      then (panic, d)
      else write_chunks spc spc (cluster_to_sector fs cluster) buf d

  unfoldable pub next_cluster : Fat32Fs → ℕ → Cmd D ℕ
  unfolding from_le
  next_cluster fs cluster = do
    buf ← disk.read_sectors (fs.fat_start_sector + entry_sector cluster) 1 512
    pure (le_at 4 (entry_pos cluster) buf % entry_mod)

  -- One turn of the loop: the entry in the copy of the table that starts at sector `start`.
  unfoldable pub set_entry_in : (start cluster value : ℕ) → Cmd D (Unit {0})
  unfolding from_le to_le overwrite
  set_entry_in start cluster value = do
    buf ← disk.read_sectors (start + entry_sector cluster) 1 512
    disk.write_sectors (start + entry_sector cluster) 1 (
        overwrite buf (entry_pos cluster)
          (to_le 4 (merged (le_at 4 (entry_pos cluster) buf) value)))

  -- The copies from number `f` on, `n` of them.
  unfoldable pub set_copies : Fat32Fs → (n f cluster value : ℕ) → Cmd D (Unit {0})
  set_copies fs zero f cluster value = pure tt
  set_copies fs (suc n) f cluster value = λ d.
      and_then (set_entry_in (fs.fat_start_sector + f * fs.bpb.fat_size_sectors) cluster value d)
        λ _. set_copies fs n (f + 1) cluster value

  abbrev pub set_fat_entry : Fat32Fs → (cluster value : ℕ) → Cmd D (Unit {0})
  set_fat_entry fs cluster value = set_copies fs fs.bpb.num_fats 0 cluster value
