-- ===== src/Tests/Fat32.antt =====
-- A small disk in memory, and the theorems on FAT32 at work on it.
use ross_os.Base.{
  ℕ, length-append, ◌*◌, ◌%◌, ◌≡◌, refl, [], ◌∷◌, none, some, ◌==◌, if◌then◌else◌, take, arith,
}
use ross_os.Base.Bytes.{length-load_bytes, load_bytes, store_bytes, from_le}
use ross_os.Disk.{DiskOps, IsWorking, ok, err, and_then}
use ross_os.Disk.Returns.{Returns}
use ross_os.Fat32.{Fat32Fs, entry_mod, read_cluster, read_chunks, next_cluster, set_fat_entry}
use ross_os.Fat32.Alloc.{IsSound, IsAllocated, alloc_cluster-IsAllocated, alloc_cluster-full}
use ross_os.Fat32.Chains.{alloc_cluster, read_chain_into, chain_loop}
use ross_os.Fat32.Clusters.{cluster_start, cluster_bytes, read_cluster-Returns}
use ross_os.Fat32.Content.{IsChain, ends, linked, content, part, read-content}
use ross_os.Fat32.Directory.{file_node}
use ross_os.Fat32.Files.{read, write, lift}
use ross_os.Fat32.Rewrite.{Holds, read-write}
use ross_os.Fat32.Write.{Away, Distinct, Listed, IsWritten}
use ross_os.Fat32.Link.{IsPlaced, entry_of, next_cluster-set_fat_entry}

-- The content is the whole state, and every transfer succeeds.
abbrev memory_disk : DiskOps (ℕ → ℕ)
memory_disk = record {
  read_sectors = λ lba count len d. (ok (load_bytes d (lba * 512) (count * 512)), d);
  write_sectors = λ lba count buf d. (ok tt, store_bytes d (lba * 512) (take (count * 512) buf));
}

memory_disk-IsWorking : IsWorking memory_disk (λ d. d) 129
memory_disk-IsWorking = record {
  reads = λ d lba count len h1 h2 h3 h4. (d, refl, refl);
  writes = λ d lba count buf h1 h2 h3 h4.
      (store_bytes d (lba * 512) (take (count * 512) buf), refl, refl);
}

-- Two tables of one sector each, and 126 clusters of one sector.
abbrev small_fs : Fat32Fs
small_fs = record {
  bpb = record {
    bytes_per_sector = 512;
    sectors_per_cluster = 1;
    reserved_sectors = 1;
    num_fats = 2;
    fat_size_sectors = 1;
    root_cluster = 2;
  };
  fat_start_sector = 1;
  data_start_sector = 3;
}

small_fs-IsPlaced : IsPlaced small_fs 129
small_fs-IsPlaced = record { sized = omega arith; copied = omega arith; fits = omega arith }

small_fs-IsSound : IsSound small_fs 129
small_fs-IsSound = record {
  placed = small_fs-IsPlaced;
  numbered = omega arith;
  data_behind = refl;
  on_disk = λ c h k. (h, omega (arith, h, k));
}

-- Nothing but zeros, nothing but ones, and a chain of cluster 2 alone on counted bytes.
abbrev zeros : ℕ → ℕ
zeros a = 0

abbrev ones : ℕ → ℕ
ones a = 1

abbrev counted : ℕ → ℕ
counted a =
    if a == 520
    then 0xF8
    else if a == 521
    then 0xFF
    else if a == 522
    then 0xFF
    else if a == 523
    then 0x0F
    else a % 256

next_cluster-set_fat_entry_example :
    Returns
      (λ n d'. n ≡ (if 5 == 5 then 9 % entry_mod else entry_of counted small_fs 0 5))
      (and_then
        (set_fat_entry memory_disk small_fs 5 9 counted)
        λ _. next_cluster memory_disk small_fs 5)
next_cluster-set_fat_entry_example =
    next_cluster-set_fat_entry memory_disk-IsWorking small_fs small_fs-IsPlaced 5 9 (omega arith)
      counted 5 (omega arith)

alloc_cluster-IsAllocated_example :
    Returns
      (λ c d'. IsAllocated small_fs (some 7) zeros c d')
      (alloc_cluster memory_disk small_fs (some 7) zeros)
unfolding load_bytes from_le
alloc_cluster-IsAllocated_example =
    alloc_cluster-IsAllocated memory_disk-IsWorking small_fs small_fs-IsSound (some 7) zeros
      (omega arith) 3 (omega arith) (omega arith, refl)

alloc_cluster-full_example :
    (d' : ℕ → ℕ) × (alloc_cluster memory_disk small_fs none ones ≡ (err, d')) × (d' ≡ ones)
unfolding load_bytes from_le
alloc_cluster-full_example =
    alloc_cluster-full memory_disk-IsWorking small_fs small_fs-IsSound none ones
      (λ k h free. omega (arith, free.1))

read_cluster-Returns_example :
    Returns
      (λ bytes d'. (bytes ≡ cluster_bytes counted small_fs 4) × (d' ≡ counted))
      (read_cluster memory_disk small_fs 4 counted)
read_cluster-Returns_example =
    read_cluster-Returns memory_disk-IsWorking small_fs 4 counted (omega arith, omega arith)

two-IsChain : IsChain small_fs 129 counted 2 (2 ∷ [])
unfolding load_bytes from_le
two-IsChain = linked 2 [] refl (omega arith, omega arith) (omega arith) (ends 0x0FFF_FFF8 refl)

read-content_example :
    Returns
      (λ bytes d'. (bytes ≡ part (content counted small_fs (2 ∷ [])) 10 3 4) × (d' ≡ counted))
      (read memory_disk small_fs (file_node 2 10 2 0) 3 4 counted)
read-content_example =
    read-content memory_disk-IsWorking small_fs (omega arith) (file_node 2 10 2 0) 3 4 (2 ∷ [])
      counted refl two-IsChain

-- The bytes at 3 to 6 of the file.
reads_bytes :
    read memory_disk small_fs (file_node 2 10 2 0) 3 4 counted ≡ (ok (3 ∷ 4 ∷ 5 ∷ 6 ∷ []), counted)
unfolding read read_chain_into chain_loop read_cluster read_chunks next_cluster load_bytes from_le
reads_bytes = refl

two-Holds : Holds small_fs 129 counted (file_node 2 10 2 0) (2 ∷ []) 3 2
unfolding content Listed Distinct Away
two-Holds = record {
  is_file = refl;
  chain = two-IsChain;
  listed = (omega arith, tt);
  distinct = (tt, tt);
  some = omega arith;
  sized = omega arith;
  long = omega (
    arith,
    length-append (cluster_bytes counted small_fs 2) [],
    length-load_bytes counted (cluster_start small_fs 2) 512,
  );
}

read-write_example :
    Returns
      (λ back o'.
        (back ≡ b'h' ∷ b'i' ∷ [])
        × IsWritten small_fs (2 ∷ []) 3 (b'h' ∷ b'i' ∷ []) counted o'.disk)
      (and_then
        (write memory_disk small_fs 3
          (b'h' ∷ b'i' ∷ [])
          (record { disk = counted; node = file_node 2 10 2 0 }))
        λ n o'. lift (read memory_disk small_fs o'.node 3 n) o')
read-write_example =
    read-write memory_disk-IsWorking small_fs-IsSound (omega arith)
      (record { disk = counted; node = file_node 2 10 2 0 }) 3 (b'h' ∷ b'i' ∷ []) (2 ∷ []) two-Holds
