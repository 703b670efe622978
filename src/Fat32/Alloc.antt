-- ===== src/Fat32/Alloc.antt =====
-- The cluster that `alloc_cluster` gives out, and what becomes of the table.
use ross_os.Base.{
  ℕ, ◌+◌, ◌*◌, ◌%◌, ◌^◌, ◌≤◌, ◌<◌, ◌≡◌, refl, ap, sym, ◌∙◌, List, Option, none, some, ◌==◌,
  if◌then◌else◌, replicate, length-replicate, arith,
}
use ross_os.Base.Bytes.{
  store_bytes, load_bytes, load_bytes_same, load_bytes-store_bytes, store_bytes_before, from_le,
}
use ross_os.Disk.{DiskOps, IsWorking, and_then, err, pure}
use ross_os.Disk.Returns.{Returns, returns, bind, weaken, done}
use ross_os.Fat32.{Fat32Fs, entry_mod, cluster_size_bytes, write_cluster}
use ross_os.Fat32.Chains.{alloc_cluster, scan_table, take_cluster, link}
use ross_os.Fat32.Clusters.{cluster_bytes, cluster_start, IsOnDisk, write_cluster-Returns}
use ross_os.Fat32.Free.{IsFree, Scanned, found, nothing, scan_table-Scanned}
use ross_os.Fat32.Link.{IsPlaced, HasEntry, entry_of, set_fat_entry-Returns}
use ross_os.Fat32.Table.{slot, copy_start}

-- A file system as `mount` finds it, whose data lies on the disk behind the tables, with every
-- numbered cluster that the table has an entry for.
pub record IsSound (fs : Fat32Fs) (capacity : ℕ) : Type 0 where
  pub placed : IsPlaced fs capacity
  pub numbered : fs.bpb.fat_size_sectors * 128 ≤ 2 ^ 32
  pub data_behind :
      fs.data_start_sector ≡ fs.fat_start_sector + fs.bpb.num_fats * fs.bpb.fat_size_sectors
  pub on_disk : (c : ℕ) → 2 ≤ c → HasEntry fs c → IsOnDisk fs capacity c

-- The entry of `c'` when the new cluster `c` has been linked behind `prev`, if it was `old` before.
unfoldable pub linked_entry : Option ℕ → (c c' old : ℕ) → ℕ
linked_entry none c c' old = if c' == c then 0x0FFF_FFFF else old
linked_entry (some p) c c' old =
    if c' == p then c % entry_mod else if c' == c then 0x0FFF_FFFF else old

-- `c` was free, and is the end of the chain now, linked behind `prev` in every copy of the table, and
-- full of zeros; the entries of all other clusters are as they were.
pub record IsAllocated (fs : Fat32Fs) (prev : Option ℕ) (m : ℕ → ℕ) (c : ℕ) (m' : ℕ → ℕ)
    : Type 0 where
  pub known : HasEntry fs c
  pub was_free : IsFree m fs.fat_start_sector c
  pub entries :
      (g c' : ℕ)
      → g < fs.bpb.num_fats
      → HasEntry fs c'
      → entry_of m' fs g c' ≡ linked_entry prev c c' (entry_of m fs g c')
  pub zeroed : cluster_bytes m' fs c ≡ replicate (cluster_size_bytes fs) 0

abbrev pub PrevKnown : Fat32Fs → Option ℕ → Type 0
PrevKnown fs none = Unit {0}
PrevKnown fs (some p) = HasEntry fs p

module _ {D : Type 0} {disk : DiskOps D} {byte : D → ℕ → ℕ} {capacity : ℕ}
    (works : IsWorking disk byte capacity) (fs : Fat32Fs) (sound : IsSound fs capacity) where
  table_before :
      (g c' : ℕ)
      → g < fs.bpb.num_fats
      → HasEntry fs c'
      → slot (copy_start fs g) c' + 4
        ≤ (fs.fat_start_sector + fs.bpb.num_fats * fs.bpb.fat_size_sectors) * 512
  table_before g c' below known = grind arith

  -- The zeros lie behind the tables.
  entry_of-zeros :
      (m : ℕ → ℕ) (c g c' : ℕ) (zs : List ℕ)
      → g < fs.bpb.num_fats
      → HasEntry fs c'
      → entry_of (store_bytes m (cluster_start fs c) zs) fs g c' ≡ entry_of m fs g c'
  entry_of-zeros m c g c' zs below known =
      ap (λ l. from_le l % entry_mod)
        (load_bytes_same m (store_bytes m (cluster_start fs c) zs) (slot (copy_start fs g) c') 4
          λ a l u.
            store_bytes_before m (cluster_start fs c) zs a
              (omega (arith, u, table_before g c' below known, sound.data_behind)))

  zero-Returns :
      (prev : Option ℕ) (c : ℕ) (m : ℕ → ℕ) (d : D)
      → IsFree m fs.fat_start_sector c
      → HasEntry fs c
      → ((g c' : ℕ)
          → g < fs.bpb.num_fats
          → HasEntry fs c'
          → entry_of (byte d) fs g c' ≡ linked_entry prev c c' (entry_of m fs g c'))
      → Returns
          (λ c' d'. (c' ≡ c) × IsAllocated fs prev m c (byte d'))
          (and_then (write_cluster disk fs c (replicate (cluster_size_bytes fs) 0) d) λ _. pure c)
  zero-Returns prev c m d free known entries =
      bind
        (write_cluster-Returns works fs c (replicate (cluster_size_bytes fs) 0) d
          (sound.on_disk c free.0 known) (length-replicate (cluster_size_bytes fs) 0))
        λ _ d' wrote. done c d' (
          refl,
          record {
            known = known;
            was_free = free;
            entries = λ g c' below known'.
                ap (λ f. entry_of f fs g c') wrote
                ∙ entry_of-zeros (byte d) c g c' _ below known'
                ∙ entries g c' below known';
            zeroed =
                ap (λ f. cluster_bytes f fs c) wrote
                ∙ ap
                    (load_bytes (store_bytes (byte d) (cluster_start fs c) zeros)
                      (cluster_start fs c))
                    (sym (length-replicate (cluster_size_bytes fs) 0))
                ∙ load_bytes-store_bytes (byte d) (cluster_start fs c) zeros;
          },
        )
    where
      zeros : List ℕ
      zeros = replicate (cluster_size_bytes fs) 0

  link-Returns :
      (prev : Option ℕ) (c : ℕ) (d d' : D)
      → PrevKnown fs prev
      → IsFree (byte d) fs.fat_start_sector c
      → HasEntry fs c
      → ((g c' : ℕ)
          → g < fs.bpb.num_fats
          → HasEntry fs c'
          → entry_of (byte d') fs g c' ≡ linked_entry none c c' (entry_of (byte d) fs g c'))
      → Returns
          (λ c' d''. (c' ≡ c) × IsAllocated fs prev (byte d) c (byte d''))
          (and_then (link disk fs prev c d') λ _ d''.
            and_then
              (write_cluster disk fs c (replicate (cluster_size_bytes fs) 0) d'')
              λ _. pure c)
  unfolding linked_entry
  link-Returns none c d d' _ free known entries = zero-Returns none c (byte d) d' free known entries
  link-Returns (some p) c d d' prev_at free known entries =
      bind (set_fat_entry-Returns works fs sound.placed p c prev_at d') λ _ d'' linked.
        zero-Returns (some p) c (byte d) d'' free known λ g c' below known'.
          linked g c' below known'
          ∙ ap (λ e. if c' == p then c % entry_mod else e) (entries g c' below known')

  take-Returns :
      (prev : Option ℕ) (r : Option ℕ) (d d' : D)
      → PrevKnown fs prev
      → byte d' ≡ byte d
      → Scanned (byte d) fs.fat_start_sector 0 (fs.bpb.fat_size_sectors * 128) r
      → (k : ℕ) → HasEntry fs k
      → IsFree (byte d) fs.fat_start_sector k
      → Returns
          (λ c d''. IsAllocated fs prev (byte d) c (byte d''))
          (take_cluster disk fs prev r d')
  unfolding take_cluster linked_entry
  take-Returns prev _ d d' prev_at same (nothing none_free) k known free =
      absurd (none_free k (omega arith) known free)
  take-Returns prev _ d d' prev_at same (found c _ known free _) k _ _ =
      bind (set_fat_entry-Returns works fs sound.placed c 0x0FFF_FFFF known d') λ _ d'' ended.
        weaken
          (link-Returns prev c d d'' prev_at free known λ g c' below known'.
            ended g c' below known'
            ∙ ap (λ f. if c' == c then 0x0FFF_FFFF else entry_of f fs g c') same)
          λ c' d3 (e, h). rw e h

  scanned :
      (d : D)
      → Returns
          (λ r d'.
            Scanned (byte d) fs.fat_start_sector 0 (fs.bpb.fat_size_sectors * 128) r
            × (byte d' ≡ byte d))
          (scan_table disk fs fs.bpb.fat_size_sectors 0 d)
  scanned d =
      scan_table-Scanned works fs table_fits sound.numbered fs.bpb.fat_size_sectors 0 d
        (omega arith)
    where
      table_fits : fs.fat_start_sector + fs.bpb.fat_size_sectors ≤ capacity
      table_fits =
          let fits : fs.fat_start_sector + fs.bpb.num_fats * fs.bpb.fat_size_sectors ≤ capacity =
            sound.placed.fits in
          let copied : 1 ≤ fs.bpb.num_fats = sound.placed.copied in grind arith

  -- On a working disk with a sound file system and a free cluster, `alloc_cluster` succeeds.
  -- The cluster that it gives out was free, is full of zeros, and ends its chain, linked behind
  -- `prev`, if there is one, in every copy of the table, in which the entries of all other
  -- clusters are as before. If `prev` is the cluster itself, its entry is its own number.
  pub alloc_cluster-IsAllocated :
      (prev : Option ℕ) (d : D)
      → PrevKnown fs prev
      → (k : ℕ) → HasEntry fs k
      → IsFree (byte d) fs.fat_start_sector k
      → Returns (λ c d'. IsAllocated fs prev (byte d) c (byte d')) (alloc_cluster disk fs prev d)
  unfolding alloc_cluster
  alloc_cluster-IsAllocated prev d prev_at k known free =
      bind (scanned d)
        λ r d' (searched, same). take-Returns prev r d d' prev_at same searched k known free

  nothing_taken :
      (prev : Option ℕ) (r : Option ℕ) (d d' : D)
      → Scanned (byte d) fs.fat_start_sector 0 (fs.bpb.fat_size_sectors * 128) r
      → ((k : ℕ) → HasEntry fs k → ¬ IsFree (byte d) fs.fat_start_sector k)
      → take_cluster disk fs prev r d' ≡ (err, d')
  unfolding take_cluster
  nothing_taken prev _ d d' (nothing _) none_free = refl
  nothing_taken prev _ d d' (found c _ known free _) none_free = absurd (none_free c known free)

  -- On a working disk with a sound file system and without a free cluster, `alloc_cluster`
  -- fails and changes no byte of the disk.
  pub alloc_cluster-full :
      (prev : Option ℕ) (d : D)
      → ((k : ℕ) → HasEntry fs k → ¬ IsFree (byte d) fs.fat_start_sector k)
      → (d' : D) × (alloc_cluster disk fs prev d ≡ (err, d')) × (byte d' ≡ byte d)
  unfolding alloc_cluster
  alloc_cluster-full prev d none_free = elim (scanned d) [
    | returns r d' e (searched, same) ↦
        (d', rw e (nothing_taken prev r d d' searched none_free), same)
  ]
