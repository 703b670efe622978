-- ===== src/Fat32/Link.antt =====
-- What `set_fat_entry` stores is what `next_cluster` reads back.
use ross_os.Base.{
  ℕ, ◌+◌, ◌*◌, ◌%◌, ◌≤◌, ◌<◌, ◌≡◌, ap, ◌∙◌, inl, inr, ◌==◌, ==_ne, ==_refl, if◌then◌else◌, arith,
}
use ross_os.Base.Bytes.{lt_or_le}
use ross_os.Disk.{DiskOps, IsWorking, and_then}
use ross_os.Disk.Returns.{Returns, bind, weaken}
use ross_os.Fat32.{Fat32Fs, entry_mod, entry_sector, next_cluster, set_fat_entry}
use ross_os.Fat32.Table.{
  raw_entry, copy_start, EntrySet, entry_kept, set_copies-Returns, next_cluster-Returns,
}

-- The table of `fs` lies on a disk of `capacity` sectors, with a copy at least.
pub record IsPlaced (fs : Fat32Fs) (capacity : ℕ) : Type 0 where
  pub sized : 1 ≤ fs.bpb.fat_size_sectors
  pub copied : 1 ≤ fs.bpb.num_fats
  pub fits : fs.fat_start_sector + fs.bpb.num_fats * fs.bpb.fat_size_sectors ≤ capacity

-- The clusters that the table has an entry for.
abbrev pub HasEntry : Fat32Fs → ℕ → Type 0
HasEntry fs c = c < fs.bpb.fat_size_sectors * 128

-- The entry of cluster `c'` in copy `g`.
abbrev pub entry_of : (ℕ → ℕ) → Fat32Fs → (g c' : ℕ) → ℕ
entry_of m fs g c' = raw_entry m (copy_start fs g) c' % entry_mod

module _ {D : Type 0} {disk : DiskOps D} {byte : D → ℕ → ℕ} {capacity : ℕ}
    (works : IsWorking disk byte capacity) (fs : Fat32Fs) (placed : IsPlaced fs capacity)
    (c value : ℕ) (known : HasEntry fs c) (d : D) where
  after_set :
      (d' : D) (g c' : ℕ)
      → EntrySet fs c value 0 fs.bpb.num_fats (byte d) (byte d')
      → g < fs.bpb.num_fats
      → HasEntry fs c'
      → entry_of (byte d') fs g c'
        ≡ (if c' == c then value % entry_mod else entry_of (byte d) fs g c')
  after_set d' g c' was_set below known' = elim (lt_or_le c' c) [
    | inl h ↦ rw (==_ne c' c (omega (arith, h))) (
        ap (λ n. n % entry_mod)
          (entry_kept fs c value 0 fs.bpb.num_fats (byte d) (byte d') g c' was_set placed.sized
            known known' (inl h)))
    | inr from ↦ elim (lt_or_le c c') [
      | inl h ↦ rw (==_ne c' c (omega (arith, h))) (
          ap (λ n. n % entry_mod)
            (entry_kept fs c value 0 fs.bpb.num_fats (byte d) (byte d') g c' was_set placed.sized
              known known' (inr h)))
      | inr h ↦
          let e : c' ≡ c = omega (arith, from, h) in
          rw e (rw (==_refl c) (was_set.holds g (omega arith) (omega (arith, below))))
    ]
  ]

  table_inside : (c' : ℕ) → HasEntry fs c' → fs.fat_start_sector + entry_sector c' < capacity
  table_inside c' known' =
      let sector : entry_sector c' < fs.bpb.fat_size_sectors = omega (arith, known') in
      let copied : 1 ≤ fs.bpb.num_fats = placed.copied in
      let fits : fs.fat_start_sector + fs.bpb.num_fats * fs.bpb.fat_size_sectors ≤ capacity =
        placed.fits in
      grind arith

  -- On a disk that works and holds the whole table, `set_fat_entry` succeeds, and then every copy of the table has the low
  -- 28 bits of the value as the entry of the cluster and the entries of all other clusters as before.
  pub set_fat_entry-Returns :
      Returns
        (λ _ d'.
          (g c' : ℕ)
          → g < fs.bpb.num_fats
          → HasEntry fs c'
          → entry_of (byte d') fs g c'
            ≡ (if c' == c then value % entry_mod else entry_of (byte d) fs g c'))
        (set_fat_entry disk fs c value d)
  set_fat_entry-Returns =
      weaken
        (set_copies-Returns works fs c value placed.sized fs.bpb.num_fats 0 d
          (omega (arith, placed.fits)) known)
        (λ _ d' was_set g c' below known'. after_set d' g c' was_set below known')

  -- On a disk that works and holds the whole table, `next_cluster` after `set_fat_entry` gives the low 28
  -- bits of the value for the cluster that was set, and for every other what it gave before.
  pub next_cluster-set_fat_entry :
      (c' : ℕ)
      → HasEntry fs c'
      → Returns
          (λ n d'. n ≡ (if c' == c then value % entry_mod else entry_of (byte d) fs 0 c'))
          (and_then (set_fat_entry disk fs c value d) λ _. next_cluster disk fs c')
  next_cluster-set_fat_entry c' known' = bind set_fat_entry-Returns λ _ d' was_set.
      weaken (next_cluster-Returns works fs c' d' (table_inside c' known')) λ n d'' (e, _).
        e
        ∙ ap (λ p. raw_entry (byte d') p c' % entry_mod) {x = fs.fat_start_sector}
            {y = copy_start fs 0} (omega arith)
        ∙ was_set 0 c' placed.copied known'
