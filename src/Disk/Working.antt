-- ===== src/Disk/Working.antt =====
-- Transfers on a working disk.
use ross_os.Base.{ℕ, ◌+◌, ◌*◌, ◌≤◌, ◌≡◌, refl, List, length, take}
use ross_os.Base.Bytes.{load_bytes, store_bytes}
use ross_os.Disk.{DiskOps, IsWorking}
use ross_os.Disk.Returns.{Returns, returns}

module _ {D : Type 0} {disk : DiskOps D} {byte : D → ℕ → ℕ} {capacity : ℕ}
    (works : IsWorking disk byte capacity) where
  pub read-Returns :
      (d : D) (lba count len : ℕ)
      → 1 ≤ count
      → count ≤ 8
      → count * 512 ≤ len
      → lba + count ≤ capacity
      → Returns
          (λ bytes d'. (bytes ≡ load_bytes (byte d) (lba * 512) (count * 512)) × (byte d' ≡ byte d))
          (disk.read_sectors lba count len d)
  read-Returns d lba count len h1 h2 h3 h4 =
      let (d', e, same) = works.reads d lba count len h1 h2 h3 h4 in
      returns (load_bytes (byte d) (lba * 512) (count * 512)) d' e (refl, same)

  pub write-Returns :
      (d : D) (lba count : ℕ) (buf : List ℕ)
      → 1 ≤ count
      → count ≤ 8
      → count * 512 ≤ length buf
      → lba + count ≤ capacity
      → Returns
          (λ _ d'. byte d' ≡ store_bytes (byte d) (lba * 512) (take (count * 512) buf))
          (disk.write_sectors lba count buf d)
  write-Returns d lba count buf h1 h2 h3 h4 =
      let (d', e, wrote) = works.writes d lba count buf h1 h2 h3 h4 in returns tt d' e wrote
