-- ===== src/Fat32/Clusters.antt =====
-- The transfer of a cluster in chunks of at most eight sectors, against the transfer of all its bytes.
use ross_os.Base.{
  ℕ, zero, suc, ◌+◌, ◌-◌, ◌*◌, ◌≤◌, ◌≡◌, refl, ap, ap₂, sym, ◌∙◌, List, [], ◌∷◌, ◌++◌, inl, inr,
  ◌==◌, ltb, min, length, take, drop, length-drop, length-take, take-append-drop, Bool-cases, false,
  arith,
}
use ross_os.Base.Bytes.{load_bytes, store_bytes, load_bytes-add, store_bytes-append}
use ross_os.Disk.{DiskOps, IsWorking}
use ross_os.Disk.Working.{read-Returns, write-Returns}
use ross_os.Disk.Returns.{Returns, bind, weaken, done}
use ross_os.Fat32.{
  Fat32Fs, cluster_size_bytes, cluster_to_sector, read_chunks, write_chunks, read_cluster,
  write_cluster,
}

-- The bytes of a cluster, and the memory with other ones.
abbrev pub cluster_start : Fat32Fs → ℕ → ℕ
cluster_start fs cluster = cluster_to_sector fs cluster * 512

abbrev pub cluster_bytes : (ℕ → ℕ) → Fat32Fs → ℕ → List ℕ
cluster_bytes m fs cluster = load_bytes m (cluster_start fs cluster) (cluster_size_bytes fs)

-- A cluster that has a number and lies on the disk.
abbrev pub IsOnDisk : Fat32Fs → (capacity cluster : ℕ) → Type 0
IsOnDisk fs capacity cluster =
    (2 ≤ cluster) × (cluster_to_sector fs cluster + fs.bpb.sectors_per_cluster ≤ capacity)

-- What is read in two parts.
halves :
    (m : ℕ → ℕ) (sec rem n : ℕ)
    → n ≤ rem
    → load_bytes m (sec * 512) (n * 512) ++ load_bytes m ((sec + n) * 512) ((rem - n) * 512)
      ≡ load_bytes m (sec * 512) (rem * 512)
halves m sec rem n h =
    ap (λ p. load_bytes m (sec * 512) (n * 512) ++ load_bytes m p ((rem - n) * 512))
      {y = sec * 512 + n * 512} (omega arith)
    ∙ sym (load_bytes-add m (sec * 512) (n * 512) ((rem - n) * 512))
    ∙ ap (load_bytes m (sec * 512)) {y = rem * 512} (omega (arith, h))

no_bytes : (buf : List ℕ) → length buf ≡ 0 → [] ≡ buf
no_bytes [] h = refl
no_bytes (b ∷ bs) h = absurd (omega (arith, h))

both_stored :
    (m : ℕ → ℕ) (sec n : ℕ) (buf : List ℕ)
    → n * 512 ≤ length buf
    → store_bytes
        (store_bytes m (sec * 512) (take (n * 512) buf))
        ((sec + n) * 512)
        (drop (n * 512) buf)
      ≡ store_bytes m (sec * 512) buf
both_stored m sec n buf h =
    ap (λ p. store_bytes (store_bytes m (sec * 512) (take (n * 512) buf)) p (drop (n * 512) buf))
      {y = sec * 512 + length (take (n * 512) buf)} (omega (arith, h, length-take (n * 512) buf))
    ∙ sym (store_bytes-append m (sec * 512) (take (n * 512) buf) (drop (n * 512) buf))
    ∙ ap (store_bytes m (sec * 512)) (take-append-drop (n * 512) buf)

module _ {D : Type 0} {disk : DiskOps D} {byte : D → ℕ → ℕ} {capacity : ℕ}
    (works : IsWorking disk byte capacity) where
  read_chunks-Returns :
      (turns rem sec len : ℕ) (d : D)
      → rem ≤ turns
      → rem * 512 ≤ len
      → sec + rem ≤ capacity
      → Returns
          (λ bytes d'. (bytes ≡ load_bytes (byte d) (sec * 512) (rem * 512)) × (byte d' ≡ byte d))
          (read_chunks disk turns rem sec len d)
  unfolding read_chunks load_bytes
  read_chunks-Returns zero rem sec len d enough room fits =
      done [] d
        (ap (load_bytes (byte d) (sec * 512)) {x = 0} {y = rem * 512} (omega (arith, enough)), refl)
  read_chunks-Returns (suc turns) rem sec len d enough room fits = elim (Bool-cases (rem == 0)) [
    | inl e ↦
        let none_left : rem ≡ 0 = ground arith in
        rw (e, read_chunks)
          (done [] d (
            ap (load_bytes (byte d) (sec * 512)) {x = 0} {y = rem * 512} (omega (arith, none_left)),
            refl,
          ))
    | inr e ↦
        let some_left : 1 ≤ rem = ground arith in
        rw (e, read_chunks)
          (bind
            (read-Returns works d sec (min rem 8) len (omega (arith, some_left)) (omega arith)
              (omega (arith, room)) (omega (arith, fits)))
            (λ bytes d' (got, same).
              bind
                (read_chunks-Returns turns (rem - min rem 8) (sec + min rem 8)
                  (len - min rem 8 * 512) d' (omega (arith, some_left, enough))
                  (omega (arith, room)) (omega (arith, fits)))
                (λ rest d'' (got', same'). done (bytes ++ rest) d'' (
                  ap₂ (λ xs ys. xs ++ ys) got
                        (got'
                          ∙ ap
                              (λ m.
                                load_bytes m ((sec + min rem 8) * 512) ((rem - min rem 8) * 512))
                              same)
                      ∙ halves (byte d) sec rem (min rem 8) (omega arith),
                  same' ∙ same,
                ))))
  ]

  write_chunks-Returns :
      (turns rem sec : ℕ) (buf : List ℕ) (d : D)
      → rem ≤ turns
      → length buf ≡ rem * 512
      → sec + rem ≤ capacity
      → Returns
          (λ _ d'. byte d' ≡ store_bytes (byte d) (sec * 512) buf)
          (write_chunks disk turns rem sec buf d)
  unfolding write_chunks store_bytes
  write_chunks-Returns zero rem sec buf d enough whole fits =
      done tt d (
        ap (store_bytes (byte d) (sec * 512)) {x = []}
          (no_bytes buf (omega (arith, whole, enough))))
  write_chunks-Returns (suc turns) rem sec buf d enough whole fits = elim (Bool-cases (rem == 0)) [
    | inl e ↦
        let none_left : rem ≡ 0 = ground arith in
        rw (e, write_chunks)
          (done tt d (
            ap (store_bytes (byte d) (sec * 512)) {x = []}
              (no_bytes buf (omega (arith, whole, none_left)))))
    | inr e ↦
        let some_left : 1 ≤ rem = ground arith in
        rw (e, write_chunks)
          (bind
            (write-Returns works d sec (min rem 8) buf (omega (arith, some_left)) (omega arith)
              (omega (arith, whole)) (omega (arith, fits)))
            (λ _ d' wrote.
              weaken
                (write_chunks-Returns turns (rem - min rem 8) (sec + min rem 8)
                  (drop (min rem 8 * 512) buf) d' (omega (arith, some_left, enough))
                  (omega (arith, whole, length-drop (min rem 8 * 512) buf)) (omega (arith, fits)))
                (λ _ d'' wrote'.
                  wrote'
                  ∙ ap (λ m. store_bytes m ((sec + min rem 8) * 512) (drop (min rem 8 * 512) buf))
                      wrote
                  ∙ both_stored (byte d) sec (min rem 8) buf (omega (arith, whole)))))
  ]

  -- The chunks that `read_cluster` reads from a working disk are together the bytes of the cluster, read
  -- at once, for a cluster that has a number and lies on the disk; no byte of the disk changes.
  pub read_cluster-Returns :
      (fs : Fat32Fs) (cluster : ℕ) (d : D)
      → IsOnDisk fs capacity cluster
      → Returns
          (λ bytes d'. (bytes ≡ cluster_bytes (byte d) fs cluster) × (byte d' ≡ byte d))
          (read_cluster disk fs cluster d)
  unfolding read_cluster
  read_cluster-Returns fs cluster d (numbered, fits) =
      let e : ltb cluster 2 ≡ false = ground arith in
      rw e (
        read_chunks-Returns fs.bpb.sectors_per_cluster fs.bpb.sectors_per_cluster
          (cluster_to_sector fs cluster) (cluster_size_bytes fs) d (omega arith) (omega arith) fits)

  pub write_cluster-Returns :
      (fs : Fat32Fs) (cluster : ℕ) (buf : List ℕ) (d : D)
      → IsOnDisk fs capacity cluster
      → length buf ≡ cluster_size_bytes fs
      → Returns
          (λ _ d'. byte d' ≡ store_bytes (byte d) (cluster_start fs cluster) buf)
          (write_cluster disk fs cluster buf d)
  unfolding write_cluster
  write_cluster-Returns fs cluster buf d (numbered, fits) whole =
      let e : ltb cluster 2 ≡ false = ground arith in
      rw e (
        write_chunks-Returns fs.bpb.sectors_per_cluster fs.bpb.sectors_per_cluster
          (cluster_to_sector fs cluster) buf d (omega arith) whole fits)
