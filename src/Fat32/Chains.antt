-- ===== src/Fat32/Chains.antt =====
-- ross-kernel/src/fat32.rs: the allocation of clusters, and reads along a chain.
use ross_os.Base.{
  ℕ, zero, suc, ◌+◌, ◌-◌, ◌*◌, ◌%◌, ◌^◌, List, [], ◌++◌, Option, none, some, true, false, ◌&&◌,
  ◌==◌, ltb, if◌then◌else◌, min, length, take, replicate,
}
use ross_os.Base.Bytes.{from_le}
use ross_os.Disk.{Cmd, DiskOps, ok, endless, pure, fails, and_then, ◌>>=◌, ◌>>◌}
use ross_os.Fat32.{
  Fat32Fs, le_at, entry_mod, in_chain, cluster_size_bytes, read_cluster, write_cluster,
  next_cluster, set_fat_entry,
}

-- The first free cluster of number 2 or more among the `n` entries from `i` on of a sector of the
-- table whose first entry is that of cluster `base`.
unfoldable pub scan_entries : (n i base : ℕ) → List ℕ → Option ℕ
unfolding from_le
scan_entries zero i base buf = none
scan_entries (suc n) i base buf =
    let rest = scan_entries n (i + 1) base buf in
    if ltb (base + i) 2
    then rest
    else if le_at 4 (i * 4) buf % entry_mod == 0
    then some (base + i)
    else rest

module _ {D : Type 0} (disk : DiskOps D) where
  -- The sectors of the first table from number `si` on, `n` of them.
  unfoldable pub scan_table : Fat32Fs → (n si : ℕ) → Cmd D (Option ℕ)
  scan_table fs zero si = pure none
  scan_table fs (suc n) si = λ d.
      and_then (disk.read_sectors (fs.fat_start_sector + si) 1 512 d) λ buf d'.
        elim (scan_entries 128 0 (si * 128 % 2 ^ 32) buf) [
          | some c ↦ (ok (some c), d')
          | none ↦ scan_table fs n (si + 1) d'
        ]

  abbrev pub link : Fat32Fs → Option ℕ → ℕ → Cmd D (Unit {0})
  link fs none c = pure tt
  link fs (some p) c = set_fat_entry disk fs p c

  unfoldable pub take_cluster : Fat32Fs → Option ℕ → Option ℕ → Cmd D ℕ
  take_cluster fs prev none = fails
  take_cluster fs prev (some c) = do
    set_fat_entry disk fs c 0x0FFF_FFFF
    link fs prev c
    write_cluster disk fs c (replicate (cluster_size_bytes fs) 0)
    pure c

  -- A free cluster, marked as the end of a chain, linked behind `prev` and filled with zeros.
  unfoldable pub alloc_cluster : Fat32Fs → Option ℕ → Cmd D ℕ
  unfolding take_cluster
  alloc_cluster fs prev = do
    found ← scan_table fs fs.bpb.fat_size_sectors 0
    take_cluster fs prev found

  -- The loop of `read_chain_into`. Each turn makes `out` longer.
  unfoldable pub chain_loop : Fat32Fs → (turns cluster max : ℕ) → List ℕ → Cmd D (List ℕ)
  chain_loop fs zero cluster max out = λ d. (endless, d)
  chain_loop fs (suc turns) cluster max out = λ d. elim (in_chain cluster && ltb (length out) max) [
    | false ↦ (ok out, d)
    | true ↦ and_then (read_cluster disk fs cluster d) λ bytes d'.
        and_then (next_cluster disk fs cluster d') λ next.
          chain_loop fs turns next max
            (out ++ take (min (cluster_size_bytes fs) (max - length out)) bytes)
  ]

  -- The bytes of the chain from `first` on, `max` at most.
  unfoldable pub read_chain_into : Fat32Fs → (first max : ℕ) → Cmd D (List ℕ)
  read_chain_into fs first max d =
      if ltb first 2 then (ok [], d) else chain_loop fs (max + 1) first max [] d
