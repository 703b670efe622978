-- ===== src/Fat32/Rewrite.antt =====
-- A write inside a file: what it leaves, and what a read gives back.
use ross_os.Base.{
  ℕ, ◌+◌, ◌*◌, ◌/◌, ◌%◌, ◌≤◌, ◌≡◌, refl, ap, ap₂, sym, ◌∙◌, subst, List, false, ◌==◌, ◌||◌, ltb,
  max, length, take, drop, arith,
}
use native.Mathlib.Nat.{div-add-mod', mod-lt}
use ross_os.Base.Bytes.{overwrite}
use ross_os.Base.Overwrite.{take-drop-overwrite}
use ross_os.Disk.{DiskOps, IsWorking, and_then}
use ross_os.Disk.Returns.{Returns, bind, weaken, done}
use ross_os.Fat32.{Fat32Fs, cluster_size_bytes}
use ross_os.Fat32.Alloc.{IsSound}
use ross_os.Fat32.Content.{IsChain, ends, linked, content, part, read-content}
use ross_os.Fat32.Directory.{Fat32Node}
use ross_os.Fat32.Files.{Open, lift, write_at, write_from, grow, ensure_first, write, read}
use ross_os.Fat32.InPlace.{lift-Returns, skip_clusters-Reached}
use ross_os.Fat32.Store.{write_loop-Returns}
use ross_os.Fat32.Write.{Distinct, Listed, IsWritten, table-Outside, IsChain-same}

-- A file whose whole chain has entries in the table, without a cluster twice, and holds the bytes from
-- `offset` on for `len` of them.
pub record Holds (fs : Fat32Fs) (capacity : ℕ) (m : ℕ → ℕ) (node : Fat32Node) (cs : List ℕ)
    (offset len : ℕ) : Type 0 where
  pub is_file : node.is_dir ≡ false
  pub chain : IsChain fs capacity m node.first_cluster cs
  pub listed : Listed fs cs
  pub distinct : Distinct cs
  pub some : 1 ≤ len
  pub sized : offset + len ≤ node.size
  pub long : offset + len ≤ length (content m fs cs)

lt_false : (a b : ℕ) → b ≤ a → ltb a b ≡ false
lt_false a b h = ground arith

nonzero : (n : ℕ) → 1 ≤ n → (n == 0) ≡ false
nonzero n h = ground arith

starts_inside :
    {fs : Fat32Fs} {capacity : ℕ} {m : ℕ → ℕ} (first : ℕ) (cs : List ℕ)
    → IsChain fs capacity m first cs
    → 1 ≤ length (content m fs cs)
    → 2 ≤ first
unfolding content
starts_inside _ _ (ends c off) h = absurd (omega (arith, h))
starts_inside _ _ (linked c cs on placed listed rest) h = placed.0

module _ {D : Type 0} {disk : DiskOps D} {byte : D → ℕ → ℕ} {capacity : ℕ}
    (works : IsWorking disk byte capacity) {fs : Fat32Fs} (sound : IsSound fs capacity)
    (sized : 1 ≤ fs.bpb.sectors_per_cluster) where
  write_at-IsWritten :
      (node : Fat32Node) (d : D) (offset : ℕ) (bytes cs : List ℕ)
      → Holds fs capacity (byte d) node cs offset (length bytes)
      → Returns
          (λ _ d'. IsWritten fs cs offset bytes (byte d) (byte d'))
          (write_at disk fs offset node.first_cluster bytes d)
  unfolding write_at
  write_at-IsWritten node d offset bytes cs h =
      bind
        (skip_clusters-Reached works sound (offset / cluster_size_bytes fs) node.first_cluster cs d
          h.chain h.listed h.distinct (omega (arith, whole, h.long, h.some)))
        λ k d' (reached, same).
          weaken
            (write_loop-Returns works sound (length bytes) k (offset % cluster_size_bytes fs) bytes
              reached.sfx d'
              (subst (λ f. IsChain fs capacity f k reached.sfx) (sym same) reached.chain)
              reached.listed reached.distinct (mod-lt offset (omega (arith, sized))) h.some
              (omega (
                arith,
                whole,
                h.long,
                reached.long,
                ap (λ f. length (content f fs reached.sfx)) same,
              ))
              (omega arith))
            λ _ d'' written.
              subst (λ i. IsWritten fs cs i bytes (byte d) (byte d'')) whole
                (reached.lifted (offset % cluster_size_bytes fs) bytes (byte d'') (
                  subst
                    (λ f.
                      IsWritten fs reached.sfx (offset % cluster_size_bytes fs) bytes f (byte d''))
                    same written))
    where
      whole :
          offset / cluster_size_bytes fs * cluster_size_bytes fs + offset % cluster_size_bytes fs
          ≡ offset
      whole = div-add-mod' offset (cluster_size_bytes fs)

  -- On a working disk with a sound file system, a write of bytes, at least one, that lie inside
  -- a file's size and the clusters of its chain, which names none twice, succeeds, answers
  -- their number and leaves the node as it is. The bytes of the chain are the old ones with the
  -- new ones written over them at the offset, and no byte outside the chain's clusters has
  -- changed.
  pub write-IsWritten :
      (o : Open D) (offset : ℕ) (bytes cs : List ℕ)
      → Holds fs capacity (byte o.disk) o.node cs offset (length bytes)
      → Returns
          (λ n o'.
            (n ≡ length bytes)
            × IsWritten fs cs offset bytes (byte o.disk) (byte o'.disk)
            × (o'.node ≡ o.node))
          (write disk fs offset bytes o)
  unfolding write write_from ensure_first grow
  write-IsWritten o offset bytes cs h =
      let accepted : (o.node.is_dir || (length bytes == 0)) ≡ false =
        ap (λ b. b || (length bytes == 0)) h.is_file ∙ nonzero (length bytes) h.some in
      let first : ltb o.node.first_cluster 2 ≡ false =
        (let two : 2 ≤ o.node.first_cluster =
            starts_inside o.node.first_cluster cs h.chain (omega (arith, h.long, h.some)) in
          lt_false o.node.first_cluster 2 two) in
      let inside : ltb o.node.size (max (offset + length bytes) o.node.size) ≡ false =
        lt_false o.node.size (max (offset + length bytes) o.node.size) (omega (arith, h.sized)) in
      rw (accepted, first)
        (bind
          (lift-Returns (write_at disk fs offset o.node.first_cluster bytes) o
            (write_at-IsWritten o.node o.disk offset bytes cs h))
          λ _ o' (written, same). rw inside (done (length bytes) o' (refl, written, same)))

  -- On a working disk with a sound file system, a read of as many bytes as a write wrote, at
  -- least one, from the same offset inside a file's size and the clusters of its chain, which
  -- names none twice, succeeds and gives back the bytes that were written. The chain then has
  -- these bytes written over its old ones, and no byte outside its clusters has changed.
  pub read-write :
      (o : Open D) (offset : ℕ) (bytes cs : List ℕ)
      → Holds fs capacity (byte o.disk) o.node cs offset (length bytes)
      → Returns
          (λ back o'. (back ≡ bytes) × IsWritten fs cs offset bytes (byte o.disk) (byte o'.disk))
          (and_then (write disk fs offset bytes o) λ n o'. lift (read disk fs o'.node offset n) o')
  read-write o offset bytes cs h =
      bind (write-IsWritten o offset bytes cs h) λ n o' (count, written, same).
        weaken
          (lift-Returns (read disk fs o'.node offset n) o' (
            read-content works fs sized o'.node offset n cs o'.disk
              (ap (λ k. k.is_dir) same ∙ h.is_file)
              (subst (λ k. IsChain fs capacity (byte o'.disk) k.first_cluster cs) (sym same)
                (IsChain-same sound (byte o.disk) (byte o'.disk) o.node.first_cluster cs h.chain
                  h.listed (λ a low. written.outside a (table-Outside fs a cs low))))))
          λ back o'' ((e, kept), _). (
            e
                ∙ ap₂ (λ k l. part l k.size offset n) same written.inside
                ∙ ap
                    (λ l.
                      take l (drop offset (overwrite (content (byte o.disk) fs cs) offset bytes)))
                    (omega (arith, count, h.sized))
                ∙ take-drop-overwrite (content (byte o.disk) fs cs) offset bytes h.long,
            subst (IsWritten fs cs offset bytes (byte o.disk)) (sym kept) written,
          )
