-- ===== src/Fat32/Store.antt =====
-- The write loop along a chain that holds the whole range writes it, and nothing else.
use ross_os.Base.{
  ℕ, zero, suc, ◌+◌, ◌-◌, ◌*◌, ◌%◌, ◌≤◌, ◌<◌, ◌≡◌, ap, ap₂, sym, ◌∙◌, subst, List, ◌∷◌, ◌++◌, inl,
  inr, ◌⊎◌, false, ◌==◌, leb, min, length, take, drop, length-append, length-drop, Bool-cases,
  arith,
}
use ross_os.Base.Bytes.{
  load_bytes, store_bytes, overwrite, length-load_bytes, length-overwrite, load_bytes_same,
  store_bytes_before, store_bytes_behind, load_bytes-store_bytes,
}
use ross_os.Base.Overwrite.{overwrite-append, overwrite_nothing}
use ross_os.Base.Slices.{take-min, drop_all}
use ross_os.Disk.{DiskOps, IsWorking}
use ross_os.Disk.Returns.{Returns, bind, weaken, done}
use ross_os.Fat32.{Fat32Fs, end_of_chain, cluster_size_bytes, entry_mod, entry_sector}
use ross_os.Fat32.Alloc.{IsSound}
use ross_os.Fat32.Clusters.{
  cluster_bytes, cluster_start, read_cluster-Returns, write_cluster-Returns,
}
use ross_os.Fat32.Content.{IsChain, ends, linked, content}
use ross_os.Fat32.Files.{write_loop, next_or_new}
use ross_os.Fat32.Table.{raw_entry, next_cluster-Returns}
use ross_os.Fat32.Write.{
  Away, Distinct, Listed, Outside, IsWritten, others-Outside, entry_same, IsChain-same,
  content_same,
}

-- The new content of cluster `c` alone.
record IsPatched (fs : Fat32Fs) (c off : ℕ) (piece : List ℕ) (m m' : ℕ → ℕ) : Type 0 where
  own : cluster_bytes m' fs c ≡ overwrite (cluster_bytes m fs c) off piece
  others :
      (a : ℕ)
      → (a < cluster_start fs c) ⊎ (cluster_start fs c + cluster_size_bytes fs ≤ a)
      → m' a ≡ m a

stored-IsPatched :
    (fs : Fat32Fs) (c off : ℕ) (piece : List ℕ) (m m' : ℕ → ℕ)
    → m' ≡ store_bytes m (cluster_start fs c) (overwrite (cluster_bytes m fs c) off piece)
    → IsPatched fs c off piece m m'
stored-IsPatched fs c off piece m m' e = record {
  own =
      ap (λ f. cluster_bytes f fs c) e
      ∙ ap (load_bytes (store_bytes m (cluster_start fs c) patch) (cluster_start fs c)) (sym size)
      ∙ load_bytes-store_bytes m (cluster_start fs c) patch;
  others = λ a away. ap (λ f. f a) e ∙ elim away [
    | inl below ↦ store_bytes_before m (cluster_start fs c) patch a below
    | inr behind ↦ store_bytes_behind m (cluster_start fs c) patch a (omega (arith, behind, size))
  ];
}
  where
    patch : List ℕ
    patch = overwrite (cluster_bytes m fs c) off piece

    size : length patch ≡ cluster_size_bytes fs
    size =
        length-overwrite (cluster_bytes m fs c) off piece
        ∙ length-load_bytes m (cluster_start fs c) (cluster_size_bytes fs)

-- A chain that has bytes goes on.
goes_on :
    {fs : Fat32Fs} {capacity : ℕ} {m : ℕ → ℕ} (next : ℕ) (ks : List ℕ)
    → IsChain fs capacity m next ks
    → 1 ≤ length (content m fs ks)
    → leb end_of_chain next ≡ false
unfolding content
goes_on _ _ (ends c off) h = absurd (omega (arith, h))
goes_on _ _ (linked c ks on placed listed rest) h = ground arith

module _ {fs : Fat32Fs} {capacity : ℕ} (sound : IsSound fs capacity) where
  pub length-cluster_bytes :
      (m : ℕ → ℕ) (c : ℕ) → length (cluster_bytes m fs c) ≡ cluster_size_bytes fs
  length-cluster_bytes m c = length-load_bytes m (cluster_start fs c) (cluster_size_bytes fs)

  spread :
      (c off : ℕ) (bytes rest : List ℕ) (m : ℕ → ℕ)
      → off ≤ cluster_size_bytes fs
      → overwrite (cluster_bytes m fs c ++ rest) off bytes
        ≡ overwrite (cluster_bytes m fs c) off (take (cluster_size_bytes fs - off) bytes)
          ++ overwrite rest 0 (drop (cluster_size_bytes fs - off) bytes)
  spread c off bytes rest m within =
      overwrite-append (cluster_bytes m fs c) rest off bytes
        (omega (arith, within, length-cluster_bytes m c))
      ∙ ap
          (λ n.
            overwrite (cluster_bytes m fs c) off (take (n - off) bytes)
            ++ overwrite rest 0 (drop (n - off) bytes))
          (length-cluster_bytes m c)

  -- The range ends in this cluster.
  last_piece :
      (c off : ℕ) (bytes ks : List ℕ) (m m' : ℕ → ℕ) (first : ℕ)
      → IsPatched fs c off (take (min (length bytes) (cluster_size_bytes fs - off)) bytes) m m'
      → IsChain fs capacity m first ks
      → Away c ks
      → 2 ≤ c
      → off ≤ cluster_size_bytes fs
      → off + length bytes ≤ cluster_size_bytes fs
      → IsWritten fs (c ∷ ks) off bytes m m'
  unfolding content Outside
  last_piece c off bytes ks m m' first patched chain away h within fits = record {
    inside =
        ap₂ (λ x y. x ++ y)
          (patched.own
            ∙ ap (overwrite (cluster_bytes m fs c) off)
                (take-min (cluster_size_bytes fs - off) bytes))
          (content_same sound m m' c first ks chain away h patched.others
            ∙ sym (overwrite_nothing (content m fs ks))
            ∙ ap (overwrite (content m fs ks) 0)
                (sym (drop_all (cluster_size_bytes fs - off) bytes (omega (arith, fits)))))
        ∙ sym (spread c off bytes (content m fs ks) m within);
    outside = λ a out. patched.others a out.0;
  }

  -- The range goes on in the clusters behind.
  more_pieces :
      (c off : ℕ) (bytes ks : List ℕ) (m m' m'' : ℕ → ℕ) (first : ℕ)
      → IsPatched fs c off (take (min (length bytes) (cluster_size_bytes fs - off)) bytes) m m'
      → IsWritten fs ks 0 (drop (cluster_size_bytes fs - off) bytes) m' m''
      → IsChain fs capacity m first ks
      → Away c ks
      → 2 ≤ c
      → off ≤ cluster_size_bytes fs
      → IsWritten fs (c ∷ ks) off bytes m m''
  unfolding content Outside
  more_pieces c off bytes ks m m' m'' first patched written chain away h within = record {
    inside =
        ap₂ (λ x y. x ++ y)
          (load_bytes_same m' m'' (cluster_start fs c) (cluster_size_bytes fs)
              (λ a l u. written.outside a (others-Outside c a first ks chain away h l u))
            ∙ patched.own
            ∙ ap (overwrite (cluster_bytes m fs c) off)
                (take-min (cluster_size_bytes fs - off) bytes))
          (written.inside
            ∙ ap (λ r. overwrite r 0 (drop (cluster_size_bytes fs - off) bytes))
                (content_same sound m m' c first ks chain away h patched.others))
        ∙ sym (spread c off bytes (content m fs ks) m within);
    outside = λ a out. written.outside a out.1 ∙ patched.others a out.0;
  }

module _ {D : Type 0} {disk : DiskOps D} {byte : D → ℕ → ℕ} {capacity : ℕ}
    (works : IsWorking disk byte capacity) {fs : Fat32Fs} (sound : IsSound fs capacity) where
  -- Where the chain goes on, no cluster is allocated.
  pub next_or_new-Returns :
      (c : ℕ) (ks : List ℕ) (d : D)
      → fs.fat_start_sector + entry_sector c < capacity
      → IsChain fs capacity (byte d) (raw_entry (byte d) fs.fat_start_sector c % entry_mod) ks
      → 1 ≤ length (content (byte d) fs ks)
      → Returns
          (λ next d'.
            (next ≡ raw_entry (byte d) fs.fat_start_sector c % entry_mod) × (byte d' ≡ byte d))
          (next_or_new disk fs c d)
  unfolding next_or_new
  next_or_new-Returns c ks d listed chain some =
      bind (next_cluster-Returns works fs c d listed) λ next d' (e, same).
        rw (ap (leb end_of_chain) e ∙ goes_on _ ks chain some) (done next d' (e, same))

  pub write_loop-Returns :
      (turns cluster off : ℕ) (bytes cs : List ℕ) (d : D)
      → IsChain fs capacity (byte d) cluster cs
      → Listed fs cs
      → Distinct cs
      → off < cluster_size_bytes fs
      → 1 ≤ length bytes
      → off + length bytes ≤ length (content (byte d) fs cs)
      → length bytes ≤ turns
      → Returns
          (λ _ d'. IsWritten fs cs off bytes (byte d) (byte d'))
          (write_loop disk fs turns cluster off bytes d)
  unfolding write_loop content Listed Distinct
  write_loop-Returns zero cluster off bytes cs d chain known apart within some fits enough =
      absurd (omega (arith, some, enough))
  write_loop-Returns (suc turns) _ off bytes _ d (ends c over) known apart within some fits enough =
      absurd (omega (arith, some, fits))
  write_loop-Returns (suc turns) _ off bytes _ d (linked c ks on placed listed rest) (known, later)
        (away, apart) within some fits enough =
      let not_empty : (length bytes == 0) ≡ false = ground arith in
      rw (not_empty, write_loop)
        (bind (read_cluster-Returns works fs c d placed) λ buf d' (got, same).
          bind
            (write_cluster-Returns works fs c (overwrite buf off (take n bytes)) d' placed
              (size buf (ap length got)))
            λ _ d'' wrote.
              let patched : IsPatched fs c off (take n bytes) (byte d) (byte d'') =
                stored-IsPatched fs c off (take n bytes) (byte d) (byte d'') (
                  wrote
                  ∙ ap₂ (λ f b. store_bytes f (cluster_start fs c) (overwrite b off (take n bytes)))
                      same got) in
              elim (Bool-cases (leb (length bytes) n)) [
                | inl all ↦
                    let short : length bytes ≤ n = ground arith in
                    rw all (
                      done tt d'' (
                        last_piece sound c off bytes ks (byte d) (byte d'') _ patched rest away
                          placed.0 (omega (arith, within)) (omega (arith, short, within))))
                | inr part ↦
                    rw (part, write_loop)
                      (let table : (a : ℕ)
                            → a < fs.data_start_sector * 512
                            → byte d'' a ≡ byte d a =
                          λ a low. patched.others a (inl (omega (arith, low))) in
                        let goes : IsChain fs capacity (byte d'')
                            (raw_entry (byte d'') fs.fat_start_sector c % entry_mod) ks =
                          subst (λ e. IsChain fs capacity (byte d'') (e % entry_mod) ks)
                            (sym (entry_same sound (byte d) (byte d'') c known table))
                            (IsChain-same sound (byte d) (byte d'') _ ks rest later table) in
                        let long : n < length bytes = ground arith in
                        let whole : n ≡ cluster_size_bytes fs - off = omega (arith, long) in
                        let room : length bytes
                            ≤ cluster_size_bytes fs - off + length (content (byte d'') fs ks) =
                          omega (
                            arith,
                            fits,
                            within,
                            length-append (cluster_bytes (byte d) fs c) (content (byte d) fs ks),
                            length-load_bytes (byte d) (cluster_start fs c) (cluster_size_bytes fs),
                            ap length (
                                content_same sound (byte d) (byte d'') c _ ks rest away placed.0
                                  patched.others),
                          ) in
                        bind
                          (next_or_new-Returns c ks d'' listed goes
                            (omega (arith, room, long, whole)))
                          λ next d3 (e, kept).
                            weaken
                              (write_loop-Returns turns next 0 (drop n bytes) ks d3
                                (subst (λ f. IsChain fs capacity f next ks) (sym kept)
                                  (subst (λ x. IsChain fs capacity (byte d'') x ks) (sym e) goes))
                                later apart (omega (arith, within))
                                (omega (arith, long, length-drop n bytes))
                                (omega (
                                  arith,
                                  room,
                                  whole,
                                  length-drop n bytes,
                                  ap (λ f. length (content f fs ks)) kept,
                                ))
                                (omega
                                  (arith, enough, some, within, long, whole, length-drop n bytes)))
                              λ _ d4 written.
                                more_pieces sound c off bytes ks (byte d) (byte d'') (byte d4) _
                                  patched
                                  (subst
                                    (λ f.
                                      IsWritten fs ks 0 (drop (cluster_size_bytes fs - off) bytes) f
                                        (byte d4))
                                    kept
                                    (subst
                                      (λ k. IsWritten fs ks 0 (drop k bytes) (byte d3) (byte d4))
                                      whole written))
                                  rest away placed.0 (omega (arith, within)))
              ])
    where
      n : ℕ
      n = min (length bytes) (cluster_size_bytes fs - off)

      size :
          (buf : List ℕ)
          → length buf ≡ length (cluster_bytes (byte d) fs c)
          → length (overwrite buf off (take n bytes)) ≡ cluster_size_bytes fs
      size buf h =
          length-overwrite buf off (take n bytes)
          ∙ h
          ∙ length-load_bytes (byte d) (cluster_start fs c) (cluster_size_bytes fs)
