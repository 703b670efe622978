-- ===== src/Fat32/Content.antt =====
-- What a read of a file gives, against the bytes of its chain of clusters.
use ross_os.Base.{
  ℕ, zero, suc, ◌+◌, ◌-◌, ◌%◌, ◌≤◌, ◌<◌, ◌≡◌, refl, ap, ap₂, sym, ◌∙◌, subst, List, [], ◌∷◌, ◌++◌,
  inl, inr, true, false, ltb, leb, min, length, take, drop, length-append, length-take, Bool-cases,
  arith,
}
use ross_os.Base.Bytes.{take_all, length-load_bytes}
use mathlib.Core.List.{append_assoc, append-nil}
use ross_os.Base.Slices.{take_nothing, take_empty, take-append, take-min, drop-take, drop_all}
use ross_os.Disk.{DiskOps, IsWorking}
use ross_os.Disk.Returns.{Returns, bind, weaken, done}
use ross_os.Fat32.{Fat32Fs, in_chain, cluster_size_bytes, entry_mod, entry_sector}
use ross_os.Fat32.Chains.{chain_loop, read_chain_into}
use ross_os.Fat32.Clusters.{cluster_bytes, cluster_start, IsOnDisk, read_cluster-Returns}
use ross_os.Fat32.Directory.{Fat32Node}
use ross_os.Fat32.Files.{read, slice}
use ross_os.Fat32.Table.{raw_entry, next_cluster-Returns}

-- The clusters of the chain that starts with a cluster: all of them, and the sectors of their entries
-- in the first table, lie on the disk.
pub data IsChain (fs : Fat32Fs) (capacity : ℕ) (m : ℕ → ℕ) : (cluster : ℕ) → List ℕ → Type 0 where
  ends : (cluster : ℕ) → in_chain cluster ≡ false → IsChain fs capacity m cluster []
  linked :
      (cluster : ℕ) (cs : List ℕ)
      → in_chain cluster ≡ true
      → IsOnDisk fs capacity cluster
      → fs.fat_start_sector + entry_sector cluster < capacity
      → IsChain fs capacity m (raw_entry m fs.fat_start_sector cluster % entry_mod) cs
      → IsChain fs capacity m cluster (cluster ∷ cs)

-- The bytes of clusters, one cluster after the other.
unfoldable pub content : (ℕ → ℕ) → Fat32Fs → List ℕ → List ℕ
content m fs [] = []
content m fs (c ∷ cs) = cluster_bytes m fs c ++ content m fs cs

step_bytes :
    (out bytes rest : List ℕ) (max : ℕ)
    → (out ++ take (min (length bytes) (max - length out)) bytes)
        ++ take (max - length (out ++ take (min (length bytes) (max - length out)) bytes)) rest
      ≡ out ++ take (max - length out) (bytes ++ rest)
step_bytes out bytes rest max =
    ap (λ t. (out ++ t) ++ take (max - length (out ++ t)) rest) (take-min (max - length out) bytes)
    ∙ append_assoc out (take (max - length out) bytes)
        (take (max - length (out ++ take (max - length out) bytes)) rest)
    ∙ ap (λ t. out ++ t) (left_over ∙ sym (take-append (max - length out) bytes rest))
  where
    left_over :
        take (max - length out) bytes
          ++ take (max - length (out ++ take (max - length out) bytes)) rest
        ≡ take (max - length out) bytes ++ take (max - length out - length bytes) rest
    left_over =
        ap (λ k. take (max - length out) bytes ++ take k rest)
          (omega (
            arith,
            length-append out (take (max - length out) bytes),
            length-take (max - length out) bytes,
          ))

no_content :
    {fs : Fat32Fs} {capacity : ℕ} (first : ℕ) (cs : List ℕ) (m : ℕ → ℕ)
    → first < 2
    → IsChain fs capacity m first cs
    → content m fs cs ≡ []
unfolding content
no_content _ _ m small (ends cluster off) = refl
no_content _ _ m small (linked cluster cs on placed listed rest) =
    absurd (omega (arith, placed.0, small))

module _ {D : Type 0} {disk : DiskOps D} {byte : D → ℕ → ℕ} {capacity : ℕ}
    (works : IsWorking disk byte capacity) (fs : Fat32Fs)
    (sized : 1 ≤ fs.bpb.sectors_per_cluster) where
  abbrev longer : (max : ℕ) (out bytes : List ℕ) → List ℕ
  longer max out bytes = out ++ take (min (cluster_size_bytes fs) (max - length out)) bytes

  length-longer :
      (max : ℕ) (out bytes : List ℕ)
      → length bytes ≡ cluster_size_bytes fs
      → length (longer max out bytes) ≡ length out + min (cluster_size_bytes fs) (max - length out)
  length-longer max out bytes h = omega (
    arith,
    h,
    length-append out (take (min (cluster_size_bytes fs) (max - length out)) bytes),
    length-take (min (cluster_size_bytes fs) (max - length out)) bytes,
  )

  turn_bytes :
      (m : ℕ → ℕ) (cluster : ℕ) (cs : List ℕ) (max : ℕ) (out : List ℕ)
      → longer max out (cluster_bytes m fs cluster)
          ++ take (max - length (longer max out (cluster_bytes m fs cluster))) (content m fs cs)
        ≡ out ++ take (max - length out) (content m fs (cluster ∷ cs))
  unfolding content
  turn_bytes m cluster cs max out =
      ap
        (λ n.
          (out ++ take (min n (max - length out)) bytes)
          ++ take (max - length (out ++ take (min n (max - length out)) bytes)) (content m fs cs))
        (sym (length-load_bytes m (cluster_start fs cluster) (cluster_size_bytes fs)))
      ∙ step_bytes out bytes (content m fs cs) max
    where
      bytes : List ℕ
      bytes = cluster_bytes m fs cluster

  chain_loop-Returns :
      (turns cluster max : ℕ) (out cs : List ℕ) (d : D)
      → length out ≤ max
      → max < length out + turns
      → IsChain fs capacity (byte d) cluster cs
      → Returns
          (λ bytes d'.
            (bytes ≡ out ++ take (max - length out) (content (byte d) fs cs)) × (byte d' ≡ byte d))
          (chain_loop disk fs turns cluster max out d)
  unfolding chain_loop content
  chain_loop-Returns zero cluster max out cs d room enough chain =
      absurd (omega (arith, room, enough))
  chain_loop-Returns (suc turns) _ max out _ d room enough (ends cluster off) =
      rw (off, chain_loop)
        (done out d
          (sym (append-nil out) ∙ ap (λ t. out ++ t) (sym (take_empty (max - length out))), refl))
  chain_loop-Returns (suc turns) _ max out _ d room enough
        (linked cluster cs on placed listed rest) =
      elim (Bool-cases (ltb (length out) max)) [
        | inl more ↦
            let short : length out < max = ground arith in
            rw (on, more, chain_loop)
              (bind (read_cluster-Returns works fs cluster d placed) λ bytes d' (got, same).
                bind (next_cluster-Returns works fs cluster d' listed) λ next d'' (e, same').
                  let size : length bytes ≡ cluster_size_bytes fs =
                    ap length got
                    ∙ length-load_bytes (byte d) (cluster_start fs cluster)
                        (cluster_size_bytes fs) in
                  let m : byte d'' ≡ byte d = same' ∙ same in
                  weaken
                    (chain_loop-Returns turns next max (longer max out bytes) cs d''
                      (omega (arith, length-longer max out bytes size, short))
                      (omega (arith, length-longer max out bytes size, short, enough, sized))
                      (subst (λ f. IsChain fs capacity f next cs) (sym m)
                        (rw (e ∙ ap (λ f. raw_entry f fs.fat_start_sector cluster % entry_mod) same)
                          rest)))
                    λ all d3 (e', kept). (
                      e'
                          ∙ ap₂
                              (λ f b.
                                longer max out b
                                ++ take (max - length (longer max out b)) (content f fs cs))
                              m got
                          ∙ turn_bytes (byte d) cluster cs max out,
                      kept ∙ m,
                    ))
        | inr full ↦
            let long : max ≤ length out = ground arith in
            rw (on, full, chain_loop)
              (done out d (
                sym (append-nil out)
                    ∙ ap (λ t. out ++ t)
                        (sym (take_nothing (max - length out) _ (omega (arith, long)))),
                refl,
              ))
      ]

  read_chain_into-Returns :
      (first max : ℕ) (cs : List ℕ) (d : D)
      → IsChain fs capacity (byte d) first cs
      → Returns
          (λ bytes d'. (bytes ≡ take max (content (byte d) fs cs)) × (byte d' ≡ byte d))
          (read_chain_into disk fs first max d)
  unfolding read_chain_into
  read_chain_into-Returns first max cs d chain = elim (Bool-cases (ltb first 2)) [
    | inl small ↦
        let below : first < 2 = ground arith in
        rw small (
          done [] d
            (sym (ap (take max) (no_content first cs (byte d) below chain) ∙ take_empty max), refl))
    | inr numbered ↦ rw numbered (
        weaken (chain_loop-Returns (max + 1) first max [] cs d (omega arith) (omega arith) chain)
          λ bytes d' (e, same).
            (e ∙ ap (λ n. take n (content (byte d) fs cs)) {y = max} (omega arith), same))
  ]

-- The part of the bytes `all` of a file of `size` bytes that a read gives.
abbrev pub part : (all : List ℕ) (size offset len : ℕ) → List ℕ
part all size offset len = take (min len (size - offset)) (drop offset all)

slice_whole :
    (chain : List ℕ) (offset end : ℕ)
    → length chain ≤ end
    → slice offset (min (length chain) end) chain ≡ drop offset chain
slice_whole chain offset end h = elim (Bool-cases (leb (min (length chain) end) offset)) [
  | inl short ↦
      let all_before : min (length chain) end ≤ offset = ground arith in
      rw short (sym (drop_all offset chain (omega (arith, h, all_before))))
  | inr long ↦
      rw long (ap (drop offset) (take_all (min (length chain) end) chain (omega (arith, h))))
]

module _ {D : Type 0} {disk : DiskOps D} {byte : D → ℕ → ℕ} {capacity : ℕ}
    (works : IsWorking disk byte capacity) (fs : Fat32Fs)
    (sized : 1 ≤ fs.bpb.sectors_per_cluster) where
  -- On a working disk, with clusters of a sector at least, a read of a file whose chain of
  -- clusters lies on the disk succeeds, changes no byte of the disk, and gives the part of the
  -- chain's bytes that starts at the offset: as many as the buffer takes, the size of the file
  -- allows and the chain has.
  pub read-content :
      (node : Fat32Node) (offset len : ℕ) (cs : List ℕ) (d : D)
      → node.is_dir ≡ false
      → IsChain fs capacity (byte d) node.first_cluster cs
      → Returns
          (λ bytes d'.
            (bytes ≡ part (content (byte d) fs cs) node.size offset len) × (byte d' ≡ byte d))
          (read disk fs node offset len d)
  unfolding read
  read-content node offset len cs d is_file chain = elim (Bool-cases (leb node.size offset)) [
    | inl behind ↦
        let past : node.size ≤ offset = ground arith in
        rw (is_file, behind)
          (done [] d
            (sym (take_nothing (min len (node.size - offset)) _ (omega (arith, past))), refl))
    | inr before ↦
        rw (is_file, before)
          (bind
            (read_chain_into-Returns works fs sized node.first_cluster
              (offset + min len (node.size - offset)) cs d chain)
            λ bytes d' (e, same). done _ d' (
              slice_whole bytes offset (offset + min len (node.size - offset)) (
                    omega (
                      arith,
                      ap length e,
                      length-take (offset + min len (node.size - offset)) (content (byte d) fs cs),
                    ))
                  ∙ ap (drop offset) e
                  ∙ drop-take offset (min len (node.size - offset)) (content (byte d) fs cs),
              same,
            ))
  ]
