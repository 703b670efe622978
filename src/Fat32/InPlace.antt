-- ===== src/Fat32/InPlace.antt =====
-- The way along a chain to the cluster where a write starts.
use ross_os.Base.{
  ℕ, zero, suc, ◌+◌, ◌*◌, ◌%◌, ◌≤◌, ◌<◌, ◌≡◌, refl, ap, ap₂, sym, ◌∙◌, subst, List, ◌∷◌, ◌++◌,
  length, length-append, arith,
}
use ross_os.Base.Bytes.{overwrite, load_bytes_same}
use ross_os.Base.Overwrite.{overwrite-append_behind}
use ross_os.Disk.{Cmd, DiskOps, IsWorking}
use ross_os.Disk.Returns.{Returns, returns, bind, weaken, done}
use ross_os.Fat32.{Fat32Fs, cluster_size_bytes, entry_mod}
use ross_os.Fat32.Alloc.{IsSound}
use ross_os.Fat32.Clusters.{cluster_bytes, cluster_start}
use ross_os.Fat32.Content.{IsChain, ends, linked, content}
use ross_os.Fat32.Files.{Open, lift, skip_clusters}
use ross_os.Fat32.Store.{length-cluster_bytes, next_or_new-Returns}
use ross_os.Fat32.Table.{raw_entry}
use ross_os.Fat32.Write.{Away, Distinct, Listed, Outside, IsWritten, others-Outside}

-- The cluster `k` is `n` clusters behind the first of a chain: `sfx` is the chain from there on, and
-- what is written there is written to the whole chain.
pub record Reached (fs : Fat32Fs) (capacity : ℕ) (m : ℕ → ℕ) (cs : List ℕ) (n k : ℕ) : Type 0 where
  pub sfx : List ℕ
  pub chain : IsChain fs capacity m k sfx
  pub listed : Listed fs sfx
  pub distinct : Distinct sfx
  pub long : length (content m fs cs) ≡ n * cluster_size_bytes fs + length (content m fs sfx)
  pub lifted :
      (off : ℕ) (bytes : List ℕ) (m' : ℕ → ℕ)
      → IsWritten fs sfx off bytes m m'
      → IsWritten fs cs (n * cluster_size_bytes fs + off) bytes m m'

module _ {fs : Fat32Fs} {capacity : ℕ} (sound : IsSound fs capacity) where
  behind :
      (c off : ℕ) (bytes ks : List ℕ) (m m' : ℕ → ℕ) (first : ℕ)
      → IsWritten fs ks off bytes m m'
      → IsChain fs capacity m first ks
      → Away c ks
      → 2 ≤ c
      → IsWritten fs (c ∷ ks) (cluster_size_bytes fs + off) bytes m m'
  unfolding content Outside
  behind c off bytes ks m m' first written chain away h = record {
    inside =
        ap₂ (λ x y. x ++ y)
          (load_bytes_same m m' (cluster_start fs c) (cluster_size_bytes fs)
            (λ a l u. written.outside a (others-Outside c a first ks chain away h l u)))
          written.inside
        ∙ sym (overwrite-append_behind (cluster_bytes m fs c) (content m fs ks) off bytes)
        ∙ ap (λ n. overwrite (cluster_bytes m fs c ++ content m fs ks) (n + off) bytes)
            (length-cluster_bytes sound m c);
    outside = λ a out. written.outside a out.1;
  }

pub lift-Returns :
    {D A : Type 0} {P : A → D → Type 0} (m : Cmd D A) (o : Open D)
    → Returns P (m o.disk)
    → Returns (λ a o'. P a o'.disk × (o'.node ≡ o.node)) (lift m o)
lift-Returns m o (returns a d e p) =
    returns a (record o { disk = d }) (ap (λ r. (r.0, record o { disk = r.1 })) e) (p, refl)

module _ {D : Type 0} {disk : DiskOps D} {byte : D → ℕ → ℕ} {capacity : ℕ}
    (works : IsWorking disk byte capacity) {fs : Fat32Fs} (sound : IsSound fs capacity) where
  pub skip_clusters-Reached :
      (n cluster : ℕ) (cs : List ℕ) (d : D)
      → IsChain fs capacity (byte d) cluster cs
      → Listed fs cs
      → Distinct cs
      → n * cluster_size_bytes fs < length (content (byte d) fs cs)
      → Returns
          (λ k d'. Reached fs capacity (byte d) cs n k × (byte d' ≡ byte d))
          (skip_clusters disk fs n cluster d)
  unfolding skip_clusters content Listed Distinct
  skip_clusters-Reached zero cluster cs d chain known apart fits = done cluster d (
    record {
      sfx = cs;
      chain = chain;
      listed = known;
      distinct = apart;
      long = omega arith;
      lifted = λ off bytes m' w.
          subst (λ o. IsWritten fs cs o bytes (byte d) m') {y = 0 * cluster_size_bytes fs + off}
            (omega arith) w;
    },
    refl,
  )
  skip_clusters-Reached (suc n) _ _ d (ends c over) known apart fits = absurd (omega (arith, fits))
  skip_clusters-Reached (suc n) _ _ d (linked c ks on placed listed rest) (known, later)
        (away, apart) fits =
      let total : length (content (byte d) fs (c ∷ ks))
          ≡ cluster_size_bytes fs + length (content (byte d) fs ks) =
        length-append (cluster_bytes (byte d) fs c) (content (byte d) fs ks)
        ∙ ap (λ l. l + length (content (byte d) fs ks)) (length-cluster_bytes sound (byte d) c) in
      let more : n * cluster_size_bytes fs < length (content (byte d) fs ks) =
        omega (arith, fits, total) in
      bind (next_or_new-Returns works sound c ks d listed rest (omega (arith, more)))
        λ next d' (e, same).
          weaken
            (skip_clusters-Reached n next ks d'
              (subst (λ f. IsChain fs capacity f next ks) (sym same)
                (subst (λ x. IsChain fs capacity (byte d) x ks) (sym e) rest))
              later apart (omega (arith, more, ap (λ f. length (content f fs ks)) same)))
            λ k d'' (reached, kept). (
              further c n k ks d (subst (λ f. Reached fs capacity f ks n k) same reached) rest away
                  placed.0 total,
              kept ∙ same,
            )
    where
      further :
          (c n k : ℕ) (ks : List ℕ) (d : D)
          → Reached fs capacity (byte d) ks n k
          → IsChain fs capacity (byte d) (raw_entry (byte d) fs.fat_start_sector c % entry_mod) ks
          → Away c ks
          → 2 ≤ c
          → length (content (byte d) fs (c ∷ ks))
            ≡ cluster_size_bytes fs + length (content (byte d) fs ks)
          → Reached fs capacity (byte d) (c ∷ ks) (suc n) k
      further c n k ks d r rest away h total = record {
        sfx = r.sfx;
        chain = r.chain;
        listed = r.listed;
        distinct = r.distinct;
        long = omega (arith, total, r.long);
        lifted = λ off bytes m' w.
            subst (λ o. IsWritten fs (c ∷ ks) o bytes (byte d) m')
              {x = cluster_size_bytes fs + (n * cluster_size_bytes fs + off)}
              {y = suc n * cluster_size_bytes fs + off} (omega arith)
              (behind sound c (n * cluster_size_bytes fs + off) bytes ks (byte d) m' _
                (r.lifted off bytes m' w) rest away h);
      }
