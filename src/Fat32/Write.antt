-- ===== src/Fat32/Write.antt =====
-- What the write loop leaves in the clusters of a chain that holds the whole range.
use ross_os.Base.{
  ℕ, ◌+◌, ◌-◌, ◌*◌, ◌%◌, ◌≤◌, ◌<◌, ◌≡◌, ◌≢◌, refl, ap, ap₂, sym, subst, List, [], ◌∷◌, ◌++◌, inl,
  inr, ◌⊎◌, arith,
}
use ross_os.Base.Bytes.{lt_or_le, overwrite, from_le, load_bytes_same}
use ross_os.Fat32.{Fat32Fs, cluster_size_bytes, entry_mod}
use ross_os.Fat32.Alloc.{IsSound}
use ross_os.Fat32.Clusters.{cluster_start}
use ross_os.Fat32.Content.{IsChain, ends, linked, content}
use ross_os.Fat32.Link.{HasEntry}
use ross_os.Fat32.Table.{raw_entry, slot}

-- No cluster of the list is `c`; all are different; the table has entries for all.
unfoldable pub Away : (c : ℕ) → List ℕ → Type 0
Away c [] = Unit {0}
Away c (k ∷ ks) = (k ≢ c) × Away c ks

unfoldable pub Distinct : List ℕ → Type 0
Distinct [] = Unit {0}
Distinct (k ∷ ks) = Away k ks × Distinct ks

unfoldable pub Listed : Fat32Fs → List ℕ → Type 0
Listed fs [] = Unit {0}
Listed fs (k ∷ ks) = HasEntry fs k × Listed fs ks

-- The address lies in no cluster of the list.
unfoldable pub Outside : Fat32Fs → (a : ℕ) → List ℕ → Type 0
Outside fs a [] = Unit {0}
Outside fs a (k ∷ ks) =
    ((a < cluster_start fs k) ⊎ (cluster_start fs k + cluster_size_bytes fs ≤ a)) × Outside fs a ks

-- The clusters' bytes are the old ones, with `bytes` written over them at `off`, and nothing else has
-- changed.
pub record IsWritten (fs : Fat32Fs) (cs : List ℕ) (off : ℕ) (bytes : List ℕ) (m m' : ℕ → ℕ)
    : Type 0 where
  pub inside : content m' fs cs ≡ overwrite (content m fs cs) off bytes
  pub outside : (a : ℕ) → Outside fs a cs → m' a ≡ m a

clusters_apart :
    (fs : Fat32Fs) (c k : ℕ)
    → 2 ≤ c
    → c < k
    → cluster_start fs c + cluster_size_bytes fs ≤ cluster_start fs k
clusters_apart fs c k h lt =
    let steps : c - 2 + 1 ≤ k - 2 = omega (arith, h, lt) in
    let product : (c - 2 + 1) * fs.bpb.sectors_per_cluster ≤ (k - 2) * fs.bpb.sectors_per_cluster =
      grind arith in
    omega (arith, product)

-- The addresses of a cluster lie outside the other clusters of a chain.
pub others-Outside :
    {fs : Fat32Fs} {capacity : ℕ} {m : ℕ → ℕ} (c a first : ℕ) (cs : List ℕ)
    → IsChain fs capacity m first cs
    → Away c cs
    → 2 ≤ c
    → cluster_start fs c ≤ a
    → a < cluster_start fs c + cluster_size_bytes fs
    → Outside fs a cs
unfolding Away Outside
others-Outside c a _ _ (ends cluster off) away h l u = tt
others-Outside {fs} c a _ _ (linked k ks on placed listed rest) (differ, away) h l u = (
  elim (lt_or_le k c) [
    | inl below ↦ inr (omega (arith, l, clusters_apart fs k c placed.0 below))
    | inr from ↦ inl (omega (arith, u, clusters_apart fs c k h (ground arith)))
  ],
  others-Outside c a _ ks rest away h l u,
)

-- The tables lie outside all clusters.
pub table-Outside :
    (fs : Fat32Fs) (a : ℕ) (cs : List ℕ) → a < fs.data_start_sector * 512 → Outside fs a cs
unfolding Outside
table-Outside fs a [] h = tt
table-Outside fs a (k ∷ ks) h = (inl (omega (arith, h)), table-Outside fs a ks h)

pub entry_in_table :
    {fs : Fat32Fs} {capacity : ℕ}
    → IsSound fs capacity
    → (k : ℕ) → HasEntry fs k
    → slot fs.fat_start_sector k + 4 ≤ fs.data_start_sector * 512
entry_in_table {fs} sound k known =
    let copied : 1 ≤ fs.bpb.num_fats = sound.placed.copied in
    let product : fs.bpb.fat_size_sectors ≤ fs.bpb.num_fats * fs.bpb.fat_size_sectors =
      grind arith in
    omega (arith, product, known, sound.data_behind)

module _ {fs : Fat32Fs} {capacity : ℕ} (sound : IsSound fs capacity) where
  pub entry_same :
      (m m' : ℕ → ℕ) (k : ℕ)
      → HasEntry fs k
      → ((a : ℕ) → a < fs.data_start_sector * 512 → m' a ≡ m a)
      → raw_entry m' fs.fat_start_sector k ≡ raw_entry m fs.fat_start_sector k
  entry_same m m' k known same = ap from_le (
      load_bytes_same m m' (slot fs.fat_start_sector k) 4
        λ a l u. same a (omega (arith, u, entry_in_table sound k known)))

  -- A change behind the tables leaves the chains.
  pub IsChain-same :
      (m m' : ℕ → ℕ) (c : ℕ) (cs : List ℕ)
      → IsChain fs capacity m c cs
      → Listed fs cs
      → ((a : ℕ) → a < fs.data_start_sector * 512 → m' a ≡ m a)
      → IsChain fs capacity m' c cs
  unfolding Listed
  IsChain-same m m' _ _ (ends c off) known same = ends c off
  IsChain-same m m' _ _ (linked c cs on placed listed rest) (known, later) same =
      linked c cs on placed listed (
        subst (λ e. IsChain fs capacity m' (e % entry_mod) cs) (sym (entry_same m m' c known same))
          (IsChain-same m m' _ cs rest later same))

  -- A change outside the clusters leaves their content.
  pub content_same :
      (m m' : ℕ → ℕ) (c first : ℕ) (cs : List ℕ)
      → IsChain fs capacity m first cs
      → Away c cs
      → 2 ≤ c
      → ((a : ℕ)
          → (a < cluster_start fs c) ⊎ (cluster_start fs c + cluster_size_bytes fs ≤ a)
          → m' a ≡ m a)
      → content m' fs cs ≡ content m fs cs
  unfolding Away content
  content_same m m' c _ _ (ends first off) away h same = refl
  content_same m m' c _ _ (linked k ks on placed listed rest) (differ, away) h same =
      ap₂ (λ x y. x ++ y)
        (load_bytes_same m m' (cluster_start fs k) (cluster_size_bytes fs) λ a l u.
          same a (elim (lt_or_le k c) [
            | inl below ↦ inl (omega (arith, u, clusters_apart fs k c placed.0 below))
            | inr from ↦ inr (omega (arith, l, clusters_apart fs c k h (ground arith)))
          ]))
        (content_same m m' c _ ks rest away h same)
