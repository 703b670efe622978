-- ===== src/Fat32/Table.antt =====
-- The entries of the table of cluster chains, on a working disk.
use ross_os.Base.{
  ℕ, zero, suc, ◌+◌, ◌*◌, ◌%◌, ◌≤◌, ◌<◌, ◌≡◌, refl, ap, ap₂, sym, ◌∙◌, subst, List, length, take,
  inl, inr, ◌⊎◌, arith,
}
use ross_os.Base.Bytes.{
  load_bytes, store_bytes, overwrite, from_le, to_le, length-load_bytes, length-overwrite,
  length-to_le, slice-load_bytes, from_le-to_le, store_bytes-patched, take_all, store_bytes_before,
  store_bytes_behind, load_bytes-store_bytes, load_bytes_same, lt_or_le,
}
use ross_os.Disk.{DiskOps, IsWorking}
use ross_os.Disk.Working.{read-Returns, write-Returns}
use ross_os.Disk.Returns.{Returns, bind, weaken, done}
use ross_os.Fat32.{
  Fat32Fs, le_at, entry_mod, entry_sector, entry_pos, merged, next_cluster, set_entry_in,
  set_copies,
}

-- The address of the entry of a cluster in the copy of the table that starts at a sector.
abbrev pub slot : (start cluster : ℕ) → ℕ
slot start cluster = start * 512 + cluster * 4

-- The 32 bits that lie there.
abbrev pub raw_entry : (ℕ → ℕ) → (start cluster : ℕ) → ℕ
raw_entry m start cluster = from_le (load_bytes m (slot start cluster) 4)

slot_place : (start c : ℕ) → (start + entry_sector c) * 512 + entry_pos c ≡ slot start c
slot_place start c = omega arith

le_at-load_bytes :
    (m : ℕ → ℕ) (start c : ℕ)
    → le_at 4 (entry_pos c) (load_bytes m ((start + entry_sector c) * 512) 512)
      ≡ raw_entry m start c
le_at-load_bytes m start c =
    ap from_le
      (slice-load_bytes m ((start + entry_sector c) * 512) 512 (entry_pos c) 4 (omega arith))
    ∙ ap (λ p. from_le (load_bytes m p 4)) (slot_place start c)

-- The memory with a new entry.
abbrev pub with_raw : (ℕ → ℕ) → (start cluster value : ℕ) → ℕ → ℕ
with_raw m start cluster value =
    store_bytes m (slot start cluster) (to_le 4 (merged (raw_entry m start cluster) value))

abbrev patch_entry : (c value : ℕ) → List ℕ → List ℕ
patch_entry c value b = overwrite b (entry_pos c) (to_le 4 (merged (le_at 4 (entry_pos c) b) value))

-- Writing the patched sector back writes the entry.
stored :
    (start c value : ℕ) (m : ℕ → ℕ)
    → store_bytes m
        ((start + entry_sector c) * 512)
        (take 512 (patch_entry c value (load_bytes m ((start + entry_sector c) * 512) 512)))
      ≡ with_raw m start c value
stored start c value m =
    ap (λ b. store_bytes m p b)
      (take_all 512 (patch_entry c value (load_bytes m p 512)) (
        omega (
          arith,
          length-overwrite (load_bytes m p 512) (entry_pos c)
              (to_le 4 (merged (le_at 4 (entry_pos c) (load_bytes m p 512)) value)),
          length-load_bytes m p 512,
        )))
    ∙ store_bytes-patched m p 512 (entry_pos c)
        (to_le 4 (merged (le_at 4 (entry_pos c) (load_bytes m p 512)) value))
        (omega (arith, length-to_le 4 (merged (le_at 4 (entry_pos c) (load_bytes m p 512)) value)))
    ∙ ap₂ (λ q v. store_bytes m q (to_le 4 (merged v value))) (slot_place start c)
        (le_at-load_bytes m start c)
  where
    p : ℕ
    p = (start + entry_sector c) * 512

module _ {D : Type 0} {disk : DiskOps D} {byte : D → ℕ → ℕ} {capacity : ℕ}
    (works : IsWorking disk byte capacity) where
  pub next_cluster-Returns :
      (fs : Fat32Fs) (c : ℕ) (d : D)
      → fs.fat_start_sector + entry_sector c < capacity
      → Returns
          (λ n d'. (n ≡ raw_entry (byte d) fs.fat_start_sector c % entry_mod) × (byte d' ≡ byte d))
          (next_cluster disk fs c d)
  unfolding next_cluster
  next_cluster-Returns fs c d h =
      bind
        (read-Returns works d (fs.fat_start_sector + entry_sector c) 1 512 (omega arith)
          (omega arith) (omega arith) (omega (arith, h)))
        (λ buf d' (e, same). done _ d' (
          ap (λ b. le_at 4 (entry_pos c) b % entry_mod) e
              ∙ ap (λ n. n % entry_mod) (le_at-load_bytes (byte d) fs.fat_start_sector c),
          same,
        ))

  pub set_entry_in-Returns :
      (start c value : ℕ) (d : D)
      → start + entry_sector c < capacity
      → Returns
          (λ _ d'. byte d' ≡ with_raw (byte d) start c value)
          (set_entry_in disk start c value d)
  unfolding set_entry_in
  set_entry_in-Returns start c value d h =
      bind
        (read-Returns works d (start + entry_sector c) 1 512 (omega arith) (omega arith)
          (omega arith) (omega (arith, h)))
        (λ buf d' (e, same).
          weaken
            (write-Returns works d' (start + entry_sector c) 1 _ (omega arith) (omega arith)
              (omega (
                arith,
                ap length e,
                length-load_bytes (byte d) ((start + entry_sector c) * 512) 512,
                length-overwrite buf (entry_pos c)
                    (to_le 4 (merged (le_at 4 (entry_pos c) buf) value)),
              ))
              (omega (arith, h)))
            (λ _ d'' wrote.
              wrote
              ∙ ap₂
                  (λ m b.
                    store_bytes m ((start + entry_sector c) * 512)
                      (take 512 (patch_entry c value b)))
                  same e
              ∙ stored start c value (byte d)))

raw_entry-with_raw :
    (m : ℕ → ℕ) (start c value : ℕ)
    → raw_entry (with_raw m start c value) start c % entry_mod ≡ value % entry_mod
raw_entry-with_raw m start c value =
    ap (λ n. from_le n % entry_mod)
      (ap (load_bytes m' (slot start c)) (sym (length-to_le 4 new))
        ∙ load_bytes-store_bytes m (slot start c) (to_le 4 new))
    ∙ ap (λ n. n % entry_mod) (from_le-to_le new (omega arith))
    ∙ omega arith
  where
    new : ℕ
    new = merged (raw_entry m start c) value

    m' : ℕ → ℕ
    m' = with_raw m start c value

with_raw_elsewhere :
    (m : ℕ → ℕ) (start c value a : ℕ)
    → (a < slot start c) ⊎ (slot start c + 4 ≤ a)
    → with_raw m start c value a ≡ m a
with_raw_elsewhere m start c value a (inl h) = store_bytes_before m (slot start c) _ a h
with_raw_elsewhere m start c value a (inr h) =
    store_bytes_behind m (slot start c) _ a
      (omega (arith, h, length-to_le 4 (merged (raw_entry m start c) value)))

-- The sector at which a copy of the table starts.
abbrev pub copy_start : Fat32Fs → ℕ → ℕ
copy_start fs g = fs.fat_start_sector + g * fs.bpb.fat_size_sectors

-- What `set_copies` of `n` copies from `f` on has done to the memory.
pub record EntrySet (fs : Fat32Fs) (c value f n : ℕ) (m m' : ℕ → ℕ) : Type 0 where
  pub holds :
      (g : ℕ) → f ≤ g → g < f + n → raw_entry m' (copy_start fs g) c % entry_mod ≡ value % entry_mod
  pub others :
      (a : ℕ)
      → ((g : ℕ)
          → f ≤ g
          → g < f + n
          → (a < slot (copy_start fs g) c) ⊎ (slot (copy_start fs g) c + 4 ≤ a))
      → m' a ≡ m a

slots_apart :
    (fs : Fat32Fs) (c f g : ℕ)
    → 1 ≤ fs.bpb.fat_size_sectors
    → f < g
    → slot (copy_start fs f) c + 512 ≤ slot (copy_start fs g) c
slots_apart fs c f g h lt = grind arith

module _ {D : Type 0} {disk : DiskOps D} {byte : D → ℕ → ℕ} {capacity : ℕ}
    (works : IsWorking disk byte capacity) (fs : Fat32Fs) (c value : ℕ)
    (sized : 1 ≤ fs.bpb.fat_size_sectors) where
  entry-set :
      (f n : ℕ) (m m' : ℕ → ℕ)
      → EntrySet fs c value (f + 1) n (with_raw m (copy_start fs f) c value) m'
      → EntrySet fs c value f (suc n) m m'
  entry-set f n m m' rest = record {
    holds = λ g from below. elim (lt_or_le f g) [
      | inl later ↦ rest.holds g (omega (arith, later)) (omega (arith, below))
      | inr here ↦
          ap (λ k. raw_entry m' (copy_start fs k) c % entry_mod) {y = f} (omega (arith, from, here))
          ∙ ap (λ l. from_le l % entry_mod)
              (load_bytes_same (with_raw m (copy_start fs f) c value) m' (slot (copy_start fs f) c)
                4
                λ a l u. rest.others a λ k above under.
                  inl (omega (arith, u, slots_apart fs c f k sized (omega (arith, above)))))
          ∙ raw_entry-with_raw m (copy_start fs f) c value
    ];
    others = λ a apart.
        rest.others a (λ g from below. apart g (omega (arith, from)) (omega (arith, below)))
        ∙ with_raw_elsewhere m (copy_start fs f) c value a (apart f (omega arith) (omega arith));
  }

  first_inside :
      (f n : ℕ)
      → fs.fat_start_sector + (f + suc n) * fs.bpb.fat_size_sectors ≤ capacity
      → c < fs.bpb.fat_size_sectors * 128
      → copy_start fs f + entry_sector c < capacity
  first_inside f n fits within =
      let sector : entry_sector c < fs.bpb.fat_size_sectors = omega (arith, within) in grind arith

  pub set_copies-Returns :
      (n f : ℕ) (d : D)
      → fs.fat_start_sector + (f + n) * fs.bpb.fat_size_sectors ≤ capacity
      → c < fs.bpb.fat_size_sectors * 128
      → Returns
          (λ _ d'. EntrySet fs c value f n (byte d) (byte d'))
          (set_copies disk fs n f c value d)
  unfolding set_copies
  set_copies-Returns zero f d fits within = done tt d record {
    holds = λ g from below. absurd (omega (arith, from, below));
    others = λ a apart. refl;
  }
  set_copies-Returns (suc n) f d fits within =
      bind (set_entry_in-Returns works (copy_start fs f) c value d (first_inside f n fits within))
        (λ _ d' wrote. weaken (set_copies-Returns n (f + 1) d' (grind arith) within) (λ _ d'' rest.
          entry-set f n (byte d) (byte d'')
            (subst (λ m. EntrySet fs c value (f + 1) n m (byte d'')) wrote rest)))

-- Entries of different clusters lie apart, whichever copies they are in.
entries_apart :
    (fs : Fat32Fs) (c c' g k : ℕ)
    → 1 ≤ fs.bpb.fat_size_sectors
    → c < fs.bpb.fat_size_sectors * 128
    → c' < fs.bpb.fat_size_sectors * 128
    → (c' < c) ⊎ (c < c')
    → (slot (copy_start fs g) c' + 4 ≤ slot (copy_start fs k) c)
      ⊎ (slot (copy_start fs k) c + 4 ≤ slot (copy_start fs g) c')
entries_apart fs c c' g k sized within within' differ = elim (lt_or_le g k) [
  | inl below ↦ inl (copy_below fs c c' g k below within')
  | inr from ↦ elim (lt_or_le k g) [
    | inl above ↦ inr (copy_below fs c' c k g above within)
    | inr same ↦
        let e : g ≡ k = omega (arith, from, same) in
        elim differ [
          | inl h ↦ inl (rw e (omega (arith, h)))
          | inr h ↦ inr (rw e (omega (arith, h)))
        ]
  ]
]
  where
    copy_below :
        (fs : Fat32Fs) (c c' g k : ℕ)
        → g < k
        → c' < fs.bpb.fat_size_sectors * 128
        → slot (copy_start fs g) c' + 4 ≤ slot (copy_start fs k) c
    copy_below fs c c' g k below within' = grind arith

pub entry_kept :
    (fs : Fat32Fs) (c value f n : ℕ) (m m' : ℕ → ℕ) (g c' : ℕ)
    → EntrySet fs c value f n m m'
    → 1 ≤ fs.bpb.fat_size_sectors
    → c < fs.bpb.fat_size_sectors * 128
    → c' < fs.bpb.fat_size_sectors * 128
    → (c' < c) ⊎ (c < c')
    → raw_entry m' (copy_start fs g) c' ≡ raw_entry m (copy_start fs g) c'
entry_kept fs c value f n m m' g c' was_set sized within within' differ = ap from_le (
    load_bytes_same m m' (slot (copy_start fs g) c') 4 λ a l u. was_set.others a λ k above below.
      elim (entries_apart fs c c' g k sized within within' differ) [
        | inl h ↦ inl (omega (arith, u, h))
        | inr h ↦ inr (omega (arith, l, h))
      ])
