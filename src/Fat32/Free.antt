-- ===== src/Fat32/Free.antt =====
-- The search for a free cluster through the first table.
use ross_os.Base.{
  ℕ, zero, suc, ◌+◌, ◌*◌, ◌%◌, ◌^◌, ◌≤◌, ◌<◌, ◌≡◌, ◌≢◌, refl, ap, sym, ◌∙◌, subst, Option, none,
  some, inl, inr, ltb, ◌==◌, Bool-cases, arith,
}
use ross_os.Base.Bytes.{load_bytes, from_le, slice-load_bytes, lt_or_le}
use ross_os.Disk.{Answer, DiskOps, IsWorking, ok}
use ross_os.Disk.Working.{read-Returns}
use ross_os.Disk.Returns.{Returns, bind, weaken, done}
use ross_os.Fat32.{Fat32Fs, le_at, entry_mod}
use ross_os.Fat32.Chains.{scan_entries, scan_table}
use ross_os.Fat32.Table.{raw_entry}

-- A cluster that a file may be given: it has a number, and its entry in the table at `start` is zero.
abbrev pub IsFree : (ℕ → ℕ) → (start c : ℕ) → Type 0
IsFree m start c = (2 ≤ c) × (raw_entry m start c % entry_mod ≡ 0)

-- What the search through the entries from `lo` up to `hi` says: the first free one, or that none is.
pub data Scanned (m : ℕ → ℕ) (start lo hi : ℕ) : Option ℕ → Type 0 where
  found :
      (c : ℕ)
      → lo ≤ c
      → c < hi
      → IsFree m start c
      → ((k : ℕ) → lo ≤ k → k < c → ¬ IsFree m start k)
      → Scanned m start lo hi (some c)
  nothing : ((k : ℕ) → lo ≤ k → k < hi → ¬ IsFree m start k) → Scanned m start lo hi none

module _ {m : ℕ → ℕ} {start lo mid hi : ℕ} where
  -- What lies before is not free.
  none_below :
      {r : Option ℕ}
      → lo ≤ mid
      → ((k : ℕ) → lo ≤ k → k < mid → ¬ IsFree m start k)
      → Scanned m start mid hi r
      → Scanned m start lo hi r
  none_below h before (found c from below free first) =
      found c (omega (arith, h, from)) below free
        λ k l u. elim (lt_or_le k mid) [ inl early ↦ before k l early | inr late ↦ first k late u ]
  none_below h before (nothing none_free) = nothing λ k l u. elim (lt_or_le k mid) [
    | inl early ↦ before k l early
    | inr late ↦ none_free k late u
  ]

  widen : (c : ℕ) → mid ≤ hi → Scanned m start lo mid (some c) → Scanned m start lo hi (some c)
  widen c h (found c' from below free first) = found c from (omega (arith, below, h)) free first

none_before :
    {m : ℕ → ℕ} {start lo hi : ℕ}
    → Scanned m start lo hi none
    → (k : ℕ) → lo ≤ k
    → k < hi
    → ¬ IsFree m start k
none_before (nothing none_free) = none_free

entry_in_sector :
    (m : ℕ → ℕ) (start si i : ℕ)
    → i < 128
    → le_at 4 (i * 4) (load_bytes m ((start + si) * 512) 512) ≡ raw_entry m start (si * 128 + i)
entry_in_sector m start si i h =
    ap from_le (slice-load_bytes m ((start + si) * 512) 512 (i * 4) 4 (omega (arith, h)))
    ∙ ap (λ p. from_le (load_bytes m p 4)) (omega arith)

scan_entries-Scanned :
    (m : ℕ → ℕ) (start si n i : ℕ)
    → i + n ≡ 128
    → Scanned m start
        (si * 128 + i)
        (si * 128 + 128)
        (scan_entries n i (si * 128) (load_bytes m ((start + si) * 512) 512))
unfolding scan_entries
scan_entries-Scanned m start si zero i e = nothing λ k l u free. omega (arith, e, l, u)
scan_entries-Scanned m start si (suc n) i e =
    let rest = scan_entries-Scanned m start si n (i + 1) (omega (arith, e)) in
    elim (Bool-cases (ltb (si * 128 + i) 2)) [
      | inl reserved ↦
          let low : si * 128 + i < 2 = ground arith in
          rw reserved
            (none_below (omega arith) (λ k l u free. omega (arith, l, u, free.0, low)) rest)
      | inr numbered ↦
          let high : 2 ≤ si * 128 + i = ground arith in
          elim (Bool-cases (entry % entry_mod == 0)) [
            | inl free ↦
                let is_zero : entry % entry_mod ≡ 0 = ground arith in
                rw (numbered, free)
                  (found (si * 128 + i) (omega arith) (omega (arith, e))
                    (high, ap (λ v. v % entry_mod) (sym same) ∙ is_zero)
                    λ k l u. absurd (omega (arith, l, u)))
            | inr used ↦
                let not_zero : entry % entry_mod ≢ 0 = ground arith in
                rw (numbered, used)
                  (none_below (omega arith)
                    (λ k l u free. not_zero (
                      ap (λ v. v % entry_mod)
                        (same ∙ ap (raw_entry m start) {y = k} (omega (arith, l, u)))
                      ∙ free.1))
                    rest)
          ]
    ]
  where
    entry : ℕ
    entry = le_at 4 (i * 4) (load_bytes m ((start + si) * 512) 512)

    same : entry ≡ raw_entry m start (si * 128 + i)
    same = entry_in_sector m start si i (omega (arith, e))

module _ {D : Type 0} {disk : DiskOps D} {byte : D → ℕ → ℕ} {capacity : ℕ}
    (works : IsWorking disk byte capacity) (fs : Fat32Fs)
    (fits : fs.fat_start_sector + fs.bpb.fat_size_sectors ≤ capacity)
    (numbered : fs.bpb.fat_size_sectors * 128 ≤ 2 ^ 32) where
  abbrev Searched : (d : D) (si : ℕ) → Option ℕ → D → Type 0
  Searched d si r d' =
      Scanned (byte d) fs.fat_start_sector (si * 128) (fs.bpb.fat_size_sectors * 128) r
      × (byte d' ≡ byte d)

  after_sector :
      (d d' : D) (si : ℕ) (r : Option ℕ) (rest : Answer D (Option ℕ))
      → si < fs.bpb.fat_size_sectors
      → byte d' ≡ byte d
      → Scanned (byte d) fs.fat_start_sector (si * 128) (si * 128 + 128) r
      → Returns (Searched d' (si + 1)) rest
      → Returns (Searched d si) (elim r [ some c ↦ (ok (some c), d') | none ↦ rest ])
  after_sector d d' si (some c) rest h same here later =
      done (some c) d' (widen c (omega (arith, h)) here, same)
  after_sector d d' si none rest h same here later = weaken later λ r d'' (there, same'). (
    none_below (omega arith) (λ k l u. none_before here k l (omega (arith, u)))
        (subst
          (λ f. Scanned f fs.fat_start_sector ((si + 1) * 128) (fs.bpb.fat_size_sectors * 128) r)
          same there),
    same' ∙ same,
  )

  in_sector :
      (d : D) (si : ℕ)
      → si < fs.bpb.fat_size_sectors
      → Scanned (byte d) fs.fat_start_sector (si * 128) (si * 128 + 128) (
          scan_entries 128 0
            (si * 128 % 2 ^ 32)
            (load_bytes (byte d) ((fs.fat_start_sector + si) * 512) (1 * 512)))
  in_sector d si h =
      subst
        (λ b.
          Scanned (byte d) fs.fat_start_sector (si * 128) (si * 128 + 128)
            (scan_entries 128 0 b (load_bytes (byte d) ((fs.fat_start_sector + si) * 512) 512)))
        {x = si * 128} {y = si * 128 % 2 ^ 32} (omega (arith, h, numbered))
        (subst
          (λ b. Scanned (byte d) fs.fat_start_sector b (si * 128 + 128) (
            scan_entries 128 0 (si * 128)
              (load_bytes (byte d) ((fs.fat_start_sector + si) * 512) 512)))
          {x = si * 128 + 0} {y = si * 128} (omega arith)
          (scan_entries-Scanned (byte d) fs.fat_start_sector si 128 0 (omega arith)))

  pub scan_table-Scanned :
      (n si : ℕ) (d : D)
      → si + n ≡ fs.bpb.fat_size_sectors
      → Returns
          (λ r d'.
            Scanned (byte d) fs.fat_start_sector (si * 128) (fs.bpb.fat_size_sectors * 128) r
            × (byte d' ≡ byte d))
          (scan_table disk fs n si d)
  unfolding scan_table
  scan_table-Scanned zero si d e =
      done none d (nothing (λ k l u. absurd (omega (arith, e, l, u))), refl)
  scan_table-Scanned (suc n) si d e =
      bind
        (read-Returns works d (fs.fat_start_sector + si) 1 512 (omega arith) (omega arith)
          (omega arith) (omega (arith, e, fits)))
        λ buf d' (got, same).
          after_sector d d' si (scan_entries 128 0 (si * 128 % 2 ^ 32) buf) _ (omega (arith, e))
            same
            (subst
              (λ b.
                Scanned (byte d) fs.fat_start_sector (si * 128) (si * 128 + 128)
                  (scan_entries 128 0 (si * 128 % 2 ^ 32) b))
              (sym got) (in_sector d si (omega (arith, e))))
            (scan_table-Scanned n (si + 1) d' (omega (arith, e)))
