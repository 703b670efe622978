-- ===== src/Ramfs/Scan.antt =====
-- The loop that reads a tar archive.
use ross_os.Base.{
  ℕ, zero, suc, ◌+◌, ◌/◌, ◌≤◌, ◌<◌, ◌≡◌, ◌≢◌, refl, subst, List, [], ◌∷◌, Bool, true, arith, length,
  length-drop, drop, ltb, Bool-cases, ◌||◌, if◌then◌else◌, false, inl, inr,
}
use ross_os.Base.Text.{same_bytes}
use ross_os.Disk.{Result, ok, err, panic, endless}
use ross_os.Ramfs.{TarFile, ustar, field, file_name, file_size, entry_len, keep_file, scan, new}

-- An outcome of a loop that has ended.
Ended : Result (List TarFile) → Type 0
Ended endless = ⊥
Ended _ = Unit {0}

Ended-ne : (r : Result (List TarFile)) → Ended r → r ≢ endless
unfolding Ended
Ended-ne r h e = subst Ended e h

-- What lies behind an entry is shorter by its header at least.
block_less :
    (bytes : List ℕ) (n : ℕ)
    → ltb (length bytes) 512 ≡ false
    → length (drop (512 + n) bytes) + 512 ≤ length bytes
block_less bytes n e =
    let at_least : 512 ≤ length bytes = ground arith in
    omega (arith, at_least, length-drop (512 + n) bytes)

module _ (is_utf8 : List ℕ → Bool) (trim : List ℕ → List ℕ) where
  keep_file-Ended :
      (f : TarFile) (r : Result (List TarFile)) → Ended r → Ended (keep_file is_utf8 trim f r)
  unfolding Ended
  keep_file-Ended f (ok files) h = h
  keep_file-Ended f err h = h
  keep_file-Ended f panic h = h
  keep_file-Ended f endless h = h

  -- A turn ends when the ones after it do.
  entry-Ended :
      (magic skipped short : Bool) (f : TarFile) (rest : Result (List TarFile))
      → Ended rest
      → Ended (
          if magic
          then (if skipped then rest else if short then panic else keep_file is_utf8 trim f rest)
          else ok [])
  unfolding Ended
  entry-Ended true true short f rest h = h
  entry-Ended true false true f rest h = tt
  entry-Ended true false false f rest h = keep_file-Ended f rest h
  entry-Ended false skipped short f rest h = tt

  scan-Ended :
      (turns : ℕ) (bytes : List ℕ)
      → length bytes / 512 < turns
      → Ended (scan is_utf8 trim turns bytes)
  unfolding scan Ended
  scan-Ended zero bytes h = absurd (omega (arith, h))
  scan-Ended (suc turns) bytes h = elim (Bool-cases (ltb (length bytes) 512)) [
    | inl e ↦ rw e tt
    | inr e ↦
        let size : ℕ = entry_len is_utf8 trim (file_size is_utf8 trim bytes) in
        let left : length (drop size bytes) / 512 < turns =
          omega (arith, h, block_less bytes _ e) in
        let rest : Ended (scan is_utf8 trim turns (drop size bytes)) =
          scan-Ended turns (drop size bytes) left in
        let name : List ℕ = file_name is_utf8 trim bytes in
        rw e (
          entry-Ended (same_bytes (field 257 5 bytes) ustar)
            (same_bytes name [] || same_bytes name (b'.' ∷ []))
            (ltb (length bytes) (512 + file_size is_utf8 trim bytes))
            (record { name = name; bytes = field 512 (file_size is_utf8 trim bytes) bytes })
            (scan is_utf8 trim turns (drop size bytes)) rest)
  ]

  scan_same :
      (t u : ℕ) (bytes : List ℕ)
      → length bytes / 512 < t
      → length bytes / 512 < u
      → scan is_utf8 trim t bytes ≡ scan is_utf8 trim u bytes
  unfolding scan
  scan_same zero u bytes h k = absurd (omega (arith, h))
  scan_same (suc t) zero bytes h k = absurd (omega (arith, k))
  scan_same (suc t) (suc u) bytes h k = elim (Bool-cases (ltb (length bytes) 512)) [
    | inl e ↦ rw e refl
    | inr e ↦
        let size : ℕ = entry_len is_utf8 trim (file_size is_utf8 trim bytes) in
        let fewer : length (drop size bytes) + 512 ≤ length bytes = block_less bytes _ e in
        rw (scan_same t u (drop size bytes) (omega (arith, h, fewer)) (omega (arith, k, fewer)))
  ]

  -- On an archive of any content, the loop ends by itself: it tests its condition at most once more than
  -- the archive has blocks of 512 bytes, and what it is given beyond that does not change its outcome,
  -- which is the one of `new`.
  pub scan_ends :
      (turns : ℕ) (bytes : List ℕ)
      → length bytes / 512 < turns
      → (scan is_utf8 trim turns bytes ≢ endless)
        × (scan is_utf8 trim turns bytes ≡ new is_utf8 trim bytes)
  unfolding new
  scan_ends turns bytes h = (
    Ended-ne _ (scan-Ended turns bytes h),
    scan_same turns (suc (length bytes)) bytes h (omega arith),
  )
