-- ===== src/Tests/Ramfs.antt =====
-- The tar file system at concrete inputs.
use ross_os.Base.{ℕ, ◌≡◌, ◌≢◌, refl, [], ◌∷◌, true, arith, replicate, length-replicate}
use ross_os.Disk.{endless}
use ross_os.Ramfs.{file_read, scan, new}
use ross_os.Ramfs.Scan.{scan_ends}

-- A read across the end of the file, and one behind it.
read_to_the_end : file_read (1 ∷ 2 ∷ 3 ∷ []) 1 9 ≡ 2 ∷ 3 ∷ []
unfolding file_read
read_to_the_end = refl

read_behind : file_read (1 ∷ 2 ∷ 3 ∷ []) 3 9 ≡ []
unfolding file_read
read_behind = refl

-- Two empty blocks, as at the end of an archive, are read in three turns.
scan_ends_example :
    (scan (λ bs. true) (λ bs. bs) 3 (replicate 1024 0) ≢ endless)
    × (scan (λ bs. true) (λ bs. bs) 3 (replicate 1024 0)
        ≡ new (λ bs. true) (λ bs. bs) (replicate 1024 0))
scan_ends_example =
    scan_ends (λ bs. true) (λ bs. bs) 3 (replicate 1024 0)
      (omega (arith, length-replicate {A = ℕ} 1024 0))
