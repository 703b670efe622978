-- ===== src/Disk.antt =====
-- The disk below the file system: ross-kernel/src/ahci.rs as fat32.rs sees it, the sequencing of its
-- calls, and what they are relied on for.
pub mod Returns
pub mod Working
use ross_os.Base.{ℕ, ◌+◌, ◌*◌, ◌≤◌, ◌<◌, ◌≡◌, List, length, take}
use ross_os.Base.Bytes.{load_bytes, store_bytes}

-- `err` is an `Err`, `panic` a panic of the kernel, and `endless` a loop that outlasts its turns.
pub data Result (A : Type 0) : Type 0 where
  ok : A → Result A
  err : Result A
  panic : Result A
  endless : Result A

-- What an operation on the state `S` answers, and the state that it leaves, also where it fails.
abbrev pub Answer : Type 0 → Type 0 → Type 0
Answer S A = Result A × S

abbrev pub Cmd : Type 0 → Type 0 → Type 0
Cmd S A = S → Answer S A

module _ {S A : Type 0} where
  abbrev pub pure : A → Cmd S A
  pure a s = (ok a, s)

  abbrev pub fails : Cmd S A
  fails s = (err, s)

module _ {S A B : Type 0} where
  abbrev pub and_then : Answer S A → (A → Cmd S B) → Answer S B
  and_then (ok a, s) k = k a s
  and_then (err, s) k = (err, s)
  and_then (panic, s) k = (panic, s)
  and_then (endless, s) k = (endless, s)

  infixl 5 ◌>>=◌ ◌>>◌
  abbrev pub ◌>>=◌ : Cmd S A → (A → Cmd S B) → Cmd S B
  m >>= k = λ s. and_then (m s) k

  abbrev pub ◌>>◌ : Cmd S A → Cmd S B → Cmd S B
  m >> n = m >>= λ _. n

-- `read_sectors(lba, count, buf)` for a buffer of `len` bytes gives the bytes put at its front;
-- `write_sectors(lba, count, buf)` writes from the front of `buf`.
pub record DiskOps (D : Type 0) : Type 0 where
  pub read_sectors : (lba count len : ℕ) → Cmd D (List ℕ)
  pub write_sectors : (lba count : ℕ) → List ℕ → Cmd D (Unit {0})

-- A working disk of `capacity` sectors, whose content is `byte`: transfers of 1 to 8 sectors that lie
-- on it and in the buffer succeed, a read changes no content and a write that of its sectors alone.
pub record IsWorking {D : Type 0} (k : DiskOps D) (byte : D → ℕ → ℕ) (capacity : ℕ) : Type 0 where
  pub reads :
      (d : D) (lba count len : ℕ)
      → 1 ≤ count
      → count ≤ 8
      → count * 512 ≤ len
      → lba + count ≤ capacity
      → (d' : D) × (k.read_sectors lba count len d
          ≡ (ok (load_bytes (byte d) (lba * 512) (count * 512)), d'))
        × (byte d' ≡ byte d)
  pub writes :
      (d : D) (lba count : ℕ) (buf : List ℕ)
      → 1 ≤ count
      → count ≤ 8
      → count * 512 ≤ length buf
      → lba + count ≤ capacity
      → (d' : D) × (k.write_sectors lba count buf d ≡ (ok tt, d'))
        × (byte d' ≡ store_bytes (byte d) (lba * 512) (take (count * 512) buf))
