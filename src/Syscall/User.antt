-- ===== src/Syscall/User.antt =====
-- ross-kernel/src/syscall.rs: what the system calls do with a process's memory, with text and with
-- the key ring, apart from the kernel's other state.
use ross_os.Base.{
  ℕ, zero, suc, ◌+◌, ◌-◌, ◌^◌, List, [], ◌∷◌, ◌++◌, Option, none, some, Bool, true, ◌&&◌, ◌||◌,
  length, leb, ◌==◌, if◌then◌else◌,
}
use ross_os.Base.Text.{push_char}
use ross_os.Kbuf.{Ring}
use ross_os.Kbuf
use ross_os.Writer.{Writer, fg, put_char}

-- `u64::MAX`.
abbrev pub fail : ℕ
fail = 2 ^ 64 - 1

-- `b.is_ascii_graphic() || b == b' '`.
abbrev pub is_printable : ℕ → Bool
is_printable b = (leb 33 b && leb b 126) || (b == b' ')

-- The path at `ptr`, up to a zero byte or until the text has 512 bytes; `len` is how many it has, and
-- 513 turns are enough, since each but the last makes it longer.
unfoldable pub copy_path : (user : ℕ → ℕ) → (fuel ptr len : ℕ) → List ℕ
unfolding push_char
copy_path user zero ptr len = []
copy_path user (suc fuel) ptr len =
    let b = user ptr in
    let text = push_char b in
    let rest = copy_path user fuel (ptr + 1) (len + length text) in
    if (b == 0) || leb 512 len then [] else text ++ rest

-- How many bytes that takes from the process's memory, the zero byte or the one behind the text
-- included.
unfoldable pub path_reads : (user : ℕ → ℕ) → (fuel ptr len : ℕ) → ℕ
unfolding push_char
path_reads user zero ptr len = 0
path_reads user (suc fuel) ptr len =
    let b = user ptr in
    let rest = path_reads user fuel (ptr + 1) (len + length (push_char b)) in
    if (b == 0) || leb 512 len then 1 else 1 + rest

-- Are the `len` bytes from `ptr` on the process's own?
unfoldable pub all_owned : (ℕ → Bool) → (ptr len : ℕ) → Bool
all_owned owned ptr zero = true
all_owned owned ptr (suc len) = owned ptr && all_owned owned (ptr + 1) len

-- "[SYSCALL LOG] ".
abbrev pub log_tag : List ℕ
log_tag =
    b'[' ∷ b'S' ∷ b'Y' ∷ b'S' ∷ b'C' ∷ b'A' ∷ b'L' ∷ b'L' ∷ b' ' ∷ b'L' ∷ b'O' ∷ b'G' ∷ b']' ∷ b' '
    ∷ []

-- "[SYSCALL] sys_exit(".
abbrev pub exit_tag : List ℕ
exit_tag =
    b'[' ∷ b'S' ∷ b'Y' ∷ b'S' ∷ b'C' ∷ b'A' ∷ b'L' ∷ b'L' ∷ b']' ∷ b' ' ∷ b's' ∷ b'y' ∷ b's' ∷ b'_'
    ∷ b'e' ∷ b'x' ∷ b'i' ∷ b't' ∷ b'(' ∷ []

-- What `Option<usize>` and `Result<usize, _>` come to as a `u64`.
abbrev pub or_fail : Option ℕ → ℕ
or_fail none = fail
or_fail (some n) = n

abbrev pub keys_from : Option ℕ → Ring → List ℕ × Ring → List ℕ × Ring
keys_from none r more = ([], r)
keys_from (some b) r (keys, r') = (b ∷ keys, r')

-- Takes keys off the ring into the caller's buffer until the ring is empty or `len` are taken.
unfoldable pub take_keys : ℕ → Ring → List ℕ × Ring
take_keys zero r = ([], r)
take_keys (suc len) r =
    let (key, r') = Kbuf.pop r in let more = take_keys len r' in keys_from key r' more

-- Line feeds and printable characters are shown; other bytes are passed over.
unfoldable pub show : (ℕ → ℕ → ℕ) → Writer → List ℕ → Writer
show font wr [] = wr
show font wr (b ∷ bs) =
    show font (if (b == b'\n') || is_printable b then put_char font wr b fg 1 else wr) bs
