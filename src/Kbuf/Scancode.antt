-- ===== src/Kbuf/Scancode.antt =====
-- `scancode_to_ascii`: PS/2 Set-1 make codes.
use Prim.Native.Nat.{bit_and}
use ross_os.Base.{
  ℕ, ◌<◌, ◌≡◌, refl, List, [], ◌∷◌, Option, none, some, Bool, true, not, ◌&&◌, ◌||◌, arith, length,
  get_or, ltb, ◌==◌, if◌then◌else◌,
}
use ross_os.Base.Bits.{holds_below, holds_below_at}

-- `MAP`; 0 stands for a key that has no character.
abbrev pub scancode_map : List ℕ
scancode_map =
    0 ∷ 0x1B ∷ b'1' ∷ b'2' ∷ b'3' ∷ b'4' ∷ b'5' ∷ b'6' ∷ b'7' ∷ b'8' ∷ b'9' ∷ b'0' ∷ b'-' ∷ b'='
    ∷ 0x08 ∷ 0x09 ∷ b'q' ∷ b'w' ∷ b'e' ∷ b'r' ∷ b't' ∷ b'y' ∷ b'u' ∷ b'i' ∷ b'o' ∷ b'p' ∷ b'['
    ∷ b']' ∷ 0x0A ∷ 0 ∷ b'a' ∷ b's' ∷ b'd' ∷ b'f' ∷ b'g' ∷ b'h' ∷ b'j' ∷ b'k' ∷ b'l' ∷ b';' ∷ 0x27
    ∷ b'`' ∷ 0 ∷ 0x5C ∷ b'z' ∷ b'x' ∷ b'c' ∷ b'v' ∷ b'b' ∷ b'n' ∷ b'm' ∷ b',' ∷ b'.' ∷ b'/' ∷ 0
    ∷ b'*' ∷ 0 ∷ b' ' ∷ []

unfoldable pub scancode_to_ascii : ℕ → Option ℕ
scancode_to_ascii sc =
    if not (bit_and sc 0x80 == 0)
    then none
    else if ltb sc (length scancode_map) && not (get_or scancode_map sc 0 == 0)
    then some (get_or scancode_map sc 0)
    else none

same_key : Option ℕ → Option ℕ → Bool → Bool
same_key (some a) (some b) same = not (a == b) || same
same_key _ _ same = true

key_table :
    holds_below 58
      (λ a. holds_below 58 (λ b. same_key (scancode_to_ascii a) (scancode_to_ascii b) (a == b)))
    ≡ true
unfolding holds_below same_key scancode_to_ascii
key_table = refl

mapped-lt : (sc c : ℕ) → scancode_to_ascii sc ≡ some c → sc < 58
unfolding scancode_to_ascii
mapped-lt sc c h = ground arith

same_key-lem :
    (a b c : ℕ) (x y : Option ℕ) → x ≡ some c → y ≡ some c → same_key x y (a == b) ≡ true → a ≡ b
unfolding same_key
same_key-lem a b c x y hx hy h = ground arith

-- No two make codes give the same character.
pub scancode_injective :
    (a b c : ℕ) → scancode_to_ascii a ≡ some c → scancode_to_ascii b ≡ some c → a ≡ b
scancode_injective a b c ha hb =
    same_key-lem a b c (scancode_to_ascii a) (scancode_to_ascii b) ha hb (
      holds_below_at 58 _ b (holds_below_at 58 _ a key_table (mapped-lt a c ha)) (mapped-lt b c hb))
