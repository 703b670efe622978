-- ===== src/Base/Text.antt =====
-- Texts as lists of bytes: case, comparison, and what the Rust library does to them.
use Prim.Native.Nat.{ℕ, ◌+◌, ◌-◌, ◌/◌, ◌%◌}
use mathlib.Core.Bool.{Bool, true, false, not, ◌&&◌, ◌||◌}
use mathlib.Core.List.{List, [], ◌∷◌, ◌++◌}
use Prim.Native.Char.{code}
use Prim.Native.String.{String}
use ross_os.Base.Tests.{ltb, leb, ◌==◌, if◌then◌else◌}

unfoldable pub same_bytes : List ℕ → List ℕ → Bool
same_bytes [] [] = true
same_bytes [] (y ∷ ys) = false
same_bytes (x ∷ xs) [] = false
same_bytes (x ∷ xs) (y ∷ ys) = (x == y) && same_bytes xs ys

-- `String::push(b as char)`: the UTF-8 text of the character with the number of the byte.
unfoldable pub push_char : ℕ → List ℕ
push_char b = if ltb b 128 then b ∷ [] else (0xC0 + b / 64) ∷ (0x80 + b % 64) ∷ []

abbrev pub to_ascii_lowercase : ℕ → ℕ
to_ascii_lowercase b = if leb b'A' b && leb b b'Z' then b + 32 else b

abbrev pub to_ascii_uppercase : ℕ → ℕ
to_ascii_uppercase b = if leb b'a' b && leb b b'z' then b - 32 else b

unfoldable pub eq_ignore_ascii_case : List ℕ → List ℕ → Bool
eq_ignore_ascii_case [] [] = true
eq_ignore_ascii_case [] (y ∷ ys) = false
eq_ignore_ascii_case (x ∷ xs) [] = false
eq_ignore_ascii_case (x ∷ xs) (y ∷ ys) =
    (to_ascii_lowercase x == to_ascii_lowercase y) && eq_ignore_ascii_case xs ys

-- The bytes of an ASCII text.
abbrev pub codes : String → List ℕ
codes String.[] = []
codes (String.◌∷◌ c s) = code c ∷ codes s

-- `is_whitespace` on ASCII.
abbrev pub is_whitespace : ℕ → Bool
is_whitespace b = (leb 9 b && leb b 13) || (b == b' ')

-- Puts `b` in front of the first word when there is one under way.
abbrev pub join_word : Bool → ℕ → List (List ℕ) → List (List ℕ)
join_word false b words = (b ∷ []) ∷ words
join_word true b [] = (b ∷ []) ∷ []
join_word true b (word ∷ words) = (b ∷ word) ∷ words

abbrev pub starts_word : List ℕ → Bool
starts_word [] = false
starts_word (b ∷ bs) = not (is_whitespace b)

-- `split_whitespace`.
unfoldable pub split_whitespace : List ℕ → List (List ℕ)
split_whitespace [] = []
split_whitespace (b ∷ bs) =
    let words = split_whitespace bs in
    if is_whitespace b then words else join_word (starts_word bs) b words

-- `join(" ")`.
unfoldable pub join_words : List (List ℕ) → List ℕ
join_words [] = []
join_words (word ∷ []) = word
join_words (word ∷ next ∷ words) = word ++ (b' ' ∷ join_words (next ∷ words))

-- `trim`.
unfoldable pub trim_start : List ℕ → List ℕ
trim_start [] = []
trim_start (b ∷ bs) = let rest = trim_start bs in if is_whitespace b then rest else b ∷ bs

abbrev pub or_whitespace : ℕ → List ℕ → List ℕ
or_whitespace b [] = if is_whitespace b then [] else b ∷ []
or_whitespace b (c ∷ cs) = b ∷ c ∷ cs

unfoldable pub trim_end : List ℕ → List ℕ
trim_end [] = []
trim_end (b ∷ bs) = or_whitespace b (trim_end bs)

unfoldable pub trim : List ℕ → List ℕ
unfolding trim_start trim_end
trim text = trim_end (trim_start text)
