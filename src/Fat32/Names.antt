-- ===== src/Fat32/Names.antt =====
-- ross-kernel/src/fat32.rs: 8.3 names, and the other fields of a directory entry.
use ross_os.Base.{
  ℕ, ◌+◌, ◌-◌, ◌*◌, ◌^◌, List, [], ◌∷◌, ◌++◌, Option, none, some, Bool, ◌||◌, ◌==◌, ltb,
  if◌then◌else◌, length, take, drop, replicate, map,
}
use ross_os.Base.Bytes.{from_le}
use ross_os.Base.Text.{push_char, to_ascii_lowercase, to_ascii_uppercase, eq_ignore_ascii_case}
use ross_os.Fat32.{le_at}

abbrev pub space : ℕ
space = b' '

abbrev pub dot : ℕ
dot = b'.'

abbrev pub or_space : ℕ → List ℕ → List ℕ
or_space b [] = if b == space then [] else b ∷ []
or_space b (c ∷ cs) = b ∷ c ∷ cs

-- Up to the last byte that is not a space (`rposition`).
unfoldable pub trim_spaces : List ℕ → List ℕ
trim_spaces [] = []
trim_spaces (b ∷ bs) = or_space b (trim_spaces bs)

-- Each byte in lower case, pushed as a character.
unfoldable pub lower_text : List ℕ → List ℕ
unfolding push_char
lower_text [] = []
lower_text (b ∷ bs) = push_char (to_ascii_lowercase b) ++ lower_text bs

abbrev pub dotted : List ℕ → List ℕ
dotted [] = []
dotted (b ∷ bs) = dot ∷ lower_text (b ∷ bs)

unfoldable pub decode_8_3 : List ℕ → List ℕ
unfolding trim_spaces lower_text
decode_8_3 entry =
    lower_text (trim_spaces (take 8 entry)) ++ dotted (trim_spaces (take 3 (drop 8 entry)))

unfoldable pub name_matches : List ℕ → List ℕ → Bool
unfolding decode_8_3 eq_ignore_ascii_case
name_matches entry target = eq_ignore_ascii_case (decode_8_3 entry) target

unfoldable pub first_cluster_of : List ℕ → ℕ
unfolding from_le
first_cluster_of entry = le_at 2 0x14 entry * 2 ^ 16 + le_at 2 0x1A entry

unfoldable pub entry_size : List ℕ → ℕ
unfolding from_le
entry_size entry = le_at 4 0x1C entry

-- The text before and behind the last dot (`rfind('.')`).
unfoldable pub split_dot : List ℕ → Option (List ℕ × List ℕ)
split_dot [] = none
split_dot (c ∷ cs) = elim (split_dot cs) [
  | some (base, ext) ↦ some (c ∷ base, ext)
  | none ↦ if c == dot then some ([], cs) else none
]

-- `bytes` over the front of `n` spaces.
abbrev pub padded : ℕ → List ℕ → List ℕ
padded n bytes = bytes ++ replicate (n - length bytes) space

unfoldable pub short_name : List ℕ × List ℕ → Option (List ℕ)
short_name (base, ext) =
    if (length base == 0) || ltb 8 (length base) || ltb 3 (length ext)
    then none
    else some (padded 8 (map to_ascii_uppercase base) ++ padded 3 (map to_ascii_uppercase ext))

unfoldable pub to_8_3 : List ℕ → Option (List ℕ)
unfolding split_dot short_name
to_8_3 name = elim (split_dot name) [ some parts ↦ short_name parts | none ↦ short_name (name, []) ]
