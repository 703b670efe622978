-- ===== src/Tests/Acpi.antt =====
-- A table of two processors, one of them disabled.
use ross_os.Base.{ℕ, ◌≡◌, refl, List, [], ◌∷◌, get_or, replicate, ◌++◌}
use ross_os.Base.Bytes.{load_bytes, from_le}
use ross_os.Acpi.{parse_madt}
use ross_os.Acpi.Madt.{
  Structure, table_bytes, processors, parse_madt-table_bytes, get_or-append_right,
}

abbrev two : List Structure
two =
    record { ic_type = 0; body = 0 ∷ 7 ∷ 1 ∷ 0 ∷ 0 ∷ 0 ∷ [] }
    ∷ record { ic_type = 0; body = 1 ∷ 8 ∷ 0 ∷ 0 ∷ 0 ∷ 0 ∷ [] }
    ∷ []

-- The header: the length of 60 bytes is in byte 4.
abbrev header : List ℕ
header = replicate 4 0 ++ (60 ∷ replicate 39 0)

abbrev memory : ℕ → ℕ
unfolding table_bytes
memory a = get_or (header ++ table_bytes two) a 0

parse_madt-table_bytes_example : parse_madt memory 0 ≡ (0, processors two)
unfolding load_bytes from_le table_bytes
parse_madt-table_bytes_example =
    parse_madt-table_bytes memory 0 0 two refl refl
      (λ i h. get_or-append_right header (table_bytes two) i)

finds_one : processors two ≡ 7 ∷ []
unfolding processors
finds_one = refl
