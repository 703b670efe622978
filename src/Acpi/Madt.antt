-- ===== src/Acpi/Madt.antt =====
-- The processors that `parse_madt` finds are those of the structures that the table was made of.
use ross_os.Base.{
  ℕ, zero, suc, ◌+◌, ◌%◌, ◌≤◌, ◌<◌, ◌≡◌, refl, ap, ap₂, sym, ◌∙◌, List, [], ◌∷◌, ◌++◌, Bool, true,
  false, ◌&&◌, ◌==◌, ltb, leb, if◌then◌else◌, length, length-append, get_or, arith, Bool-cases, inl,
  inr,
}
use ross_os.Base.Bytes.{load_bytes, from_le}
use ross_os.Acpi.{number_at, madt_size, table_length, apic_id_at, structures, parse_madt}

-- A structure by its type and the bytes behind its type and its length.
pub record Structure : Type 0 where
  pub ic_type : ℕ
  pub body : List ℕ

abbrev pub structure_bytes : Structure → List ℕ
structure_bytes ic = ic.ic_type ∷ (2 + length ic.body) ∷ ic.body

unfoldable pub table_bytes : List Structure → List ℕ
table_bytes [] = []
table_bytes (ic ∷ ics) = structure_bytes ic ++ table_bytes ics

-- The id of an enabled processor: a structure of type 0 with at least 6 bytes, the second of which is
-- the id, and the third of which is odd.
abbrev pub processor : Structure → List ℕ
processor ic =
    if (ic.ic_type == 0) && leb 6 (length ic.body)
    then if get_or ic.body 2 0 % 2 == 0 then [] else get_or ic.body 1 0 ∷ []
    else []

unfoldable pub processors : List Structure → List ℕ
processors [] = []
processors (ic ∷ ics) = processor ic ++ processors ics

-- The bytes lie in memory from an address on.
abbrev pub LiesAt : (ℕ → ℕ) → (addr : ℕ) → List ℕ → Type 0
LiesAt m addr bytes = (i : ℕ) → i < length bytes → m (addr + i) ≡ get_or bytes i 0

get_or-append_left :
    (xs ys : List ℕ) (i : ℕ) → i < length xs → get_or (xs ++ ys) i 0 ≡ get_or xs i 0
get_or-append_left [] ys i h = absurd (omega (arith, h))
get_or-append_left (x ∷ xs) ys zero h = refl
get_or-append_left (x ∷ xs) ys (suc i) h = get_or-append_left xs ys i (omega (arith, h))

pub get_or-append_right :
    (xs ys : List ℕ) (i : ℕ) → get_or (xs ++ ys) (length xs + i) 0 ≡ get_or ys i 0
get_or-append_right [] ys i = ap (λ k. get_or ys k 0) (omega arith)
get_or-append_right (x ∷ xs) ys i =
    ap (λ k. get_or (x ∷ xs ++ ys) k 0) {y = suc (length xs + i)} (omega arith)
    ∙ get_or-append_right xs ys i

never : (b : Bool) (xs : List ℕ) → (if b && false then xs else []) ≡ []
never true xs = refl
never false xs = refl

lt_false : (a b : ℕ) → b ≤ a → ltb a b ≡ false
lt_false a b h = ground arith

module _ (m : ℕ → ℕ) where
  left : (addr : ℕ) (xs ys : List ℕ) → LiesAt m addr (xs ++ ys) → LiesAt m addr xs
  left addr xs ys h i lt =
      h i (omega (arith, lt, length-append xs ys)) ∙ get_or-append_left xs ys i lt

  right : (addr : ℕ) (xs ys : List ℕ) → LiesAt m addr (xs ++ ys) → LiesAt m (addr + length xs) ys
  right addr xs ys h i lt =
      ap m {y = addr + (length xs + i)} (omega arith)
      ∙ h (length xs + i) (omega (arith, lt, length-append xs ys))
      ∙ get_or-append_right xs ys i

  apic_id_at-processor :
      (p : ℕ) (ic : Structure)
      → LiesAt m p (structure_bytes ic)
      → apic_id_at m p (2 + length ic.body) ≡ processor ic
  unfolding load_bytes from_le
  apic_id_at-processor p ic h = elim (Bool-cases (leb 6 (length ic.body))) [
    | inl six ↦
        let room : 6 ≤ length ic.body = ground arith in
        let eight : leb 8 (2 + length ic.body) ≡ true = ground arith in
        let flags : m (p + 4) ≡ get_or ic.body 2 0 = h 4 (omega (arith, room)) in
        let id : m (p + 3) ≡ get_or ic.body 1 0 = h 3 (omega (arith, room)) in
        rw (six, eight)
          (ap₂ (λ t f. if (t == 0) && true then if f == 0 then [] else m (p + 3) ∷ [] else []) kind
              (omega (arith, flags))
            ∙ ap
                (λ x.
                  if (ic.ic_type == 0) && true
                  then if get_or ic.body 2 0 % 2 == 0 then [] else x ∷ []
                  else [])
                id)
    | inr short ↦
        let less : length ic.body < 6 = ground arith in
        let seven : leb 8 (2 + length ic.body) ≡ false = ground arith in
        rw (short, seven) (never (m p == 0) _ ∙ sym (never (ic.ic_type == 0) _))
  ]
    where
      kind : m p ≡ ic.ic_type
      kind = ap m {y = p + 0} (omega arith) ∙ h 0 (omega arith)

  structures-processors :
      (turns madt off total : ℕ) (ics : List Structure)
      → LiesAt m (madt + off) (table_bytes ics)
      → total ≡ off + length (table_bytes ics)
      → length (table_bytes ics) ≤ turns
      → structures m turns madt off total ≡ processors ics
  unfolding structures table_bytes processors
  structures-processors zero madt off total [] h e enough = refl
  structures-processors zero madt off total (ic ∷ ics) h e enough = absurd (omega (arith, enough))
  structures-processors (suc turns) madt off total [] h e enough =
      let over : ltb total (off + 2) ≡ true = ground arith in rw over refl
  structures-processors (suc turns) madt off total (ic ∷ ics) h e enough =
      let size : m (madt + off + 1) ≡ 2 + length ic.body = h 1 (omega arith) in
      let whole : length (table_bytes (ic ∷ ics)) ≡ 2 + length ic.body + length (table_bytes ics) =
        omega (arith, length-append (structure_bytes ic) (table_bytes ics)) in
      let inside : ltb total (off + 2) ≡ false =
        lt_false total (off + 2) (omega (arith, e, whole)) in
      let long : ltb (2 + length ic.body) 2 ≡ false =
        lt_false (2 + length ic.body) 2 (omega arith) in
      rw (inside, size, long)
        (ap₂ (λ xs ys. xs ++ ys)
          (apic_id_at-processor (madt + off) ic
            (left (madt + off) (structure_bytes ic) (table_bytes ics) h))
          (structures-processors turns madt (off + (2 + length ic.body)) total ics
            (λ i lt.
              ap m (omega arith) ∙ right (madt + off) (structure_bytes ic) (table_bytes ics) h i lt)
            (omega (arith, e, whole)) (omega (arith, enough, whole))))

  -- If a table lies at `madt` that holds the address of the local APICs, its own length, and
  -- the bytes of any sequence of structures, then `parse_madt` gives that address and the ids
  -- of the enabled processors among the structures, in order.
  pub parse_madt-table_bytes :
      (madt lapic : ℕ) (ics : List Structure)
      → number_at m (madt + 36) 4 ≡ lapic
      → table_length m madt ≡ madt_size + length (table_bytes ics)
      → LiesAt m (madt + madt_size) (table_bytes ics)
      → parse_madt m madt ≡ (lapic, processors ics)
  unfolding parse_madt
  parse_madt-table_bytes madt lapic ics at sized lies =
      ap₂ (λ a b. (a, b)) at
        (structures-processors (table_length m madt) madt madt_size (table_length m madt) ics lies
          sized (omega (arith, sized)))
