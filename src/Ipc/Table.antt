-- ===== src/Ipc/Table.antt =====
-- The pipe table: its bounds, and which pipe each call touches.
use ross_os.Base.{
  ℕ, zero, suc, ◌+◌, ◌≤◌, ◌<◌, ◌≡◌, ◌≢◌, refl, sym, List, [], ◌∷◌, ◌++◌, Option, none, some, false,
  min, arith, length, get_elem?, set, take, leb, length-set, length-append, length-take,
  length-drop, slot_at, find_free, FirstFree, Found, find_free-Found, inl, inr, Bool-cases,
  slot_at-set_self, slot_at-set_ne, slot_at_free, slot_at_busy, slot_at-append_ne, slot_at_out,
  slot_at-append_last,
}
use ross_os.Ipc.{
  Pipe, PipeTable, fresh_pipe, create_at, create, accepted, write_to, write, read_from, read, close,
  max_pipe_bytes, max_pipes,
}

abbrev pub Slot : Option Pipe → Type 0
Slot none = Unit {0}
Slot (some p) = (length p.buffer ≤ max_pipe_bytes) × (p.closed ≡ false)

abbrev pub Slots : PipeTable → Type 0
Slots [] = Unit {0}
Slots (s ∷ t) = Slot s × Slots t

-- Every pipe holds at most 4096 bytes and is not marked closed, and there are at most 64 slots.
pub record IsValid (t : PipeTable) : Type 0 where
  pub slots : Slots t
  pub bounded : length t ≤ max_pipes

Slots-set : (t : PipeTable) (i : ℕ) (s : Option Pipe) → Slots t → Slot s → Slots (set t i s)
Slots-set [] i s h k = tt
Slots-set (x ∷ t) zero s h k = (k, h.1)
Slots-set (x ∷ t) (suc i) s h k = (h.0, Slots-set t i s h.1 k)

Slots-append : (t : PipeTable) (s : Option Pipe) → Slots t → Slot s → Slots (t ++ (s ∷ []))
Slots-append [] s h k = (k, tt)
Slots-append (x ∷ t) s h k = (h.0, Slots-append t s h.1 k)

pub slot_at-Slot : (t : PipeTable) (i : ℕ) → Slots t → Slot (slot_at t i)
slot_at-Slot [] i h = tt
slot_at-Slot (x ∷ t) zero h = h.0
slot_at-Slot (x ∷ t) (suc i) h = slot_at-Slot t i h.1

-- What a call of `create` may answer.
pub record Created (t : PipeTable) (id : ℕ) (t' : PipeTable) : Type 0 where
  pub id_in : id < max_pipes
  pub unused : slot_at t id ≡ none
  pub lowest : (j : ℕ) → j < id → slot_at t j ≢ none
  pub opened : slot_at t' id ≡ some fresh_pipe
  pub others : (j : ℕ) → j ≢ id → slot_at t' j ≡ slot_at t j

abbrev pub Creates : PipeTable → Option ℕ × PipeTable → Type 0
Creates t (some id, t') = Created t id t'
Creates t (none, t') = (t' ≡ t) × ((j : ℕ) → j < max_pipes → slot_at t j ≢ none)

create_reuses :
    (t : PipeTable) (k : ℕ)
    → length t ≤ max_pipes
    → FirstFree t 0 (length t) k
    → Created t k (set t k (some fresh_pipe))
create_reuses t k b f = record {
  id_in = omega (arith, f.inside);
  unused = slot_at_free t k f.is_free;
  lowest = λ j h. slot_at_busy t j (omega (arith, f.inside)) (f.taken j (omega arith) h);
  opened = slot_at-set_self t k _ (omega (arith, f.inside));
  others = λ j h. slot_at-set_ne t k j _ (λ e. h (sym e));
}

create_grows :
    (t : PipeTable)
    → length t < max_pipes
    → ((j : ℕ) → 0 ≤ j → j < 0 + length t → get_elem? t j ≢ some none)
    → Created t (length t) (t ++ (some fresh_pipe ∷ []))
create_grows t b full = record {
  id_in = b;
  unused = slot_at_out t (length t) (omega arith);
  lowest = λ j h. slot_at_busy t j h (full j (omega arith) (omega arith));
  opened = slot_at-append_last t _;
  others = λ j h. slot_at-append_ne t _ j h;
}

create_at-Creates :
    (t : PipeTable) (r : Option ℕ)
    → length t ≤ max_pipes
    → Found t 0 (length t) r
    → Creates t (create_at t r)
unfolding create_at
create_at-Creates t (some k) b f = create_reuses t k b f
create_at-Creates t none b f = elim (Bool-cases (leb max_pipes (length t))) [
  | inl e ↦ rw e (refl, λ j h. slot_at_busy t j (ground arith) (f j (omega arith) (ground arith)))
  | inr e ↦ rw e (create_grows t (ground arith) f)
]

-- On a table of at most 64 slots, `create` gives the lowest id without a pipe, which then holds an
-- empty pipe while every other id keeps its own; it fails, changing nothing, only when all of the
-- ids below 64 have pipes.
pub create-Creates : (t : PipeTable) → length t ≤ max_pipes → Creates t (create t)
unfolding create
create-Creates t b =
    create_at-Creates t (find_free (length t) 0 t) b (find_free-Found (length t) 0 t)

set-IsValid : (t : PipeTable) (i : ℕ) (s : Option Pipe) → IsValid t → Slot s → IsValid (set t i s)
set-IsValid t i s v k = record {
  slots = Slots-set t i s v.slots k;
  bounded = omega (arith, v.bounded, length-set t i s);
}

create_at-IsValid : (t : PipeTable) (r : Option ℕ) → IsValid t → IsValid (create_at t r).1
unfolding create_at
create_at-IsValid t (some i) v = set-IsValid t i _ v (omega arith, refl)
create_at-IsValid t none v = elim (Bool-cases (leb max_pipes (length t))) [
  | inl e ↦ rw e v
  | inr e ↦ rw e (record {
    slots = Slots-append t _ v.slots (omega arith, refl);
    bounded = ground (arith, length-append t (some fresh_pipe ∷ []));
  })
]

write_to-IsValid :
    (t : PipeTable) (id : ℕ) (bytes : List ℕ) (s : Option Pipe)
    → IsValid t
    → Slot s
    → IsValid (write_to t id bytes s).1
unfolding write_to
write_to-IsValid t id bytes none v k = v
write_to-IsValid t id bytes (some p) v k = rw (k.1) (
    set-IsValid t id _ v (
      omega (
        arith,
        length-append p.buffer (take (accepted p bytes) bytes),
        length-take (accepted p bytes) bytes,
        k.0,
      ),
      refl,
    ))

read_from-IsValid :
    (t : PipeTable) (id len : ℕ) (s : Option Pipe)
    → IsValid t
    → Slot s
    → IsValid (read_from t id len s).1
unfolding read_from
read_from-IsValid t id len none v k = v
read_from-IsValid t id len (some p) v k =
    set-IsValid t id _ v (omega (arith, length-drop (min len (length p.buffer)) p.buffer, k.0), k.1)

-- The calls of the pipe module, by any task.
pub data Call : Type 0 where
  creates : Call
  writes : ℕ → List ℕ → Call
  reads : ℕ → ℕ → Call
  closes : ℕ → Call

unfoldable pub after : PipeTable → Call → PipeTable
after t creates = (create t).1
after t (writes id bytes) = (write t id bytes).1
after t (reads id len) = (read t id len).1
after t (closes id) = close t id

-- Every call keeps the table within 64 slots, every pipe within 4096 bytes, and no pipe marked
-- closed.
pub after-IsValid : (t : PipeTable) (c : Call) → IsValid t → IsValid (after t c)
unfolding after create write read close
after-IsValid t creates v = create_at-IsValid t _ v
after-IsValid t (writes id bytes) v = write_to-IsValid t id bytes _ v (slot_at-Slot t id v.slots)
after-IsValid t (reads id len) v = read_from-IsValid t id len _ v (slot_at-Slot t id v.slots)
after-IsValid t (closes id) v = set-IsValid t id none v tt
