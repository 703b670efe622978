-- ===== src/Ipc/Retain.antt =====
-- Which ids keep a pipe while pipes are created, written and read.
use ross_os.Base.{
  ℕ, ◌≤◌, ◌<◌, ◌≢◌, ap, sym, ◌∙◌, subst, List, Option, none, some, arith, length, set, slot_at,
  slot_at-set_self, slot_at-set_ne, slot_at_out, ltb, Bool-cases, inl, inr,
}
use native.Mathlib.Decide.{ℕ_discrete}
use ross_os.Ipc.{Pipe, PipeTable, max_pipes, create, write_to, write, read_from, read}
use ross_os.Ipc.Table.{Creates, create-Creates}

-- Every id with a pipe in `t` has one in `t'`.
pub record Retains (t t' : PipeTable) : Type 0 where
  pub still : (j : ℕ) → slot_at t j ≢ none → slot_at t' j ≢ none

pub Retains-refl : (t : PipeTable) → Retains t t
Retains-refl t = record { still = λ j h. h }

in_range : (t : PipeTable) (j : ℕ) → slot_at t j ≢ none → j < length t
in_range t j h = elim (Bool-cases (ltb j (length t))) [
  | inl b ↦ ground arith
  | inr b ↦ absurd (h (slot_at_out t j (ground arith)))
]

set-Retains : (t : PipeTable) (i : ℕ) (p : Pipe) → Retains t (set t i (some p))
set-Retains t i p = record {
  still = λ j h. elim (ℕ_discrete i j) [
    | yes e ↦ λ q. cc (q, slot_at-set_self t j (some p) (in_range t j h), e)
    | no ne ↦ λ q. h (sym (slot_at-set_ne t i j (some p) ne) ∙ q)
  ];
}

Creates-Retains : (t : PipeTable) (r : Option ℕ × PipeTable) → Creates t r → Retains t r.1
Creates-Retains t (none, t') c = subst (Retains t) (sym c.0) (Retains-refl t)
Creates-Retains t (some id, t') c = record {
  still = λ j h. elim (ℕ_discrete j id) [
    | yes e ↦ absurd (h (ap (slot_at t) e ∙ c.unused))
    | no ne ↦ λ q. h (sym (c.others j ne) ∙ q)
  ];
}

pub create-Retains : (t : PipeTable) → length t ≤ max_pipes → Retains t (create t).1
create-Retains t b = Creates-Retains t (create t) (create-Creates t b)

write_to-Retains :
    (t : PipeTable) (id : ℕ) (bytes : List ℕ) (s : Option Pipe)
    → Retains t (write_to t id bytes s).1
unfolding write_to
write_to-Retains t id bytes none = Retains-refl t
write_to-Retains t id bytes (some p) = elim (Bool-cases p.closed) [
  | inl e ↦ rw e (Retains-refl t)
  | inr e ↦ rw e (set-Retains t id _)
]

pub write-Retains : (t : PipeTable) (id : ℕ) (bytes : List ℕ) → Retains t (write t id bytes).1
unfolding write
write-Retains t id bytes = write_to-Retains t id bytes (slot_at t id)

read_from-Retains :
    (t : PipeTable) (id len : ℕ) (s : Option Pipe) → Retains t (read_from t id len s).1
unfolding read_from
read_from-Retains t id len none = Retains-refl t
read_from-Retains t id len (some p) = set-Retains t id _

pub read-Retains : (t : PipeTable) (id len : ℕ) → Retains t (read t id len).1
unfolding read
read-Retains t id len = read_from-Retains t id len (slot_at t id)
