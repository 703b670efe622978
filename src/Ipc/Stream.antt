-- ===== src/Ipc/Stream.antt =====
-- A pipe as a byte stream, whatever other pipes do in between.
use mathlib.Core.List.{append-nil, append_assoc}
use ross_os.Base.{
  ℕ, ◌<◌, ◌≡◌, ◌≢◌, refl, ap, sym, ◌∙◌, List, [], ◌∷◌, ◌++◌, Option, none, some, false, min, length,
  set, take, drop, ◌==◌, if◌then◌else◌, slot_at, slot_at-set_self, slot_at-set_ne, slot_at-lt,
  Bool-cases, inl, inr, take-append-drop, ==_refl, ==_ne, subst,
}
use native.Mathlib.Decide.{ℕ_discrete}
use ross_os.Ipc.{Pipe, PipeTable, create, accepted, write_to, write, read_from, read, close}
use ross_os.Ipc.Table.{
  IsValid, Call, creates, writes, reads, closes, after, after-IsValid, create-Creates, Creates,
}

-- The bytes that a call puts into pipe `id`, and those that it takes out.
taken : List ℕ → Option ℕ → List ℕ
taken bytes none = []
taken bytes (some n) = take n bytes

given : Option (List ℕ) → List ℕ
given none = []
given (some bytes) = bytes

pub sent : ℕ → PipeTable → Call → List ℕ
unfolding taken
sent id t (writes j bytes) = if j == id then taken bytes (write t j bytes).0 else []
sent id t _ = []

pub received : ℕ → PipeTable → Call → List ℕ
unfolding given
received id t (reads j len) = if j == id then given (read t j len).0 else []
received id t _ = []

pub run : PipeTable → List Call → PipeTable
run t [] = t
run t (c ∷ cs) = run (after t c) cs

pub all_sent : ℕ → PipeTable → List Call → List ℕ
all_sent id t [] = []
all_sent id t (c ∷ cs) = sent id t c ++ all_sent id (after t c) cs

pub all_received : ℕ → PipeTable → List Call → List ℕ
all_received id t [] = []
all_received id t (c ∷ cs) = received id t c ++ all_received id (after t c) cs

abbrev pub Keeps : ℕ → Call → Type 0
Keeps id (closes j) = j ≢ id
Keeps id _ = Unit {0}

abbrev pub AllKeep : ℕ → List Call → Type 0
AllKeep id [] = Unit {0}
AllKeep id (c ∷ cs) = Keeps id c × AllKeep id cs

-- Pipe `id` is open with `bytes` in it.
pub record Holds (t : PipeTable) (id : ℕ) (bytes : List ℕ) : Type 0 where
  pub pipe : Pipe
  pub there : slot_at t id ≡ some pipe
  pub filled : pipe.buffer ≡ bytes
  pub opened : pipe.closed ≡ false

-- What a call does to the stream of pipe `id`, which holds `bytes` before it.
pub record Flows (id : ℕ) (t : PipeTable) (bytes : List ℕ) (c : Call) : Type 0 where
  pub rest : List ℕ
  pub holds : Holds (after t c) id rest
  pub balance : bytes ++ sent id t c ≡ received id t c ++ rest

Holds-Slot : (t : PipeTable) (id : ℕ) (bytes : List ℕ) → Holds t id bytes → id < length t
Holds-Slot t id bytes h = slot_at-lt t id h.pipe h.there

Holds-elsewhere :
    (t t' : PipeTable) (id : ℕ) (bytes : List ℕ)
    → slot_at t' id ≡ slot_at t id
    → Holds t id bytes
    → Holds t' id bytes
Holds-elsewhere t t' id bytes e h = record {
  pipe = h.pipe;
  there = e ∙ h.there;
  filled = h.filled;
  opened = h.opened;
}

pub create-keeps :
    (t : PipeTable) (id : ℕ) (r : Option ℕ × PipeTable) (p : Pipe)
    → slot_at t id ≡ some p
    → Creates t r
    → slot_at r.1 id ≡ slot_at t id
create-keeps t id (none, t') p e c = ap (λ u. slot_at u id) c.0
create-keeps t id (some k, t') p e c = c.others id (λ same. cc (c.unused, ap (slot_at t) same))

pub write_open :
    (t : PipeTable) (id : ℕ) (new : List ℕ) (p : Pipe)
    → slot_at t id ≡ some p
    → p.closed ≡ false
    → write t id new ≡ (
      some (accepted p new),
      set t id (some (record p { buffer = p.buffer ++ take (accepted p new) new })),
    )
unfolding write write_to
write_open t id new p e c = rw (e, write_to, c)

pub read_open :
    (t : PipeTable) (id len : ℕ) (p : Pipe)
    → slot_at t id ≡ some p
    → read t id len ≡ (
      some (take (min len (length p.buffer)) p.buffer),
      set t id (some (record p { buffer = drop (min len (length p.buffer)) p.buffer })),
    )
unfolding read read_from
read_open t id len p e = rw (e, read_from)

sent_here :
    (t : PipeTable) (id : ℕ) (new : List ℕ)
    → sent id t (writes id new) ≡ taken new (write t id new).0
unfolding sent
sent_here t id new = rw (==_refl id)

received_here :
    (t : PipeTable) (id len : ℕ) → received id t (reads id len) ≡ given (read t id len).0
unfolding received
received_here t id len = rw (==_refl id)

write-Flows_same :
    (t : PipeTable) (id : ℕ) (bytes new : List ℕ)
    → Holds t id bytes
    → Flows id t bytes (writes id new)
unfolding after taken received
write-Flows_same t id bytes new h = record {
  rest = h.pipe.buffer ++ take (accepted h.pipe new) new;
  holds = record {
    pipe = record (h.pipe) { buffer = h.pipe.buffer ++ take (accepted h.pipe new) new };
    there = ap (λ r. slot_at r.1 id) done ∙ slot_at-set_self t id _ (Holds-Slot t id bytes h);
    filled = refl;
    opened = h.opened;
  };
  balance =
      ap (λ s. bytes ++ s) (sent_here t id new ∙ ap (λ r. taken new r.0) done)
      ∙ ap (λ b. b ++ take (accepted h.pipe new) new) (sym h.filled);
}
  where
    done : write t id new ≡ (
      some (accepted h.pipe new),
      set t id
          (some (record (h.pipe) { buffer = h.pipe.buffer ++ take (accepted h.pipe new) new })),
    )
    done = write_open t id new h.pipe h.there h.opened

read-Flows_same :
    (t : PipeTable) (id len : ℕ) (bytes : List ℕ)
    → Holds t id bytes
    → Flows id t bytes (reads id len)
unfolding after given sent
read-Flows_same t id len bytes h = record {
  rest = drop n h.pipe.buffer;
  holds = record {
    pipe = record (h.pipe) { buffer = drop n h.pipe.buffer };
    there = ap (λ r. slot_at r.1 id) done ∙ slot_at-set_self t id _ (Holds-Slot t id bytes h);
    filled = refl;
    opened = h.opened;
  };
  balance =
      append-nil bytes
      ∙ sym h.filled
      ∙ sym (take-append-drop n h.pipe.buffer)
      ∙ ap (λ b. b ++ drop n h.pipe.buffer)
          (sym (received_here t id len ∙ ap (λ r. given r.0) done));
}
  where
    n : ℕ
    n = min len (length h.pipe.buffer)

    done : read t id len ≡ (
      some (take n h.pipe.buffer),
      set t id (some (record (h.pipe) { buffer = drop n h.pipe.buffer })),
    )
    done = read_open t id len h.pipe h.there

write_elsewhere :
    (t : PipeTable) (id j : ℕ) (new : List ℕ) (s : Option Pipe)
    → j ≢ id
    → slot_at (write_to t j new s).1 id ≡ slot_at t id
unfolding write_to
write_elsewhere t id j new none ne = refl
write_elsewhere t id j new (some p) ne = elim (Bool-cases p.closed) [
  | inl e ↦ rw e
  | inr e ↦ rw e (slot_at-set_ne t j id _ ne)
]

read_elsewhere :
    (t : PipeTable) (id j len : ℕ) (s : Option Pipe)
    → j ≢ id
    → slot_at (read_from t j len s).1 id ≡ slot_at t id
unfolding read_from
read_elsewhere t id j len none ne = refl
read_elsewhere t id j len (some p) ne = slot_at-set_ne t j id _ ne

-- A call that is not about pipe `id` leaves it as it was.
Flows-elsewhere :
    (t : PipeTable) (id : ℕ) (bytes : List ℕ) (c : Call)
    → slot_at (after t c) id ≡ slot_at t id
    → sent id t c ≡ []
    → received id t c ≡ []
    → Holds t id bytes
    → Flows id t bytes c
Flows-elsewhere t id bytes c e s r h = record {
  rest = bytes;
  holds = Holds-elsewhere t (after t c) id bytes e h;
  balance = ap (λ x. bytes ++ x) s ∙ append-nil bytes ∙ ap (λ x. x ++ bytes) (sym r);
}

call-Flows :
    (t : PipeTable) (id : ℕ) (bytes : List ℕ) (c : Call)
    → IsValid t
    → Keeps id c
    → Holds t id bytes
    → Flows id t bytes c
unfolding after sent received
call-Flows t id bytes creates v k h =
    Flows-elsewhere t id bytes creates
      (create-keeps t id (create t) h.pipe h.there (create-Creates t v.bounded)) refl refl h
call-Flows t id bytes (closes j) v k h =
    Flows-elsewhere t id bytes (closes j) (unfold close in slot_at-set_ne t j id none k) refl refl h
call-Flows t id bytes (writes j new) v k h = elim (ℕ_discrete j id) [
  | yes e ↦ subst (λ i. Flows id t bytes (writes i new)) (sym e) (write-Flows_same t id bytes new h)
  | no ne ↦
      Flows-elsewhere t id bytes (writes j new)
        (unfold write in write_elsewhere t id j new (slot_at t j) ne) (rw (==_ne j id ne)) refl h
]
call-Flows t id bytes (reads j len) v k h = elim (ℕ_discrete j id) [
  | yes e ↦ subst (λ i. Flows id t bytes (reads i len)) (sym e) (read-Flows_same t id len bytes h)
  | no ne ↦
      Flows-elsewhere t id bytes (reads j len)
        (unfold read in read_elsewhere t id j len (slot_at t j) ne) refl (rw (==_ne j id ne)) h
]

pub record Stream (t : PipeTable) (id : ℕ) (bytes : List ℕ) (cs : List Call) : Type 0 where
  pub rest : List ℕ
  pub holds : Holds (run t cs) id rest
  pub balance : bytes ++ all_sent id t cs ≡ all_received id t cs ++ rest

-- For an open pipe of a valid table and any calls on any pipes among which none closes this one:
-- afterwards the pipe is open, and what it held before followed by all that the writes to it took
-- is all that the reads from it gave followed by what it holds now, in the same order.
pub run-Stream :
    (cs : List Call) (t : PipeTable) (id : ℕ) (bytes : List ℕ)
    → IsValid t
    → AllKeep id cs
    → Holds t id bytes
    → Stream t id bytes cs
unfolding run all_sent all_received
run-Stream [] t id bytes v k h = record { rest = bytes; holds = h; balance = append-nil bytes }
run-Stream (c ∷ cs) t id bytes v k h =
    let f : Flows id t bytes c = call-Flows t id bytes c v k.0 h in
    let s : Stream (after t c) id f.rest cs =
      run-Stream cs (after t c) id f.rest (after-IsValid t c v) k.1 f.holds in
    record {
      rest = s.rest;
      holds = s.holds;
      balance =
          sym (append_assoc bytes (sent id t c) (all_sent id (after t c) cs))
          ∙ ap (λ x. x ++ all_sent id (after t c) cs) f.balance
          ∙ append_assoc (received id t c) f.rest (all_sent id (after t c) cs)
          ∙ ap (λ x. received id t c ++ x) s.balance
          ∙ sym (append_assoc (received id t c) (all_received id (after t c) cs) s.rest);
    }
