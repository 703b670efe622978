-- ===== src/Tests/Ipc.antt =====
-- The pipes at concrete inputs.
use ross_os.Base.{◌≡◌, refl, List, [], ◌∷◌, none, some, false, arith, find_free}
use ross_os.Ipc.{PipeTable, fresh_pipe, create, read}
use ross_os.Ipc.Table.{
  IsValid, Creates, Call, creates, writes, reads, closes, after, create-Creates, after-IsValid,
}
use ross_os.Ipc.Stream.{Holds, Stream, run-Stream}

-- Pipe 0 holds two bytes and slot 1 is free.
abbrev sample : PipeTable
sample = some (record { buffer = 1 ∷ 2 ∷ []; closed = false }) ∷ none ∷ some fresh_pipe ∷ []

sample-IsValid : IsValid sample
sample-IsValid = record {
  slots = ((omega arith, refl), (tt, ((omega arith, refl), tt)));
  bounded = omega arith;
}

sample-Holds : Holds sample 0 (1 ∷ 2 ∷ [])
sample-Holds = record {
  pipe = record { buffer = 1 ∷ 2 ∷ []; closed = false };
  there = refl;
  filled = refl;
  opened = refl;
}

create-Creates_example : Creates sample (create sample)
create-Creates_example = create-Creates sample (omega arith)

after-IsValid_example : IsValid (after sample (writes 2 (5 ∷ 6 ∷ [])))
after-IsValid_example = after-IsValid sample (writes 2 (5 ∷ 6 ∷ [])) sample-IsValid

abbrev calls : List Call
calls = writes 0 (3 ∷ []) ∷ creates ∷ reads 0 2 ∷ writes 2 (7 ∷ []) ∷ closes 2 ∷ reads 0 9 ∷ []

run-Stream_example : Stream sample 0 (1 ∷ 2 ∷ []) calls
run-Stream_example =
    run-Stream calls sample 0 (1 ∷ 2 ∷ []) sample-IsValid
      (tt, (tt, (tt, (tt, ((λ e. absurd (omega arith)), (tt, tt)))))) sample-Holds

create_reuses_slot : (create sample).0 ≡ some 1
unfolding create find_free
create_reuses_slot = refl

read_two : (read sample 0 5).0 ≡ some (1 ∷ 2 ∷ [])
unfolding read
read_two = refl
