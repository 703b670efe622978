-- ===== src/Kbuf/Refine.antt =====
-- A valid ring behaves as a queue of at most 255 bytes that drops what does not fit.
use ross_os.Base.{
  ℕ, ◌-◌, ◌<◌, ◌≡◌, ◌≢◌, refl, List, [], ◌∷◌, ◌++◌, Option, none, some, arith, length, ltb, set,
  if◌then◌else◌, length-set, get_elem?_in, get_or-set_self,
}
use ross_os.Kbuf.{Ring, push, pop, advance}
use ross_os.Kbuf.Window.{
  window, distance, count, contents, IsValid, length-window, window-set, window_last, window_pos,
}

-- The queue that the ring stands for.
pub offer : List ℕ → ℕ → List ℕ
offer q byte = if ltb (length q) 255 then q ++ (byte ∷ []) else q

pub poll : List ℕ → Option ℕ × List ℕ
poll [] = (none, [])
poll (byte ∷ q) = (some byte, q)

pub push-IsValid : (r : Ring) (byte : ℕ) → IsValid r → IsValid (push r byte)
unfolding push
push-IsValid r byte v = ground (arith, length-set r.buffer r.head byte)

pub pop-IsValid : (r : Ring) → IsValid r → IsValid (pop r).1
unfolding pop
pop-IsValid r v = ground arith

-- A stored byte comes last in the window that ends behind it.
pub stored_last :
    (r : Ring) (byte : ℕ)
    → IsValid r
    → count r < 255
    → window (set r.buffer r.head byte) r.tail (distance r.tail (advance r.head))
      ≡ contents r ++ (byte ∷ [])
stored_last r byte v h = ground (
  arith,
  window_last (set r.buffer r.head byte) r.tail (count r) r.head,
  window-set r.buffer r.tail (count r) r.head byte,
  get_or-set_self r.buffer r.head byte 0,
  grows,
)
  where
    grows : distance r.tail (advance r.head) ≡ ℕ.suc (count r)
    grows = omega (arith, v.head_in, v.tail_in)

pub contents-push :
    (r : Ring) (byte : ℕ) → IsValid r → contents (push r byte) ≡ offer (contents r) byte
unfolding push offer
contents-push r byte v =
    ground (arith, stored_last r byte v, length-window r.buffer r.tail (count r))

pub contents-pop :
    (r : Ring) → IsValid r → let (byte, r') = pop r in (byte, contents r') ≡ poll (contents r)
unfolding pop poll
contents-pop r v =
    ground
      (arith, window_pos r.buffer r.tail (count r), get_elem?_in r.buffer r.tail 0, empty, rest)
  where
    empty : r.tail ≡ r.head → count r ≡ 0
    empty e = omega (arith, v.head_in, v.tail_in)

    rest : r.tail ≢ r.head → (0 < count r) × (distance (advance r.tail) r.head ≡ count r - 1)
    rest ne = omega (arith, v.head_in, v.tail_in)

pub data Op : Type 0 where
  store : ℕ → Op
  fetch : Op

-- What a client sees of a sequence of calls: the answer of each `pop`.
unfoldable pub run : Ring → List Op → List (Option ℕ)
run r [] = []
run r (store byte ∷ ops) = run (push r byte) ops
run r (fetch ∷ ops) = let (byte, r') = pop r in byte ∷ run r' ops

unfoldable pub run_queue : List ℕ → List Op → List (Option ℕ)
run_queue q [] = []
run_queue q (store byte ∷ ops) = run_queue (offer q byte) ops
run_queue q (fetch ∷ ops) = let (byte, q') = poll q in byte ∷ run_queue q' ops

-- From a valid ring, every sequence of `push` and `pop` gives the answers of a first-in first-out
-- queue that starts with the ring's contents and drops a byte offered when it holds 255.
pub run_refines : (ops : List Op) (r : Ring) → IsValid r → run r ops ≡ run_queue (contents r) ops
unfolding run run_queue
run_refines [] r v = refl
run_refines (store byte ∷ ops) r v =
    rw (run_refines ops (push r byte) (push-IsValid r byte v), contents-push r byte v)
run_refines (fetch ∷ ops) r v = rw (run_refines ops (pop r).1 (pop-IsValid r v), ← contents-pop r v)
