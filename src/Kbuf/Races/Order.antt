-- ===== src/Kbuf/Races/Order.antt =====
-- What the two sides together promise.
use ross_os.Base.{ℕ, ◌≤◌, ◌≡◌, ◌≢◌, List, [], ◌∷◌, ◌++◌, arith, length, ◌∙◌, subst}
use ross_os.Kbuf.{push, pop}
use ross_os.Kbuf.Window.{count, contents, IsValid, length-window}
use ross_os.Kbuf.Races.{
  Producer, Consumer, System, Event, interrupt, produce, consume, begin, produce_step, consume_step,
  step, run, boot, ProducerOk, Inv,
}
use ross_os.Kbuf.Races.Keep.{boot-Inv, begin-Inv, produce_step-Inv, consume_step-Inv}

step-Inv : (s : System) (e : Event) → Inv s → Inv (step s e)
unfolding step
step-Inv s (interrupt byte) v = begin-Inv s byte s.producer v
step-Inv s produce v = produce_step-Inv s s.producer v.producer_ok v
step-Inv s consume v = consume_step-Inv s s.consumer v.consumer_ok v

run-Inv : (s : System) (es : List Event) → Inv s → Inv (run s es)
unfolding run
run-Inv s [] v = v
run-Inv s (e ∷ es) v = run-Inv (step s e) es (step-Inv s e v)

-- From boot, whatever the order in which the atomic accesses of the interrupt handler and of the
-- main loop interleave: the bytes accepted so far are those delivered followed by those still in
-- the ring, in order, and the ring holds at most 255.
pub interleaved_fifo :
    (es : List Event)
    → let s = run boot es in
      (s.accepted ≡ s.delivered ++ contents s.ring) × (length (contents s.ring) ≤ 255)
interleaved_fifo es =
    (v.history, omega (arith, length-window s.ring.buffer s.ring.tail (count s.ring)))
  where
    s : System
    s = run boot es

    v : Inv s
    v = run-Inv boot es boot-Inv

gives_up_full :
    (s : System) (byte head : ℕ)
    → IsValid s.ring
    → head ≡ s.ring.head
    → (produce_step s (Producer.loaded byte head)).producer ≡ Producer.idle
    → count s.ring ≡ 255
unfolding produce_step
gives_up_full s byte head v e dropped = ground arith

-- After any interleaving from boot, a `push` that has read `HEAD` and gives its byte up on its
-- next access finds exactly 255 bytes in the ring at that access.
pub drop_when_full :
    (es : List Event) (byte head : ℕ)
    → let s = run boot es in
      s.producer ≡ Producer.loaded byte head
      → (step s produce).producer ≡ Producer.idle
      → length (contents s.ring) ≡ 255
unfolding step
drop_when_full es byte head loading dropped =
    length-window s.ring.buffer s.ring.tail (count s.ring)
    ∙ gives_up_full s byte head v.valid (subst (ProducerOk s.ring) loading v.producer_ok)
        (subst (λ p. (produce_step s p).producer ≡ Producer.idle) loading dropped)
  where
    s : System
    s = run boot es

    v : Inv s
    v = run-Inv boot es boot-Inv

-- Undisturbed, the four accesses of a `push` together do what the function `push` does.
pub push_steps :
    (s : System) (byte : ℕ)
    → s.producer ≡ Producer.idle
    → (run s (interrupt byte ∷ produce ∷ produce ∷ produce ∷ [])).ring ≡ push s.ring byte
unfolding run step begin produce_step push
push_steps s byte e = ground arith

-- Undisturbed, the accesses of a `pop` together do what the function `pop` does: from an empty ring
-- two of them, and from any other four, after which the byte has been delivered.
pub pop_steps :
    (s : System)
    → s.consumer ≡ Consumer.idle
    → ((s.ring.tail ≡ s.ring.head)
        → run s (consume ∷ consume ∷ []) ≡ record s { consumer = Consumer.idle })
      × ((s.ring.tail ≢ s.ring.head)
          → (run s (consume ∷ consume ∷ consume ∷ consume ∷ [])).ring ≡ (pop s.ring).1)
unfolding run step consume_step pop
pop_steps s e = (λ h. ground arith, λ h. ground arith)
