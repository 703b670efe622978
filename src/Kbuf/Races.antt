-- ===== src/Kbuf/Races.antt =====
-- The two sides of the ring at once: `push` and `pop` cut at their atomic accesses, run in any
-- order. The Acquire/Release pairs make a store to `BUFFER` visible before the index that covers
-- it, so that each access is one step of an interleaving.
pub mod Keep
pub mod Order
use ross_os.Base.{
  ℕ, ◌+◌, ◌-◌, ◌<◌, ◌≤◌, ◌≡◌, ◌≢◌, refl, ap, List, [], ◌∷◌, ◌++◌, arith, length, get_or, set, ◌==◌,
  if◌then◌else◌, ◌∙◌, sym, subst,
}
use mathlib.Core.List.{append_assoc}
use ross_os.Base.{length-set, get_or-set_self, get_or-set_ne}
use ross_os.Kbuf.{Ring, advance, initial, push}
use ross_os.Kbuf.Window.{
  window, distance, count, contents, IsValid, window-set, window_last, window_pos, length-window,
}

-- Where the interrupt handler stands in `push`, with the values it holds in registers.
pub data Producer : Type 0 where
  idle : Producer
  loaded : ℕ → ℕ → Producer
  checked : ℕ → ℕ → Producer
  written : ℕ → ℕ → Producer

-- Where the main loop stands in `pop`.
pub data Consumer : Type 0 where
  idle : Consumer
  loaded : ℕ → Consumer
  checked : ℕ → Consumer
  taken : ℕ → ℕ → Consumer

-- `accepted` and `delivered` record what `HEAD` and `TAIL` have passed, oldest first.
pub record System : Type 0 where
  pub ring : Ring
  pub producer : Producer
  pub consumer : Consumer
  pub accepted : List ℕ
  pub delivered : List ℕ

pub data Event : Type 0 where
  interrupt : ℕ → Event
  produce : Event
  consume : Event

-- An interrupt begins a `push` unless one is under way.
pub begin : System → ℕ → Producer → System
begin s byte Producer.idle = record s { producer = Producer.loaded byte s.ring.head }
begin s byte _ = s

pub produce_step : System → Producer → System
produce_step s Producer.idle = s
produce_step s (Producer.loaded byte head) =
    if advance head == s.ring.tail
    then record s { producer = Producer.idle }
    else record s { producer = Producer.checked byte head }
produce_step s (Producer.checked byte head) = record s {
  ring = record (s.ring) { buffer = set s.ring.buffer head byte };
  producer = Producer.written byte head;
}
produce_step s (Producer.written byte head) = record s {
  ring = record (s.ring) { head = advance head };
  producer = Producer.idle;
  accepted = s.accepted ++ (byte ∷ []);
}

pub consume_step : System → Consumer → System
consume_step s Consumer.idle = record s { consumer = Consumer.loaded s.ring.tail }
consume_step s (Consumer.loaded tail) =
    if tail == s.ring.head
    then record s { consumer = Consumer.idle }
    else record s { consumer = Consumer.checked tail }
consume_step s (Consumer.checked tail) = record s {
  consumer = Consumer.taken tail (get_or s.ring.buffer tail 0);
}
consume_step s (Consumer.taken tail byte) = record s {
  ring = record (s.ring) { tail = advance tail };
  consumer = Consumer.idle;
  delivered = s.delivered ++ (byte ∷ []);
}

unfoldable pub step : System → Event → System
unfolding begin produce_step consume_step
step s (interrupt byte) = begin s byte s.producer
step s produce = produce_step s s.producer
step s consume = consume_step s s.consumer

unfoldable pub run : System → List Event → System
run s [] = s
run s (e ∷ es) = run (step s e) es

unfoldable pub boot : System
boot = record {
  ring = initial;
  producer = Producer.idle;
  consumer = Consumer.idle;
  accepted = [];
  delivered = [];
}

-- What each side may rely on at each of its steps.
abbrev pub ProducerOk : Ring → Producer → Type 0
ProducerOk r Producer.idle = Unit {0}
ProducerOk r (Producer.loaded byte head) = head ≡ r.head
ProducerOk r (Producer.checked byte head) = (head ≡ r.head) × (count r < 255)
ProducerOk r (Producer.written byte head) =
    (head ≡ r.head) × (count r < 255) × (get_or r.buffer head 0 ≡ byte)

abbrev pub ConsumerOk : Ring → Consumer → Type 0
ConsumerOk r Consumer.idle = Unit {0}
ConsumerOk r (Consumer.loaded tail) = tail ≡ r.tail
ConsumerOk r (Consumer.checked tail) = (tail ≡ r.tail) × (0 < count r)
ConsumerOk r (Consumer.taken tail byte) =
    (tail ≡ r.tail) × (0 < count r) × (byte ≡ get_or r.buffer tail 0)

pub record Inv (s : System) : Type 0 where
  pub valid : IsValid s.ring
  pub history : s.accepted ≡ s.delivered ++ contents s.ring
  pub producer_ok : ProducerOk s.ring s.producer
  pub consumer_ok : ConsumerOk s.ring s.consumer
