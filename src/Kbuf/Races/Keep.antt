-- ===== src/Kbuf/Races/Keep.antt =====
-- Each atomic access keeps the invariant of the two sides.
use ross_os.Base.{ℕ, ◌-◌, ◌<◌, ◌≡◌, refl, ap, List, [], ◌∷◌, ◌++◌, arith, get_or, set, ◌∙◌, sym}
use mathlib.Core.List.{append_assoc}
use ross_os.Base.{length-set, get_or-set_self, get_or-set_ne}
use ross_os.Kbuf.{Ring, advance}
use ross_os.Kbuf.Window.{distance, count, contents, IsValid, window-set, window_last, window_pos}
use ross_os.Kbuf.Races.{
  Producer, Consumer, System, begin, produce_step, consume_step, boot, ProducerOk, ConsumerOk, Inv,
}

pub boot-Inv : Inv boot
unfolding boot
boot-Inv = record { valid = omega arith; history = refl; producer_ok = tt; consumer_ok = tt }

-- The three moves that touch the ring: the write of a byte, and the advance of each index.
write_byte : Ring → ℕ → ℕ → Ring
write_byte r head byte = record r { buffer = set r.buffer head byte }

advance_head : Ring → ℕ → Ring
advance_head r head = record r { head = advance head }

advance_tail : Ring → ℕ → Ring
advance_tail r tail = record r { tail = advance tail }

module _ (r : Ring) (v : IsValid r) where
  contents-write : (head byte : ℕ) → head ≡ r.head → contents (write_byte r head byte) ≡ contents r
  unfolding write_byte
  contents-write head byte e =
      window-set r.buffer r.tail (count r) head byte v.tail_in (omega (arith, v.head_in))
        (omega (arith, v.head_in))

  contents-advance_head :
      (head byte : ℕ)
      → head ≡ r.head
      → count r < 255
      → get_or r.buffer head 0 ≡ byte
      → contents (advance_head r head) ≡ contents r ++ (byte ∷ [])
  unfolding advance_head
  contents-advance_head head byte e room stored =
      ground (arith, window_last r.buffer r.tail (count r) head, grows, v.tail_in, v.head_in)
    where
      grows : distance r.tail (advance head) ≡ ℕ.suc (count r)
      grows = omega (arith, v.head_in, v.tail_in)

  contents-advance_tail :
      (tail : ℕ)
      → tail ≡ r.tail
      → 0 < count r
      → contents r ≡ get_or r.buffer tail 0 ∷ contents (advance_tail r tail)
  unfolding advance_tail
  contents-advance_tail tail e some_left =
      ground (arith, window_pos r.buffer r.tail (count r), shrinks)
    where
      shrinks : distance (advance tail) r.head ≡ count r - 1
      shrinks = omega (arith, v.head_in, v.tail_in)

  ConsumerOk-write :
      (c : Consumer) (head byte : ℕ)
      → head ≡ r.head
      → ConsumerOk r c
      → ConsumerOk (write_byte r head byte) c
  unfolding write_byte
  ConsumerOk-write Consumer.idle head byte e ok = tt
  ConsumerOk-write (Consumer.loaded tail) head byte e ok = ok
  ConsumerOk-write (Consumer.checked tail) head byte e ok = ok
  ConsumerOk-write (Consumer.taken tail x) head byte e ok =
      (ok.0, ok.1, ok.2 ∙ sym (get_or-set_ne r.buffer head tail byte 0 (omega (arith, v.head_in))))

  ConsumerOk-advance_head :
      (c : Consumer) (head : ℕ)
      → head ≡ r.head
      → count r < 255
      → ConsumerOk r c
      → ConsumerOk (advance_head r head) c
  unfolding advance_head
  ConsumerOk-advance_head Consumer.idle head e room ok = tt
  ConsumerOk-advance_head (Consumer.loaded tail) head e room ok = ok
  ConsumerOk-advance_head (Consumer.checked tail) head e room ok =
      (ok.0, omega (arith, v.head_in, v.tail_in))
  ConsumerOk-advance_head (Consumer.taken tail x) head e room ok =
      (ok.0, omega (arith, v.head_in, v.tail_in), ok.2)

  ProducerOk-advance_tail :
      (p : Producer) (tail : ℕ)
      → tail ≡ r.tail
      → 0 < count r
      → ProducerOk r p
      → ProducerOk (advance_tail r tail) p
  unfolding advance_tail
  ProducerOk-advance_tail Producer.idle tail e some_left ok = tt
  ProducerOk-advance_tail (Producer.loaded byte head) tail e some_left ok = ok
  ProducerOk-advance_tail (Producer.checked byte head) tail e some_left ok =
      (ok.0, omega (arith, v.head_in, v.tail_in))
  ProducerOk-advance_tail (Producer.written byte head) tail e some_left ok =
      (ok.0, omega (arith, v.head_in, v.tail_in), ok.2)

pub begin-Inv : (s : System) (byte : ℕ) (p : Producer) → Inv s → Inv (begin s byte p)
unfolding begin
begin-Inv s byte Producer.idle v = record {
  valid = v.valid;
  history = v.history;
  producer_ok = refl;
  consumer_ok = v.consumer_ok;
}
begin-Inv s byte (Producer.loaded _ _) v = v
begin-Inv s byte _ v = v

pub produce_step-Inv :
    (s : System) (p : Producer) → ProducerOk s.ring p → Inv s → Inv (produce_step s p)
unfolding produce_step
produce_step-Inv s Producer.idle ok v = v
produce_step-Inv s (Producer.loaded byte head) ok v = ground arith
produce_step-Inv s (Producer.checked byte head) ok v = record {
  valid = omega (arith, v.valid, length-set s.ring.buffer head byte);
  history =
      v.history
      ∙ ap (λ q. s.delivered ++ q)
          (sym (unfold write_byte in contents-write s.ring v.valid head byte ok.0));
  producer_ok = (ok.0, ok.1, get_or-set_self s.ring.buffer head byte 0 (omega (arith, v.valid)));
  consumer_ok =
      unfold write_byte in ConsumerOk-write s.ring v.valid s.consumer head byte ok.0 v.consumer_ok;
}
produce_step-Inv s (Producer.written byte head) ok v = record {
  valid = omega (arith, v.valid);
  history =
      ap (λ q. q ++ (byte ∷ [])) v.history
      ∙ append_assoc s.delivered (contents s.ring) (byte ∷ [])
      ∙ ap (λ q. s.delivered ++ q)
          (sym
            (unfold advance_head in contents-advance_head s.ring v.valid head byte ok.0 ok.1 ok.2));
  producer_ok = tt;
  consumer_ok =
      unfold advance_head in
      ConsumerOk-advance_head s.ring v.valid s.consumer head ok.0 ok.1 v.consumer_ok;
}

pub consume_step-Inv :
    (s : System) (c : Consumer) → ConsumerOk s.ring c → Inv s → Inv (consume_step s c)
unfolding consume_step
consume_step-Inv s Consumer.idle ok v = record {
  valid = v.valid;
  history = v.history;
  producer_ok = v.producer_ok;
  consumer_ok = refl;
}
consume_step-Inv s (Consumer.loaded tail) ok v = ground arith
consume_step-Inv s (Consumer.checked tail) ok v = record {
  valid = v.valid;
  history = v.history;
  producer_ok = v.producer_ok;
  consumer_ok = (ok.0, ok.1, refl);
}
consume_step-Inv s (Consumer.taken tail byte) ok v = record {
  valid = omega (arith, v.valid);
  history =
      v.history
      ∙ ap (λ q. s.delivered ++ q) (split ∙ ap (λ x. x ∷ rest) (sym ok.2))
      ∙ sym (append_assoc s.delivered (byte ∷ []) rest);
  producer_ok =
      unfold advance_tail in
      ProducerOk-advance_tail s.ring v.valid s.producer tail ok.0 ok.1 v.producer_ok;
  consumer_ok = tt;
}
  where
    rest : List ℕ
    rest = contents (record (s.ring) { tail = advance tail })

    split : contents s.ring ≡ get_or s.ring.buffer tail 0 ∷ rest
    split = unfold advance_tail in contents-advance_tail s.ring v.valid tail ok.0 ok.1
