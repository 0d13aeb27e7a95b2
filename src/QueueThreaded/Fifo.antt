-- ===== src/QueueThreaded/Fifo.antt =====
-- One producer and one consumer: every interleaving delivers the values in order.
use mathlib.Core.List.{append-nil, append_assoc}
use scal_base.Prelude.{
  ℕ, zero, suc, ◌<◌, ◌≡◌, ◌≢◌, refl, ap, sym, ◌∙◌, arith, List, [], ◌∷◌, ◌++◌, update, update_self,
  update_ne,
}
use scal_base.QueueThreaded.{
  QueueThreaded, Producer, Consumer, Produce, Consume, refuse, accept, write, publish, look, empty,
  see, claim, lose, read, System, Step, produce, consume, Reach, begin, later, slot_after,
}
use scal_base.QueueThreaded.Ring.{
  IsValid, items, items-same, items-first, items-last, items-update, slot_after-wrap, slot_after-lt,
  slot_after-inj,
}

module _ {ℓ} {T : Type ℓ} where
  -- What the producer relies on between two of its accesses.
  data Producing (capacity : ℕ) (q : QueueThreaded T) : Producer T → Type ℓ where
    outside : Producing capacity q Producer.idle
    ready :
        {value : T} {at : ℕ}
        → at ≡ q.last
        → slot_after capacity at ≢ q.first
        → Producing capacity q (Producer.checked value at)
    filled :
        {value : T} {at : ℕ}
        → at ≡ q.last
        → slot_after capacity at ≢ q.first
        → q.memory at ≡ value
        → Producing capacity q (Producer.written value at)

  -- What the consumer relies on, and the value that it has taken from the ring and not yet returned.
  pub data Consuming (capacity : ℕ) (q : QueueThreaded T) : Consumer → List T → Type ℓ where
    outside : Consuming capacity q Consumer.idle []
    loaded : {at : ℕ} → q.first ≡ at → Consuming capacity q (Consumer.looked at) []
    tested : {at : ℕ} → q.first ≡ at → at ≢ q.last → Consuming capacity q (Consumer.seen at) []
    taken :
        {at : ℕ} {held : List T}
        → at < capacity
        → q.first ≡ slot_after capacity at
        → held ≡ q.memory at ∷ []
        → Consuming capacity q (Consumer.claimed at) held

  -- What a step of the producer keeps.
  record Produced (capacity : ℕ) (q r : QueueThreaded T) (p : Producer T) (c : Consumer)
      (held gained : List T) : Type ℓ where
    valid : IsValid capacity r
    producing : Producing capacity r p
    consuming : Consuming capacity r c held
    queue : items capacity r ≡ items capacity q ++ gained

  module _ {capacity : ℕ} {q : QueueThreaded T} where
    Consuming-write :
        {c : Consumer} {held : List T} (value : T)
        → slot_after capacity q.last ≢ q.first
        → Consuming capacity q c held
        → Consuming capacity (record q { memory = update q.memory q.last value }) c held
    Consuming-write value room outside = outside
    Consuming-write value room (loaded e) = loaded e
    Consuming-write value room (tested e ne) = tested e ne
    Consuming-write value room (taken {at} lt e same) = taken lt e (
        same
        ∙ ap (λ v. v ∷ [])
            (sym (
              update_ne q.memory q.last value at (λ h. room (ap (slot_after capacity) h ∙ sym e)))))

    Consuming-publish :
        {c : Consumer} {held : List T}
        → slot_after capacity q.last ≢ q.first
        → Consuming capacity q c held
        → Consuming capacity (record q { last = slot_after capacity q.last }) c held
    Consuming-publish room outside = outside
    Consuming-publish room (loaded e) = loaded e
    Consuming-publish room (tested e ne) = tested e (λ h. room (sym (e ∙ h)))
    Consuming-publish room (taken lt e same) = taken lt e same

    Produce-Produced :
        {r : QueueThreaded T} {p p' : Producer T} {c : Consumer} {held gained : List T}
        → IsValid capacity q
        → Producing capacity q p
        → Consuming capacity q c held
        → Produce capacity q p r p' gained
        → Produced capacity q r p' c held gained
    Produce-Produced valid before con (refuse full) = record {
      valid = valid;
      producing = before;
      consuming = con;
      queue = sym (append-nil _);
    }
    Produce-Produced valid before con (accept value room) = record {
      valid = valid;
      producing = ready refl room;
      consuming = con;
      queue = sym (append-nil _);
    }
    Produce-Produced valid (ready {value} {at} e room) con write = rw e record {
      valid = record { first = valid.first; last = valid.last };
      producing = filled refl (rw (sym e) room) (update_self q.memory q.last value);
      consuming = Consuming-write value (rw (sym e) room) con;
      queue = items-update valid value ∙ sym (append-nil _);
    }
    Produce-Produced valid (filled {value} {at} e room same) con publish = rw e record {
      valid = record { first = valid.first; last = slot_after-lt capacity q.last valid.last };
      producing = outside;
      consuming = Consuming-publish (rw (sym e) room) con;
      queue =
          items-last valid (slot_after capacity q.last) (slot_after-wrap capacity q.last valid.last)
            (rw (sym e) room)
          ∙ ap (λ v. items capacity q ++ (v ∷ [])) (ap q.memory (sym e) ∙ same);
    }

    Producing-claim :
        {p : Producer T}
        → IsValid capacity q
        → q.first ≢ q.last
        → Producing capacity q p
        → Producing capacity (record q { first = slot_after capacity q.first }) p
    Producing-claim valid some_left outside = outside
    Producing-claim valid some_left (ready e room) = ready e (λ h. some_left (
        slot_after-inj capacity q.first q.last valid.first valid.last
          (sym h ∙ ap (slot_after capacity) e)))
    Producing-claim valid some_left (filled e room same) =
        filled e
          (λ h. some_left (
            slot_after-inj capacity q.first q.last valid.first valid.last
              (sym h ∙ ap (slot_after capacity) e)))
          same

  -- What a step of the consumer keeps.
  record Consumed (capacity : ℕ) (q r : QueueThreaded T) (p : Producer T) (c : Consumer)
      (held gained : List T) : Type ℓ where
    valid : IsValid capacity r
    producing : Producing capacity r p
    after : List T
    consuming : Consuming capacity r c after
    queue : held ++ items capacity q ≡ gained ++ (after ++ items capacity r)

  Consume-Consumed :
      {capacity : ℕ} {q r : QueueThreaded T} {p : Producer T} {c c' : Consumer}
      {held gained : List T}
      → IsValid capacity q
      → Producing capacity q p
      → Consume capacity q c r c' gained
      → Consuming capacity q c held
      → Consumed capacity q r p c' held gained
  Consume-Consumed valid pro look outside = record {
    valid = valid;
    producing = pro;
    after = [];
    consuming = loaded refl;
    queue = refl;
  }
  Consume-Consumed valid pro (empty none_left) (loaded e) = record {
    valid = valid;
    producing = pro;
    after = [];
    consuming = outside;
    queue = refl;
  }
  Consume-Consumed valid pro (see some_left) (loaded e) = record {
    valid = valid;
    producing = pro;
    after = [];
    consuming = tested e some_left;
    queue = refl;
  }
  Consume-Consumed valid pro (lose other) (tested e some_left) = absurd (other e)
  Consume-Consumed {capacity} {q} valid pro (claim same) (tested {at} e some_left) =
      rw (sym e) record {
        valid = record { first = slot_after-lt capacity q.first valid.first; last = valid.last };
        producing = Producing-claim valid (λ h. some_left (sym e ∙ h)) pro;
        after = q.memory q.first ∷ [];
        consuming = taken valid.first refl refl;
        queue =
            items-first valid (slot_after capacity q.first)
              (slot_after-wrap capacity q.first valid.first) (λ h. some_left (sym e ∙ h));
      }
  Consume-Consumed {capacity} {q} valid pro read (taken lt e same) = record {
    valid = valid;
    producing = pro;
    after = [];
    consuming = outside;
    queue = ap (λ xs. xs ++ items capacity q) same;
  }

  -- Every value that the consumer has not yet returned is in its hands or on the ring.
  record Ordered (capacity : ℕ) (s : System T) : Type ℓ where
    valid : IsValid capacity s.queue
    producing : Producing capacity s.queue s.producer
    held : List T
    consuming : Consuming capacity s.queue (s.consumer 0) held
    history : s.accepted ≡ s.received ++ (held ++ items capacity s.queue)

  Step-Ordered :
      {capacity : ℕ} {s t : System T}
      → Ordered capacity s
      → Step capacity 1 s t
      → Ordered capacity t
  Step-Ordered {capacity} {s} o (produce {gained = gained} move) =
      let d = Produce-Produced o.valid o.producing o.consuming move in
      record {
        valid = d.valid;
        producing = d.producing;
        held = o.held;
        consuming = d.consuming;
        history = rw (o.history, d.queue) (simp append_assoc);
      }
  Step-Ordered {capacity} {s} o (consume zero {q = q} {c = c} {gained = gained} inside move) =
      let d = Consume-Consumed o.valid o.producing move o.consuming in
      record {
        valid = d.valid;
        producing = d.producing;
        held = d.after;
        consuming = rw (update_self s.consumer 0 c) d.consuming;
        history =
            o.history
            ∙ ap (λ xs. s.received ++ xs) d.queue
            ∙ sym (append_assoc s.received gained (d.after ++ items capacity q));
      }
  Step-Ordered o (consume (suc i) inside move) = absurd (omega arith)

  -- In every interleaving of `Enqueue` calls with the `Dequeue` calls of one consumer, on a ring
  -- of at least one cell, both indices stay within the ring, and the values that `Enqueue` has
  -- accepted are those that `Dequeue` has returned, then the one that the consumer has claimed, if
  -- any, and then those on the ring, in order.
  pub Reach-fifo :
      {capacity : ℕ} (memory : ℕ → T) {s : System T}
      → 0 < capacity
      → Reach capacity 1 memory s
      → IsValid capacity s.queue
        × ((held : List T) × Consuming capacity s.queue (s.consumer 0) held
            × (s.accepted ≡ s.received ++ (held ++ items capacity s.queue)))
  Reach-fifo {capacity} memory any reached =
      let o = Reach-Ordered reached in (o.valid, (o.held, o.consuming, o.history))
    where
      Reach-Ordered : {s : System T} → Reach capacity 1 memory s → Ordered capacity s
      Reach-Ordered begin = record {
        valid = record { first = any; last = any };
        producing = outside;
        held = [];
        consuming = outside;
        history = sym (
            items-same {q = record { first = 0; last = 0; memory = memory }}
              (record { first = any; last = any }) refl);
      }
      Reach-Ordered (later before move) = Step-Ordered (Reach-Ordered before) move
