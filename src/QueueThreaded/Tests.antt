-- ===== src/QueueThreaded/Tests.antt =====
-- Runs of the ring, and the theorems on small rings.
use scal_base.Prelude.{
  ℕ, suc, ◌+◌, ◌-◌, ◌≡◌, refl, arith, false, not, ◌==◌, if◌then◌else◌, none, some, List, [], ◌∷◌,
  ◌++◌, update, length, ok, ◌>>=◌, Returns,
}
use scal_base.QueueThreaded.{
  QueueThreaded, Producer, Consumer, System, Reach, begin, later, produce, consume, accept, write,
  publish, look, see, claim, enqueue, dequeue,
}
use scal_base.QueueThreaded.Ring.{IsValid, size, items}
use scal_base.QueueThreaded.Fifo.{Consuming, Reach-fifo}
use scal_base.QueueThreaded.Calls.{first_of, rest_of, enqueue-items, dequeue-items}
use scal_base.QueueThreaded.Stale.{Reach-overtaken}

-- The cells hold 10, 11 and 12; the items are 12 and 10.
abbrev two_items : QueueThreaded ℕ
two_items = record { first = 2; last = 1; memory = λ i. 10 + i }

two_items-IsValid : IsValid 3 two_items
two_items-IsValid = record { first = omega arith; last = omega arith }

is_full : enqueue 3 two_items 99 ≡ ok (two_items, false)
unfolding enqueue
is_full = refl

in_order :
    (dequeue 3 two_items >>= λ a. enqueue 3 a.0 99 >>= λ b. dequeue 3 b.0 >>= λ c.
    dequeue 3 c.0 >>= λ d. dequeue 3 d.0 >>= λ e. ok (a.1 ∷ c.1 ∷ d.1 ∷ e.1 ∷ []))
    ≡ ok (some 12 ∷ some 10 ∷ some 99 ∷ none ∷ [])
unfolding enqueue dequeue
in_order = refl

enqueue-items_example :
    Returns
      (λ r.
        IsValid 3 r.0
        × (r.1 ≡ not (size 3 two_items + 1 == 3))
        × (r.0 ≡ (if size 3 two_items + 1 == 3 then two_items else r.0))
        × (items 3 r.0 ≡ items 3 two_items ++ (if size 3 two_items + 1 == 3 then [] else 99 ∷ [])))
      (enqueue 3 two_items 99)
enqueue-items_example = enqueue-items two_items-IsValid 99

dequeue-items_example :
    Returns
      (λ r.
        IsValid 3 r.0
        × (r.1 ≡ first_of (items 3 two_items))
        × (items 3 r.0 ≡ rest_of (items 3 two_items)))
      (dequeue 3 two_items)
dequeue-items_example = dequeue-items two_items-IsValid

abbrev zeroes : ℕ → ℕ
zeroes i = 0

-- 7 has been enqueued, and the consumer has claimed it.
abbrev busy : System ℕ
busy =
    let q : QueueThreaded ℕ = record { first = 0; last = 1; memory = update zeroes 0 7 } in
    record {
      queue = record q { first = 1 };
      producer = Producer.idle;
      consumer =
          update (update (update (λ i. Consumer.idle) 0 (Consumer.looked 0)) 0 (Consumer.seen 0)) 0
            (Consumer.claimed 0);
      accepted = 7 ∷ [];
      received = [];
    }

busy-Reach : Reach 3 1 zeroes busy
busy-Reach =
    later
      (later
        (later
          (later (later (later begin (produce (accept 7 (omega arith)))) (produce write))
            (produce publish))
          (consume 0 (omega arith) look))
        (consume 0 (omega arith) (see (omega arith))))
      (consume 0 (omega arith) (claim refl))

Reach-fifo_example :
    IsValid 3 busy.queue
    × ((held : List ℕ) × Consuming 3 busy.queue (busy.consumer 0) held
        × (busy.accepted ≡ busy.received ++ (held ++ items 3 busy.queue)))
Reach-fifo_example = Reach-fifo zeroes (omega arith) busy-Reach

Reach-overtaken_example :
    (s : System ℕ) × Reach 3 2 zeroes s
    × (length s.received ≡ suc (length s.accepted))
    × (size 3 s.queue ≡ 3 - 1)
Reach-overtaken_example = Reach-overtaken 3 zeroes 7 (omega arith)
