-- ===== src/QueueThreaded/Stale.antt =====
-- Two consumers: a compare-exchange that compares with an index from a round of the ring before.

use mathlib.Core.List.{append-nil}
use scal_base.Prelude.{
  ℕ, zero, suc, ◌+◌, ◌-◌, ◌<◌, ◌≡◌, ◌≢◌, refl, ap, sym, ◌∙◌, arith, ◌==◌, if◌then◌else◌, List, [],
  ◌∷◌, ◌++◌, length, length-append, update,
}
use scal_base.QueueThreaded.{
  QueueThreaded, Producer, Consumer, accept, write, publish, look, see, claim, read, Consume,
  System, produce, consume, Reach, begin, later, slot_after,
}
use scal_base.QueueThreaded.Ring.{size, slot_after-wrap}

module _ {ℓ} {T : Type ℓ} (capacity : ℕ) (memory : ℕ → T) (value : T) where
  -- The ring is empty at `p`, nobody is in a call but the first consumer, which has seen an item at 0,
  -- and as many values have been returned as accepted.
  record Stalled (p : ℕ) (s : System T) : Type ℓ where
    reached : Reach capacity 2 memory s
    first : s.queue.first ≡ p
    last : s.queue.last ≡ p
    outside : s.producer ≡ Producer.idle
    stalled : s.consumer 0 ≡ Consumer.seen 0
    waiting : s.consumer 1 ≡ Consumer.idle
    balance : length s.received ≡ length s.accepted

  grows :
      (xs ys : List T) (a b : T)
      → length xs ≡ length ys
      → length (xs ++ [] ++ [] ++ [] ++ (a ∷ [])) ≡ length (ys ++ [] ++ [] ++ (b ∷ []))
  grows xs ys a b e = simp (append-nil, length-append) (ap (λ n. n + 1) e)

  after-ne : (p : ℕ) → 1 < capacity → p < capacity → slot_after capacity p ≢ p
  after-ne p two lt e =
      let w : (if p + 1 == capacity then 0 else p + 1) ≡ p =
        sym (slot_after-wrap capacity p lt) ∙ e in
      ground (arith, w)

  -- `Enqueue` by the producer, then `Dequeue` by the second consumer.
  round :
      (p : ℕ) {s : System T}
      → 1 < capacity
      → p < capacity
      → Stalled p s
      → (t : System T) × Stalled (slot_after capacity p) t
  round p {s} two lt h =
      let q = s.queue in
      let ne : slot_after capacity q.last ≢ q.first = rw (h.first, h.last) (after-ne p two lt) in
      let s1 : System T = record s {
        producer = Producer.checked value q.last;
        accepted = s.accepted ++ [];
      } in
      let r1 : Reach capacity 2 memory s1 =
        later h.reached (produce (rw h.outside (accept value ne))) in
      let q2 : QueueThreaded T = record q { memory = update q.memory q.last value } in
      let q3 : QueueThreaded T = record q2 { last = slot_after capacity q.last } in
      let r3 = later (later r1 (produce write)) (produce publish) in
      let looks : Consume capacity q3 (s.consumer 1) q3 (Consumer.looked q3.first) [] =
        rw h.waiting look in
      let r5 =
        later (later r3 (consume 1 (omega arith) looks))
          (consume 1 (omega arith) (see (λ e. ne (sym e)))) in
      let r7 =
        later (later r5 (consume 1 (omega arith) (claim refl))) (consume 1 (omega arith) read) in
      (
        _,
        record {
          reached = r7;
          first = ap (slot_after capacity) h.first;
          last = ap (slot_after capacity) h.last;
          outside = refl;
          stalled = h.stalled;
          waiting = refl;
          balance = grows s.received s.accepted _ value h.balance;
        },
      )

  -- The first item is enqueued, the first consumer sees it, and the second one takes it.
  first_round : 1 < capacity → (t : System T) × Stalled (slot_after capacity 0) t
  first_round two =
      let ne = after-ne 0 two (omega arith) in
      let r3 =
        later (later (later begin (produce (accept value ne))) (produce write)) (produce publish) in
      let r5 =
        later (later r3 (consume 0 (omega arith) look))
          (consume 0 (omega arith) (see (λ e. ne (sym e)))) in
      let r7 =
        later (later r5 (consume 1 (omega arith) look))
          (consume 1 (omega arith) (see (λ e. ne (sym e)))) in
      let r9 =
        later (later r7 (consume 1 (omega arith) (claim refl))) (consume 1 (omega arith) read) in
      (
        _,
        record {
          reached = r9;
          first = refl;
          last = refl;
          outside = refl;
          stalled = refl;
          waiting = refl;
          balance = refl;
        },
      )

  -- Rounds until the ring is empty at 0 again.
  rounds :
      (left p : ℕ) {s : System T}
      → 1 < capacity
      → p + suc left ≡ capacity
      → Stalled p s
      → (t : System T) × Stalled 0 t
  rounds zero p two e h =
      let (t, next) = round p two (omega (arith, e)) h in
      let wraps : slot_after capacity p ≡ 0 =
        slot_after-wrap capacity p (omega (arith, e)) ∙ ground (arith, e) in
      (t, rw wraps at next)
  rounds (suc left) p two e h =
      let (t, next) = round p two (omega (arith, e)) h in
      let steps : slot_after capacity p ≡ p + 1 =
        slot_after-wrap capacity p (omega (arith, e)) ∙ ground (arith, e) in
      rounds left (p + 1) two (omega (arith, e)) (rw steps at next)

  -- On a ring of two or more cells, whose indices start at 0, there is an interleaving of one
  -- producer and two consumers after which `Dequeue` has returned one value more than `Enqueue`
  -- has accepted, and the indices show a full ring.
  pub Reach-overtaken :
      1 < capacity
      → (s : System T) × Reach capacity 2 memory s
        × (length s.received ≡ suc (length s.accepted))
        × (size capacity s.queue ≡ capacity - 1)
  Reach-overtaken two =
      let (early, h) = first_round two in
      let one : slot_after capacity 0 ≡ 1 =
        slot_after-wrap capacity 0 (omega arith) ∙ ground (arith, two) in
      let (s, empty_again) = rounds (capacity - 2) 1 two (omega arith) (rw one at h) in
      let claims : Consume capacity s.queue (s.consumer 0)
          (record (s.queue) { first = slot_after capacity 0 }) (Consumer.claimed 0) [] =
        rw empty_again.stalled (claim empty_again.first) in
      let r =
        later (later empty_again.reached (consume 0 (omega arith) claims))
          (consume 0 (omega arith) read) in
      let ahead : (xs ys : List T) (a : T)
          → length xs ≡ length ys
          → length (xs ++ [] ++ (a ∷ [])) ≡ suc (length ys) =
        λ xs ys a e. simp (append-nil, length-append) (omega (arith, e)) in
      (
        _,
        r,
        ahead s.received s.accepted _ empty_again.balance,
        rw (one, empty_again.last) (ground (arith, two)),
      )
