-- ===== src/QueueThreaded.antt =====
-- Lib/QueueThreaded.h, in a build without asserts: a ring of `Capacity` cells between one producer and
-- several consumers. `First` and `Last` are indices below `Capacity`, so that their sums stay in an `int`.
-- The functions `enqueue` and `dequeue` are calls that nothing interrupts;
-- `Produce` and `Consume` are the same calls as single accesses of the shared memory, and `Step`
-- interleaves those of one producer and of `n` consumers.
pub mod Ring
pub mod Fifo
pub mod Calls
pub mod Stale
mod Tests
use scal_base.Prelude.{
  ℕ, ◌+◌, ◌%◌, ◌<◌, ◌≡◌, ◌≢◌, Bool, true, false, ◌==◌, if◌then◌else◌, Option, none, some, List, [],
  ◌∷◌, ◌++◌, Run, ok, ◌>>=◌, load, store, update,
}

pub record QueueThreaded {ℓ} (T : Type ℓ) : Type ℓ where
  pub first : ℕ
  pub last : ℕ
  pub memory : ℕ → T

-- `(i + 1) % Capacity`
abbrev pub slot_after : ℕ → ℕ → ℕ
slot_after capacity i = (i + 1) % capacity

-- `Enqueue` in the thread of the producer: what it has loaded, and how far it has come.
pub data Producer {ℓ} (T : Type ℓ) : Type ℓ where
  idle : Producer T
  checked written : T → ℕ → Producer T

-- `Dequeue` in the thread of a consumer.
pub data Consumer : Type 0 where
  idle : Consumer
  looked seen claimed : ℕ → Consumer

module _ {ℓ} {T : Type ℓ} where
  unfoldable pub enqueue : ℕ → QueueThreaded T → T → Run (QueueThreaded T × Bool)
  enqueue capacity q value =
      let new_last = slot_after capacity q.last in
      if new_last == q.first
      then ok (q, false)
      else store capacity q.memory q.last value >>= λ memory.
          ok (record q { memory = memory; last = new_last }, true)

  unfoldable pub dequeue : ℕ → QueueThreaded T → Run (QueueThreaded T × Option T)
  dequeue capacity q =
      if q.first == q.last
      then ok (q, none)
      else load q.memory capacity q.first >>= λ value.
          ok (record q { first = slot_after capacity q.first }, some value)

  -- A step of `Enqueue`, and the values that it accepts. Only the producer stores `Last`, so that the loads of
  -- `Last` and `First` are one step.
  pub data Produce (capacity : ℕ) (q : QueueThreaded T)
      : Producer T → QueueThreaded T → Producer T → List T → Type ℓ where
    refuse : slot_after capacity q.last ≡ q.first → Produce capacity q idle q idle []
    accept :
        (value : T)
        → slot_after capacity q.last ≢ q.first
        → Produce capacity q idle q (checked value q.last) []
    write :
        {value : T} {at : ℕ}
        → Produce capacity q
            (checked value at)
            (record q { memory = update q.memory at value })
            (written value at)
            []
    publish :
        {value : T} {at : ℕ}
        → Produce capacity q
            (written value at)
            (record q { last = slot_after capacity at })
            idle
            (value ∷ [])

  -- A step of `Dequeue`, and the values that it returns.
  pub data Consume (capacity : ℕ) (q : QueueThreaded T)
      : Consumer → QueueThreaded T → Consumer → List T → Type ℓ where
    look : Consume capacity q idle q (looked q.first) []
    empty : {at : ℕ} → at ≡ q.last → Consume capacity q (looked at) q idle []
    see : {at : ℕ} → at ≢ q.last → Consume capacity q (looked at) q (seen at) []
    claim :
        {at : ℕ}
        → q.first ≡ at
        → Consume capacity q (seen at) (record q { first = slot_after capacity at }) (claimed at) []
    lose : {at : ℕ} → q.first ≢ at → Consume capacity q (seen at) q idle []
    read : {at : ℕ} → Consume capacity q (claimed at) q idle (q.memory at ∷ [])

-- The queue, its threads, and the values that calls have accepted and returned so far.
pub record System {ℓ} (T : Type ℓ) : Type ℓ where
  pub queue : QueueThreaded T
  pub producer : Producer T
  pub consumer : ℕ → Consumer
  pub accepted : List T
  pub received : List T

module _ {ℓ} {T : Type ℓ} where
  pub data Step (capacity n : ℕ) (s : System T) : System T → Type ℓ where
    produce :
        {q : QueueThreaded T} {p : Producer T} {gained : List T}
        → Produce capacity s.queue s.producer q p gained
        → Step capacity n s (record s { queue = q; producer = p; accepted = s.accepted ++ gained })
    consume :
        (i : ℕ) {q : QueueThreaded T} {c : Consumer} {gained : List T}
        → i < n
        → Consume capacity s.queue (s.consumer i) q c gained
        → Step capacity n s (record s {
          queue = q;
          consumer = update s.consumer i c;
          received = s.received ++ gained;
        })

  -- A queue that is zeroed, and threads that are outside of the calls.
  abbrev pub start : (ℕ → T) → System T
  start memory = record {
    queue = record { first = 0; last = 0; memory = memory };
    producer = idle;
    consumer = λ i. idle;
    accepted = [];
    received = [];
  }

  pub data Reach (capacity n : ℕ) (memory : ℕ → T) : System T → Type ℓ where
    begin : Reach capacity n memory (start memory)
    later :
        {s t : System T}
        → Reach capacity n memory s
        → Step capacity n s t
        → Reach capacity n memory t
