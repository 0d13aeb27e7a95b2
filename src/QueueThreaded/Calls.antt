-- ===== src/QueueThreaded/Calls.antt =====
-- `Enqueue` and `Dequeue` that nothing interrupts, on the items of the ring.
use native.Mathlib.Decide.{ℕ_discrete}
use mathlib.Core.List.{append-nil}
use scal_base.Prelude.{
  ℕ, ◌+◌, ◌-◌, ◌<◌, ◌≡◌, ◌≢◌, refl, ap, sym, ◌∙◌, arith, true, false, not, ◌==◌, ltb, leb,
  if◌then◌else◌, Option, none, some, List, [], ◌∷◌, ◌++◌, update, update_self, Returns, returns,
}
use scal_base.QueueThreaded.{QueueThreaded, slot_after, enqueue, dequeue}
use scal_base.QueueThreaded.Ring.{
  IsValid, size, items, items-same, items-first, items-last, items-update, slot_after-wrap,
  slot_after-lt,
}

abbrev pub first_of {ℓ} : {T : Type ℓ} → List T → Option T
first_of [] = none
first_of (value ∷ rest) = some value

abbrev pub rest_of {ℓ} : {T : Type ℓ} → List T → List T
rest_of [] = []
rest_of (value ∷ rest) = rest

module _ {ℓ} {T : Type ℓ} {capacity : ℕ} {q : QueueThreaded T} (valid : IsValid capacity q) where
  -- `Enqueue` that nothing interrupts, on a ring whose indices are valid: on a ring that is not
  -- full, one item short of its capacity, it appends the value and returns true; on a full one it
  -- returns false and the ring is the same, with the cells that hold no item.
  pub enqueue-items :
      (value : T)
      → let is_full = size capacity q + 1 == capacity in
        Returns
          (λ r.
            IsValid capacity r.0
            × (r.1 ≡ not is_full)
            × (r.0 ≡ (if is_full then q else r.0))
            × (items capacity r.0 ≡ items capacity q ++ (if is_full then [] else value ∷ [])))
          (enqueue capacity q value)
  unfolding enqueue
  enqueue-items value =
      let wraps = slot_after-wrap capacity q.last valid.last in
      elim (ℕ_discrete (slot_after capacity q.last) q.first) [
        | yes full ↦
            let test : (slot_after capacity q.last == q.first) ≡ true = ground (arith, full) in
            let is_full : (size capacity q + 1 == capacity) ≡ true =
              full_size q.first q.last valid.first valid.last (sym wraps ∙ full) in
            rw (test, is_full) (returns (valid, refl, refl, sym (append-nil _)))
        | no room ↦
            let test : (slot_after capacity q.last == q.first) ≡ false = ground (arith, room) in
            let inside : ltb q.last capacity ≡ true = ground (arith, valid.last) in
            let not_full : (size capacity q + 1 == capacity) ≡ false =
              free_size q.first q.last valid.first valid.last (λ e. room (wraps ∙ e)) in
            let stored : QueueThreaded T = record q { memory = update q.memory q.last value } in
            let stored_valid : IsValid capacity stored = record {
              first = valid.first;
              last = valid.last;
            } in
            let grown =
              items-last stored_valid (slot_after capacity q.last) wraps room
              ∙ ap (λ xs. xs ++ (stored.memory q.last ∷ [])) (items-update valid value)
              ∙ ap (λ v. items capacity q ++ (v ∷ [])) (update_self q.memory q.last value) in
            rw (test, inside, not_full)
              (returns (
                record { first = valid.first; last = slot_after-lt capacity q.last valid.last },
                refl,
                refl,
                grown,
              ))
      ]
    where
      full_size :
          (first last : ℕ)
          → first < capacity
          → last < capacity
          → (if last + 1 == capacity then 0 else last + 1) ≡ first
          → ((if leb first last then last - first else last + capacity - first) + 1 == capacity)
            ≡ true
      full_size first last a b e = ground arith

      free_size :
          (first last : ℕ)
          → first < capacity
          → last < capacity
          → (if last + 1 == capacity then 0 else last + 1) ≢ first
          → ((if leb first last then last - first else last + capacity - first) + 1 == capacity)
            ≡ false
      free_size first last a b e = ground arith

  -- `Dequeue` that nothing interrupts, on a ring whose indices are valid, returns the first item
  -- and leaves the others, or null when there is none.
  pub dequeue-items :
      Returns
        (λ r.
          IsValid capacity r.0
          × (r.1 ≡ first_of (items capacity q))
          × (items capacity r.0 ≡ rest_of (items capacity q)))
        (dequeue capacity q)
  unfolding dequeue
  dequeue-items = elim (ℕ_discrete q.first q.last) [
    | yes same ↦
        let test : (q.first == q.last) ≡ true = ground (arith, same) in
        let nothing = items-same valid same in rw (test, nothing) (returns (valid, refl, nothing))
    | no other ↦
        let test : (q.first == q.last) ≡ false = ground (arith, other) in
        let inside : ltb q.first capacity ≡ true = ground (arith, valid.first) in
        let front =
          items-first valid (slot_after capacity q.first)
            (slot_after-wrap capacity q.first valid.first) other in
        rw (test, inside)
          (returns (
            record { first = slot_after-lt capacity q.first valid.first; last = valid.last },
            sym (ap first_of front),
            sym (ap rest_of front),
          ))
  ]
