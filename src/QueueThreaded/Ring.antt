-- ===== src/QueueThreaded/Ring.antt =====
-- The items between `First` and `Last`, and the successor of an index on the ring.
use native.Mathlib.Decide.{ℕ_discrete}
use native.Mathlib.Nat.{mod_self, mod-eq_of_lt}
use scal_base.Prelude.{
  ℕ, suc, ◌+◌, ◌-◌, ◌%◌, ◌<◌, ◌≡◌, ◌≢◌, ap, sym, ◌∙◌, arith, true, false, ltb, leb, ◌==◌,
  if◌then◌else◌, List, [], ◌∷◌, ◌++◌, contents, contents-ext, contents_snoc, update, update_ne,
}
use scal_base.QueueThreaded.{QueueThreaded, slot_after}

pub slot_after-wrap :
    (capacity i : ℕ)
    → i < capacity
    → slot_after capacity i ≡ (if i + 1 == capacity then 0 else i + 1)
slot_after-wrap capacity i lt = elim (ℕ_discrete (i + 1) capacity) [
  | yes end ↦
      let test : (i + 1 == capacity) ≡ true = ground (arith, end) in
      rw test (ap (λ k. k % capacity) end ∙ mod_self capacity)
  | no before ↦
      let test : (i + 1 == capacity) ≡ false = ground (arith, before) in
      rw test (mod-eq_of_lt (omega arith))
]

-- `i` past the end of the ring.
abbrev wrap : ℕ → ℕ → ℕ
wrap capacity i = if ltb i capacity then i else i - capacity

abbrev pub size {ℓ} : {T : Type ℓ} → ℕ → QueueThreaded T → ℕ
size capacity q = if leb q.first q.last then q.last - q.first else q.last + capacity - q.first

-- The items, the oldest first.
abbrev pub items {ℓ} : {T : Type ℓ} → ℕ → QueueThreaded T → List T
items capacity q = contents (λ j. q.memory (wrap capacity (q.first + j))) (size capacity q)

pub record IsValid {ℓ} {T : Type ℓ} (capacity : ℕ) (q : QueueThreaded T) : Type 0 where
  pub first : q.first < capacity
  pub last : q.last < capacity

module _ {ℓ} {T : Type ℓ} {capacity : ℕ} {q : QueueThreaded T} (valid : IsValid capacity q) where
  pub size-lt : size capacity q < capacity
  size-lt = ground (arith, valid.first, valid.last)

  pub items-same : q.first ≡ q.last → items capacity q ≡ []
  unfolding contents
  items-same e =
      let none : size capacity q ≡ 0 = ground (arith, e) in
      ap (contents (λ j. q.memory (wrap capacity (q.first + j)))) none

  pub items-first :
      (after : ℕ)
      → after ≡ (if q.first + 1 == capacity then 0 else q.first + 1)
      → q.first ≢ q.last
      → items capacity q ≡ q.memory q.first ∷ items capacity (record q { first = after })
  unfolding contents
  items-first after e some_left =
      let one : size capacity q ≡ suc (size capacity (record q { first = after })) =
        ground (arith, e, some_left, valid.first, valid.last) in
      let head : wrap capacity (q.first + 0) ≡ q.first = ground (arith, valid.first) in
      ap (contents (λ j. q.memory (wrap capacity (q.first + j)))) one
      ∙ rw head (
          ap (λ xs. q.memory q.first ∷ xs)
            (contents-ext (λ j. q.memory (wrap capacity (after + j)))
              (λ j. q.memory (wrap capacity (q.first + suc j)))
              (size capacity (record q { first = after }))
              (λ j h.
                ap q.memory (
                  next_index q.first q.last after capacity j valid.first valid.last e some_left
                    h))))
    where
      next_index :
          (first last after capacity j : ℕ)
          → first < capacity
          → last < capacity
          → after ≡ (if first + 1 == capacity then 0 else first + 1)
          → first ≢ last
          → j < (if leb after last then last - after else last + capacity - after)
          → wrap capacity (first + suc j) ≡ wrap capacity (after + j)
      next_index first last after capacity j a b e ne h = ground arith

  pub items-last :
      (after : ℕ)
      → after ≡ (if q.last + 1 == capacity then 0 else q.last + 1)
      → after ≢ q.first
      → items capacity (record q { last = after }) ≡ items capacity q ++ (q.memory q.last ∷ [])
  items-last after e room =
      let one : size capacity (record q { last = after }) ≡ suc (size capacity q) =
        ground (arith, e, room, valid.first, valid.last) in
      let end : wrap capacity (q.first + size capacity q) ≡ q.last =
        ground (arith, valid.first, valid.last) in
      ap (contents (λ j. q.memory (wrap capacity (q.first + j)))) one
      ∙ contents_snoc (λ j. q.memory (wrap capacity (q.first + j))) (size capacity q)
      ∙ ap (λ k. items capacity q ++ (q.memory k ∷ [])) end

  pub items-update :
      (value : T)
      → items capacity (record q { memory = update q.memory q.last value }) ≡ items capacity q
  items-update value =
      contents-ext (λ j. q.memory (wrap capacity (q.first + j)))
        (λ j. update q.memory q.last value (wrap capacity (q.first + j))) (size capacity q)
        (λ j h.
          update_ne q.memory q.last value (wrap capacity (q.first + j))
            (other q.first q.last capacity j valid.first valid.last h))
    where
      other :
          (first last capacity j : ℕ)
          → first < capacity
          → last < capacity
          → j < (if leb first last then last - first else last + capacity - first)
          → last ≢ wrap capacity (first + j)
      other first last capacity j a b h = ground arith

pub slot_after-lt : (capacity i : ℕ) → i < capacity → slot_after capacity i < capacity
slot_after-lt capacity i lt = rw (slot_after-wrap capacity i lt) (ground arith)

pub slot_after-inj :
    (capacity i j : ℕ)
    → i < capacity
    → j < capacity
    → slot_after capacity i ≡ slot_after capacity j
    → i ≡ j
slot_after-inj capacity i j a b e =
    let same : (if i + 1 == capacity then 0 else i + 1) ≡ (if j + 1 == capacity then 0 else j + 1) =
      sym (slot_after-wrap capacity i a) ∙ e ∙ slot_after-wrap capacity j b in
    ground (arith, same)
