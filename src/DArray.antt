-- ===== src/DArray.antt =====
-- Lib/DArray.h, in a build without asserts: a dynamic array over memory of an arena. `Memory` is a
-- function from index to cell, and every access is checked against `Capacity`. `Count` and
-- `Capacity` are below 2 ^ 32, and subtraction of `u32` wraps around.
mod Lists
mod Removal
mod Tests
use scal_base.Prelude.{
  ℕ, zero, suc, ◌+◌, ◌-◌, ◌*◌, ◌/◌, ◌%◌, ◌^◌, Bool, true, false, ◌&&◌, ltb, leb, ◌==◌,
  if◌then◌else◌, Run, ok, fault, ◌>>=◌, load, store, update, move, moved, sub32,
}

pub record DArray {ℓ} (T : Type ℓ) : Type ℓ where
  pub memory : ℕ → T
  pub capacity : ℕ
  pub count : ℕ

module _ {ℓ} {T : Type ℓ} where
  unfoldable pub last_index : DArray T → ℕ
  last_index d = if d.count == 0 then 0 else d.count - 1

  -- The code calls ArenaPush without the arena and does not compile; the call is read as one for
  -- `new_capacity` cells. `fresh` is what the new block holds before the copy. A null `Memory` has capacity 0.
  unfoldable pub resize : (ℕ → T) → DArray T → ℕ → DArray T
  resize fresh d new_capacity =
      let wanted = if new_capacity == 0 then 1 else new_capacity in
      if leb wanted d.capacity
      then d
      else record d { memory = moved fresh 0 d.memory 0 d.capacity; capacity = wanted }

  unfoldable pub push : DArray T → T → Run (DArray T)
  push d value =
      if d.count == d.capacity
      then ok d
      else store d.capacity d.memory d.count value >>= λ memory.
          ok (record d { memory = memory; count = (d.count + 1) % 2 ^ 32 })

  -- `blank` is a cell of zero bytes.
  unfoldable pub push_many : T → DArray T → ℕ → Run (DArray T)
  push_many blank d number_to_add =
      if ltb (sub32 d.capacity d.count) number_to_add
      then ok d
      else if leb (d.count + number_to_add) d.capacity
      then ok (record d {
        memory = moved d.memory d.count (λ i. blank) 0 number_to_add;
        count = d.count + number_to_add;
      })
      else fault

  unfoldable pub push_at : DArray T → T → ℕ → Run (DArray T)
  unfolding last_index
  push_at d value idx =
      if d.count == d.capacity
      then ok d
      else (if idx == last_index d
          then ok d.memory
          else move d.capacity d.memory (idx + 1) idx (sub32 d.count idx))
        >>= λ shifted. store d.capacity shifted idx value >>= λ memory.
            ok (record d { memory = memory; count = (d.count + 1) % 2 ^ 32 })

  unfoldable pub push_swap_back : DArray T → T → ℕ → Run (DArray T)
  unfolding last_index
  push_swap_back d value idx =
      if d.count == d.capacity
      then ok d
      else (if idx == last_index d then ok d.memory else move d.capacity d.memory d.count idx 1)
        >>= λ shifted. store d.capacity shifted idx value >>= λ memory.
            ok (record d { memory = memory; count = (d.count + 1) % 2 ^ 32 })

  unfoldable pub pop : DArray T → Run (T × DArray T)
  unfolding last_index
  pop d =
      let last_idx = last_index d in
      load d.memory d.capacity last_idx >>= λ value.
      ok (value, (if ltb 0 last_idx then record d { count = d.count - 1 } else d))

  unfoldable pub remove : DArray T → DArray T
  remove d = if ltb 0 d.count then record d { count = d.count - 1 } else d

  unfoldable pub remove_many : DArray T → ℕ → DArray T
  remove_many d number_to_remove =
      if leb d.count number_to_remove
      then record d { count = 0 }
      else record d { count = d.count - number_to_remove }

  -- `Count` is decremented first, so an empty array asks for a move of 2 ^ 32 - 1 cells.
  unfoldable pub remove_at : DArray T → ℕ → Run (DArray T)
  remove_at d idx =
      let count = sub32 d.count 1 in
      if idx == count
      then ok (record d { count = count })
      else if ltb count idx
      then fault
      else move d.capacity d.memory idx (idx + 1) (count - idx) >>= λ memory.
          ok (record d { memory = memory; count = count })

  unfoldable pub remove_swap_back : DArray T → ℕ → Run (DArray T)
  unfolding last_index
  remove_swap_back d idx = load d.memory d.capacity (last_index d) >>= λ last.
      store d.capacity d.memory idx last >>= λ memory.
      ok (record d { memory = memory; count = sub32 d.count 1 })

  unfoldable pub at : DArray T → ℕ → Run T
  at d idx = load d.memory d.capacity idx

  unfoldable pub last : DArray T → Run T
  unfolding at last_index
  last d = at d (last_index d)

  -- `other` is the block behind `*other`, of `size` cells.
  unfoldable pub copy_to_array : DArray T → ℕ → (ℕ → T) → ℕ → Run (ℕ → T)
  copy_to_array d size other count =
      if count == d.count
      then (if leb d.count d.capacity && leb d.count size
          then ok (moved other 0 d.memory 0 d.count)
          else fault)
      else ok other

  unfoldable pub clear : DArray T → DArray T
  clear d = record d { count = 0 }
