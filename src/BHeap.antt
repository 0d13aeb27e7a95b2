-- ===== src/BHeap.antt =====
-- Lib/BHeap.h: a binary heap of pairs of pointers. A pointer is its address, a number; `Items` is a
-- function from index to item, and every access is checked against `Capacity`.
pub mod Order
pub mod Up
pub mod Down
pub mod Queue
mod Tests
use scal_base.Prelude.{
  ℕ, zero, suc, ◌+◌, ◌-◌, ◌*◌, ◌/◌, ◌^◌, Bool, true, false, not, ltb, ◌==◌, if◌then◌else◌, Run, ok,
  fault, out_of_fuel, ◌>>=◌, load, update,
}
use scal_base.Prelude.Int.{ℤ, is_neg}

pub record BHeapItem : Type 0 where
  pub key : ℕ
  pub user : ℕ

pub record BHeap : Type 0 where
  pub compare_func : ℕ → ℕ → ℤ
  pub items : ℕ → BHeapItem
  pub count : ℕ
  pub capacity : ℕ

abbrev pub Items : Type 0
Items = ℕ → BHeapItem

-- `items` is the block that the arena gives.
unfoldable pub init : (ℕ → BHeapItem) → ℕ → (ℕ → ℕ → ℤ) → BHeap
init items capacity compare_func = record {
  compare_func = compare_func;
  items = items;
  count = 0;
  capacity = capacity;
}

-- `(index - 1) >> 1`
abbrev pub parent : ℕ → ℕ
parent index = (index - 1) / 2

-- The loop of `PushMin` and `PushMax`; `above` is their test, a sign of `CompareFunc`.
pub sift_up : (ℕ → ℕ → Bool) → ℕ → ℕ → Items → ℕ → Run Items
sift_up above capacity zero items index = out_of_fuel
sift_up above capacity (suc fuel) items index =
    let step = load items capacity index >>= λ cur. load items capacity (parent index) >>= λ up.
    let rise =
      sift_up above capacity fuel (update (update items index up) (parent index) cur)
        (parent index) in
    if above cur.key up.key then rise else ok items in
    if ltb 0 index then step else ok items

-- The loop of `HeapifyMin` and `HeapifyMax`; `above` compares the addresses of two keys. The indices
-- of the children are an `int`, and one that leaves its range is a fault.
pub heapify : (ℕ → ℕ → Bool) → ℕ → ℕ → ℕ → BHeapItem → Items → ℕ → Run Items
heapify above capacity count zero item items index = out_of_fuel
heapify above capacity count (suc fuel) item items index =
    let left = 2 * index + 1 in
    let right = 2 * index + 2 in
    let step = load items capacity left >>= λ l. load items capacity index >>= λ here.
    let first = if above l.key here.key then left else index in
    (if ltb right count
      then (load items capacity right >>= λ r.
          load items capacity first >>= λ best. ok (if above r.key best.key then right else first))
      else ok first)
    >>= λ chosen. load items capacity chosen >>= λ child.
        let sink =
          heapify above capacity count fuel item (update (update items index child) chosen item)
            chosen in
        if chosen == index then ok items else sink in
    if ltb left (2 ^ 31) then (if ltb left count then step else ok items) else fault

module _ (above : BHeap → ℕ → ℕ → Bool) where
  -- The common text of `PushMin` and `PushMax`.
  pub push_with : BHeap → ℕ → ℕ → Run BHeap
  push_with bh key user =
      if bh.count == bh.capacity
      then ok bh
      else if ltb bh.count bh.capacity
      then (sift_up (above bh) bh.capacity (bh.count + 1)
            (update bh.items bh.count (record { key = key; user = user })) bh.count
          >>= λ items. ok (record bh { items = items; count = bh.count + 1 }))
      else fault

unfoldable pub push_min : BHeap → ℕ → ℕ → Run BHeap
unfolding push_with
push_min = push_with (λ bh a b. is_neg (bh.compare_func a b))

unfoldable pub push_max : BHeap → ℕ → ℕ → Run BHeap
unfolding push_with
push_max = push_with (λ bh a b. not (is_neg (bh.compare_func a b)))

-- The text of `PopMin` and `PopMax` behind the test for an empty heap.
pub pop_with : (ℕ → ℕ → Bool) → BHeap → Run (BHeapItem × BHeap)
pop_with above bh = load bh.items bh.capacity 0 >>= λ result.
    load bh.items bh.capacity (bh.count - 1) >>= λ last.
    heapify above bh.capacity (bh.count - 1) (bh.count + 1) last (update bh.items 0 last) 0
    >>= λ items. ok (result, record bh { items = items; count = bh.count - 1 })

-- `PopMin` of an empty heap reads `Items[-1]`.
unfoldable pub pop_min : BHeap → Run (BHeapItem × BHeap)
unfolding pop_with
pop_min bh = if bh.count == 0 then fault else pop_with ltb bh

unfoldable pub pop_max : BHeap → Run (BHeapItem × BHeap)
unfolding pop_with
pop_max bh =
    if bh.count == 0 then ok (record { key = 0; user = 0 }, bh) else pop_with (λ a b. ltb b a) bh

unfoldable pub bheap_clear : BHeap → BHeap
bheap_clear bh = record bh { count = 0 }

unfoldable pub bheap_empty : BHeap → Bool
bheap_empty bh = bh.count == 0
