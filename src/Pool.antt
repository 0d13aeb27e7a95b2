-- ===== src/Pool.antt =====
-- Lib/Pool.h, in a build without asserts: a pool of cells behind a free list. A pointer into `Data` is
-- an index, and null is `none`; `next` is the `Next` member of the cells, and what a client writes into a
-- cell that it has got is not modelled.
mod Cells
mod Tests
use scal_base.Prelude.{
  ℕ, zero, suc, ◌+◌, ◌-◌, ◌%◌, ◌^◌, Bool, true, false, ltb, ◌==◌, if◌then◌else◌, Run, ok, fault,
  ◌>>=◌, update, Option, none, some,
}

pub record Pool : Type 0 where
  pub next : ℕ → Option ℕ
  pub free_list : Option ℕ
  pub count : ℕ
  pub capacity : ℕ

-- `SLStackPush(FreeList, &Data[i], Next)`
unfoldable pub stack_push : Pool → ℕ → Pool
stack_push pool i = record pool { next = update pool.next i pool.free_list; free_list = some i }

-- `SLStackPop(FreeList, Next)`
unfoldable pub stack_pop : Pool → Pool
stack_pop pool = record pool {
  free_list = elim pool.free_list [ none ↦ none | some i ↦ pool.next i ];
}

unfoldable pub reset_loop : ℕ → Pool → Pool
unfolding stack_push
reset_loop zero pool = pool
reset_loop (suc n) pool = stack_push (reset_loop n pool) n

unfoldable pub reset : Pool → Pool
unfolding reset_loop
reset pool = reset_loop pool.capacity pool

-- `FreeList` and `Count` keep what they held before. The arena is taken to give a block for `capacity`
-- cells: its null and the wrap of the size in bytes are left out.
unfoldable pub init : Pool → ℕ → Pool
unfolding reset
init pool capacity = reset (record pool { next = λ i. none; capacity = capacity })

-- For a full pool the code returns a name that is not declared and so does not compile; null is our reading.
unfoldable pub get : Pool → Option ℕ × Pool
unfolding stack_pop
get pool =
    if pool.count == pool.capacity
    then (none, pool)
    else (pool.free_list, record (stack_pop pool) { count = (pool.count + 1) % 2 ^ 64 })

unfoldable pub is_pointer_in_pool : Pool → Option ℕ → Bool
is_pointer_in_pool pool none = false
is_pointer_in_pool pool (some i) = ltb i pool.capacity

-- `Return`; a pointer outside `Data` is a write outside it.
unfoldable pub give_back : Pool → ℕ → Run Pool
unfolding stack_push
give_back pool i =
    if ltb i pool.capacity
    then ok (record (stack_push pool i) { count = (pool.count + (2 ^ 64 - 1)) % 2 ^ 64 })
    else fault
