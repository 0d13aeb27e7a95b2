-- ===== src/Pool/Tests.antt =====
-- Runs of the pool, and the theorems at a pool of three cells.
use scal_base.Prelude.{◌-◌, ◌≡◌, refl, ◌==◌, if◌then◌else◌, none, some}
use scal_base.Pool.{Pool, init, reset, reset_loop, stack_push}

abbrev raw : Pool
raw = record { next = λ i. none; free_list = none; count = 0; capacity = 0 }

abbrev one_out : Pool
one_out = record {
  next = λ i. if i == 0 then none else some (i - 1);
  free_list = some 1;
  count = 1;
  capacity = 3;
}

-- A second `Reset` links the first cell to the last: the free list is a cycle.
cycle :
    ((reset (reset (init raw 3))).next 0 ≡ some 2)
    × ((reset (reset (init raw 3))).free_list ≡ some 2)
unfolding reset init reset_loop stack_push
cycle = (refl, refl)
