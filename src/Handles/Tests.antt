-- ===== src/Handles/Tests.antt =====
-- Runs of the pool of handles, and the theorems at a pool of four.
use scal_base.Prelude.{
  ◌-◌, ◌≡◌, refl, arith, true, false, ltb, if◌then◌else◌, ok, ◌>>=◌, Returns, update,
}
use scal_base.Handles.{
  Handle, HandlesPool, new_handle, does_handle_exist, release_handle, handles_pool_create,
  number_cells,
}
use scal_base.Handles.Dormant.{Reached, created, renewed, does_handle_exist-Reached}
use scal_base.Handles.Issue.{take_handles, new_handle-take_handles}

abbrev first_handle : Handle
first_handle = record { id = 0; alive = true; gen = 0 }

abbrev taken : HandlesPool
taken = record (handles_pool_create 4) {
  count = 1;
  sparse = update (handles_pool_create 4).sparse 0 0;
}

first_run : new_handle (handles_pool_create 4) ≡ ok (first_handle, taken)
unfolding new_handle handles_pool_create number_cells
first_run = refl

taken-Reached : Reached 4 taken
taken-Reached = renewed created first_run

does_handle_exist-Reached_example :
    (does_handle_exist taken first_handle ≡ ok false)
    × (release_handle taken first_handle ≡ ok taken)
does_handle_exist-Reached_example =
    does_handle_exist-Reached (omega arith) (omega arith) taken-Reached first_handle
      (record { id = omega arith; gen = omega arith })

new_handle-take_handles_example :
    Returns
      (λ r. ((r.0).id ≡ (if ltb 3 (4 - 1) then 3 else 0)) × ((r.0).alive ≡ true))
      (take_handles 3 (handles_pool_create 4) >>= new_handle)
new_handle-take_handles_example = new_handle-take_handles 4 3 (omega arith) (omega arith)
