-- ===== src/Handles/Issue.antt =====
-- The ids that `NewHandle` gives out, from a new pool on.
use scal_base.Prelude.{
  ℕ, zero, suc, ◌-◌, ◌%◌, ◌≤◌, ◌<◌, ◌≡◌, refl, arith, true, false, ltb, ◌==◌, if◌then◌else◌, Run,
  ok, ◌>>=◌, load-ok, Returns, returns, Returns-inv,
}
use scal_base.Handles.{HandlesPool, new_handle, handles_pool_create}
use scal_base.Handles.Dormant.{numbered, create-dense}

-- `k` calls of `NewHandle`, whose results are dropped.
unfoldable pub take_handles : ℕ → HandlesPool → Run HandlesPool
unfolding new_handle
take_handles zero pool = ok pool
take_handles (suc k) pool = take_handles k pool >>= λ p. new_handle p >>= λ r. ok r.1

module _ {n : ℕ} (some : 0 < n) (small : n ≤ 8388608) where
  -- The pool after `k` calls.
  record Taken (k : ℕ) (p : HandlesPool) : Type 0 where
    count : p.count ≡ k
    capacity : p.capacity ≡ n
    dense : p.dense ≡ (handles_pool_create n).dense

  next_handle :
      (k : ℕ) (p : HandlesPool)
      → Taken k p
      → k < n
      → Returns
          (λ r.
            ((r.0).id ≡ (if ltb k (n - 1) then k else 0))
            × ((r.0).alive ≡ true)
            × Taken (suc k) r.1)
          (new_handle p)
  unfolding new_handle
  next_handle k p taken room =
      let differ : (p.count == p.capacity) ≡ false =
        ground (arith, taken.count, taken.capacity, room) in
      let cell : p.dense p.count ≡ numbered (n - 1) k =
        rw (taken.dense, taken.count) (create-dense some small k) in
      let stored : ltb (if ltb k (n - 1) then k % 8388608 else 0) p.capacity ≡ true =
        ground (arith, taken.capacity, room) in
      rw
        (
          differ,
          load-ok p.dense p.capacity p.count (omega (arith, taken.count, taken.capacity)),
          cell,
          stored,
        )
        (returns (
          ground arith,
          refl,
          record {
            count = omega (arith, taken.count);
            capacity = taken.capacity;
            dense = taken.dense;
          },
        ))

  take_handles-Taken : (k : ℕ) → k ≤ n → Returns (Taken k) (take_handles k (handles_pool_create n))
  unfolding take_handles handles_pool_create
  take_handles-Taken zero le = returns record { count = refl; capacity = refl; dense = refl }
  take_handles-Taken (suc k) le =
      let (p, run, taken) = Returns-inv (take_handles-Taken k (omega arith)) in
      let (r, run', (_, _, next)) = Returns-inv (next_handle k p taken (omega arith)) in
      rw (run, run') (returns next)

-- In a new pool of 1 to 2 ^ 23 handles, call number k of `NewHandle`, counted from 0, returns a
-- handle that is alive, with the id k; but the last handle of the pool has the id 0 again.
pub new_handle-take_handles :
    (n k : ℕ)
    → n ≤ 8388608
    → k < n
    → Returns
        (λ r. ((r.0).id ≡ (if ltb k (n - 1) then k else 0)) × ((r.0).alive ≡ true))
        (take_handles k (handles_pool_create n) >>= new_handle)
new_handle-take_handles n k small room =
    let (p, run, taken) = Returns-inv (take_handles-Taken (omega arith) small k (omega arith)) in
    let (r, run', (id, alive, _)) = Returns-inv (next_handle (omega arith) small k p taken room) in
    rw (run, run') (returns (id, alive))
