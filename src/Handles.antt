-- ===== src/Handles.antt =====
-- Lib/Handles.h, with small handles and in a build without asserts: a pool of handles. A `Handle` is
-- its three bit fields; `Sparse` and `Dense` are functions from index to cell, and every access is
-- checked against `Capacity`.
mod Dormant
mod Issue
mod Tests
use scal_base.Prelude.{
  ℕ, zero, suc, ◌+◌, ◌-◌, ◌*◌, ◌/◌, ◌%◌, ◌^◌, Bool, true, false, not, ◌&&◌, ◌||◌, ltb, leb, ◌==◌,
  if◌then◌else◌, Run, ok, fault, ◌>>=◌, load, store, update, sub32,
}

pub record Handle : Type 0 where
  pub id : ℕ
  pub alive : Bool
  pub gen : ℕ

pub record HandlesPool : Type 0 where
  pub count : ℕ
  pub capacity : ℕ
  pub sparse : ℕ → ℕ
  pub dense : ℕ → Handle

-- `Value`: 23 bits of `Id`, one of `Alive` and 8 of `Gen`.
abbrev pub value : Handle → ℕ
value h = h.id + (if h.alive then 8388608 else 0) + h.gen * 16777216

abbrev pub no_handle : Handle
no_handle = record { id = 0; alive = false; gen = 0 }

unfoldable pub new_handle : HandlesPool → Run (Handle × HandlesPool)
new_handle pool =
    if pool.count == pool.capacity
    then ok (no_handle, pool)
    else load pool.dense pool.capacity pool.count >>= λ cell.
        let res = record cell { alive = true } in
        store pool.capacity pool.sparse res.id pool.count >>= λ sparse.
        ok (res, record pool { count = (pool.count + 1) % 2 ^ 32; sparse = sparse })

unfoldable pub does_handle_exist : HandlesPool → Handle → Run Bool
does_handle_exist pool handle =
    if leb pool.capacity handle.id || not handle.alive
    then ok false
    else load pool.sparse pool.capacity handle.id >>= λ idx.
        load pool.dense pool.capacity idx >>= λ cell. ok (value cell == value handle)

unfoldable pub release_handle : HandlesPool → Handle → Run HandlesPool
unfolding does_handle_exist
release_handle pool handle =
    let last = sub32 pool.count 1 in
    does_handle_exist pool handle >>= λ exists.
    if exists
    then (load pool.sparse pool.capacity handle.id >>= λ idx.
        load pool.dense pool.capacity last >>= λ last_handle.
        store pool.capacity pool.sparse last_handle.id idx >>= λ sparse.
        store pool.capacity pool.dense idx last_handle >>= λ moved.
        store pool.capacity moved last
          (record { id = handle.id; alive = false; gen = (handle.gen + 1) % 256 })
        >>= λ dense. ok (record pool { sparse = sparse; dense = dense }))
    else ok pool

-- The loop of `HandlesPoolCreate`, over the first `n` cells.
unfoldable pub number_cells : ℕ → (ℕ → Handle) → ℕ → Handle
number_cells zero dense = dense
number_cells (suc n) dense =
    let earlier = number_cells n dense in update earlier n (record (earlier n) { id = n % 8388608 })

unfoldable pub handles_pool_create : ℕ → HandlesPool
unfolding number_cells
handles_pool_create capacity = record {
  count = 0;
  capacity = capacity;
  sparse = λ i. 0;
  dense = number_cells (sub32 capacity 1) (λ i. no_handle);
}
