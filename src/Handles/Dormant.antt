-- ===== src/Handles/Dormant.antt =====
-- No handle that a pool gives out exists in it.
use scal_base.Prelude.{
  ℕ, zero, suc, ◌+◌, ◌-◌, ◌*◌, ◌%◌, ◌≤◌, ◌<◌, ◌≡◌, ◌≢◌, refl, sym, ◌∙◌, ap, arith, true, false, not,
  ◌||◌, ltb, leb, ◌==◌, if◌then◌else◌, ok, load-ok, update_self, update_ne, lt→ltb, sub32, Returns,
  returns, Returns-ok, ok-inj, inl, inr, Bool-cases,
}
use native.Mathlib.Decide.{ℕ_discrete}
use scal_base.Handles.{
  Handle, HandlesPool, value, no_handle, new_handle, does_handle_exist, release_handle,
  number_cells, handles_pool_create,
}

-- The bit fields of a handle.
pub record IsHandle (h : Handle) : Type 0 where
  pub id : h.id < 8388608
  pub gen : h.gen < 256

-- No cell is alive, and every index leads into the pool.
pub record Dormant (p : HandlesPool) : Type 0 where
  pub dead : (i : ℕ) → (p.dense i).alive ≡ false
  pub cells : (i : ℕ) → IsHandle (p.dense i)
  pub ids : (i : ℕ) → (p.dense i).id < p.capacity
  pub indices : (i : ℕ) → p.sparse i < p.capacity
  pub fits : p.count ≤ p.capacity

value-alive :
    (d h : Handle) → IsHandle d → IsHandle h → d.alive ≡ false → h.alive ≡ true → value d ≢ value h
value-alive d h hd hh dead alive e =
    let low : value d ≡ d.id + d.gen * 16777216 = ground (arith, dead) in
    let high : value h ≡ h.id + 8388608 + h.gen * 16777216 = ground (arith, alive) in
    omega (arith, hd.id, hh.id, low, high, e)

absent :
    {p : HandlesPool} → Dormant p → (h : Handle) → IsHandle h → does_handle_exist p h ≡ ok false
unfolding does_handle_exist
absent {p} dormant h is_handle = elim (Bool-cases (leb p.capacity h.id || not h.alive)) [
  | inl out ↦ rw out
  | inr inside ↦
      let alive : h.alive ≡ true = ground (arith, inside) in
      let within : h.id < p.capacity = ground (arith, inside) in
      let idx = p.sparse h.id in
      let differ : (value (p.dense idx) == value h) ≡ false = ground (
        arith,
        value-alive (p.dense idx) h (dormant.cells idx) is_handle (dormant.dead idx) alive,
      ) in
      rw (
        inside,
        load-ok p.sparse p.capacity h.id within,
        load-ok p.dense p.capacity idx (dormant.indices h.id),
        differ,
      )
]

abbrev pub numbered : ℕ → ℕ → Handle
numbered n i = record { id = (if ltb i n then i % 8388608 else 0); alive = false; gen = 0 }

pub number_cells-numbered : (n i : ℕ) → number_cells n (λ i. no_handle) i ≡ numbered n i
unfolding number_cells
number_cells-numbered zero i = let none : ltb i 0 ≡ false = ground arith in rw none refl
number_cells-numbered (suc n) i =
    let earlier = number_cells n (λ i. no_handle) in
    elim (ℕ_discrete n i) [
      | yes here ↦
          let inside : ltb n (suc n) ≡ true = ground arith in
          rw (← here) (
            update_self earlier n (record (earlier n) { id = n % 8388608 })
            ∙ rw (number_cells-numbered n n, inside) refl)
      | no other ↦
          let same : ltb i (suc n) ≡ ltb i n = ground (arith, other) in
          rw same (
            update_ne earlier n (record (earlier n) { id = n % 8388608 }) i other
            ∙ number_cells-numbered n i)
    ]

module _ {n : ℕ} (some : 0 < n) (small : n ≤ 8388608) where
  pub create-dense : (i : ℕ) → (handles_pool_create n).dense i ≡ numbered (n - 1) i
  unfolding handles_pool_create
  create-dense i =
      let word : sub32 n 1 ≡ n - 1 = omega arith in rw word (number_cells-numbered (n - 1) i)

  create-Dormant : Dormant (handles_pool_create n)
  unfolding handles_pool_create
  create-Dormant = record {
    dead = λ i. ap (λ (h : Handle). h.alive) (create-dense i);
    cells = λ i. rw (create-dense i) (record { id = ground arith; gen = omega arith });
    ids = λ i. rw (create-dense i) (ground arith);
    indices = λ i. some;
    fits = omega arith;
  }

-- `NewHandle` keeps the pool dormant.
new_handle-Dormant :
    {p : HandlesPool}
    → Dormant p
    → p.capacity ≤ 8388608
    → Returns (λ r. Dormant r.1 × ((r.1).capacity ≡ p.capacity) × IsHandle r.0) (new_handle p)
unfolding new_handle
new_handle-Dormant {p} dormant small = elim (Bool-cases (p.count == p.capacity)) [
  | inl full ↦ rw full (returns (dormant, refl, record { id = omega arith; gen = omega arith }))
  | inr room ↦
      let inside : p.count < p.capacity = ground (arith, room, dormant.fits) in
      let cell = p.dense p.count in
      let stored : ltb cell.id p.capacity ≡ true = lt→ltb _ _ (dormant.ids p.count) in
      let fields = dormant.cells p.count in
      rw (room, load-ok p.dense p.capacity p.count inside, stored)
        (returns (
          record {
            dead = dormant.dead;
            cells = dormant.cells;
            ids = dormant.ids;
            indices = λ i. ground (arith, inside, dormant.indices i);
            fits = omega arith;
          },
          refl,
          record { id = fields.id; gen = fields.gen },
        ))
]

-- The pools of `n` handles that calls of the interface lead to.
pub data Reached (n : ℕ) : HandlesPool → Type 0 where
  created : Reached n (handles_pool_create n)
  renewed :
      {p : HandlesPool} {r : Handle × HandlesPool}
      → Reached n p
      → new_handle p ≡ ok r
      → Reached n r.1
  released :
      {p r : HandlesPool} (h : Handle)
      → Reached n p
      → IsHandle h
      → release_handle p h ≡ ok r
      → Reached n r

pub release_handle-Dormant :
    {p : HandlesPool} → Dormant p → (h : Handle) → IsHandle h → release_handle p h ≡ ok p
unfolding release_handle
release_handle-Dormant dormant h is_handle = rw (absent dormant h is_handle)

Reached-Dormant :
    {n : ℕ} → 0 < n → n ≤ 8388608 → {p : HandlesPool} → Reached n p → Dormant p × (p.capacity ≡ n)
unfolding handles_pool_create
Reached-Dormant some small created = (create-Dormant some small, refl)
Reached-Dormant some small (renewed {p} before run) =
    let (dormant, same) = Reached-Dormant some small before in
    let (kept, size, _) = Returns-ok (rw run at (new_handle-Dormant dormant (rw same small))) in
    (kept, size ∙ same)
Reached-Dormant some small (released {p} {r} h before is_handle run) =
    let (dormant, same) = Reached-Dormant some small before in
    let unchanged : p ≡ r = ok-inj (sym (release_handle-Dormant dormant h is_handle) ∙ run) in
    rw (← unchanged) (dormant, same)

-- In every pool of 1 to 2 ^ 23 handles that calls of `HandlesPoolCreate`, `NewHandle` and
-- `ReleaseHandle` lead to, `DoesHandleExist` is false for every handle, also for those that
-- `NewHandle` has returned, and `ReleaseHandle` changes nothing.
pub does_handle_exist-Reached :
    {n : ℕ}
    → 0 < n
    → n ≤ 8388608
    → {p : HandlesPool} → Reached n p
    → (h : Handle) → IsHandle h
    → (does_handle_exist p h ≡ ok false) × (release_handle p h ≡ ok p)
does_handle_exist-Reached some small reached h is_handle =
    let (dormant, _) = Reached-Dormant some small reached in
    (absent dormant h is_handle, release_handle-Dormant dormant h is_handle)
